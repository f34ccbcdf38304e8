-- ===== src/Trace/Structure/Laws.antt =====
-- Merging traces ends, and no span is counted twice (frontend/src/pages/log/StructureView.tsx).
use mrboard.Shared.{
  ◌≡◌, refl, ℕ, zero, suc, ◌+◌, ◌≤◌, false, Option, some, List, [], ◌∷◌, arith, if◌then◌else◌, Text,
  text_eq, text_beq_iff, length, Bool-cases, Option-cases, inl, inr,
}
use mrboard.Shared.Assoc.{get}
use mrboard.Shared.Members.{includes}
use mrboard.Trace.Structure.{
  MergeEntry, EntryMap, Operation, Trees, nil, cons, insert_tree, sort_trees, operation_of,
  build_nodes, Built,
}

-- The spans that a list of trees counts.
abbrev pub spans_counted : Trees → ℕ
spans_counted nil = 0
spans_counted (cons o children rest) = o.span_count + (spans_counted children + spans_counted rest)

spans_counted-insert_tree :
    (o : Operation) (children t : Trees)
    → spans_counted (insert_tree o children t)
      ≡ o.span_count + (spans_counted children + spans_counted t)
unfolding insert_tree
spans_counted-insert_tree o children nil = refl
spans_counted-insert_tree o children (cons p kids rest) =
    ground (arith, spans_counted-insert_tree o children rest)

pub spans_counted-sort_trees : (t : Trees) → spans_counted (sort_trees t) ≡ spans_counted t
unfolding sort_trees
spans_counted-sort_trees nil = refl
spans_counted-sort_trees (cons o children rest) =
    ground
      (arith, spans_counted-insert_tree o children (sort_trees rest), spans_counted-sort_trees rest)

-- The entries that are not built, and their spans.
abbrev pub left_keys : EntryMap → List Text → ℕ
left_keys [] built = 0
left_keys ((key, e) ∷ m) built =
    if includes built key then left_keys m built else suc (left_keys m built)

abbrev pub left_spans : EntryMap → List Text → ℕ
left_spans [] built = 0
left_spans ((key, e) ∷ m) built =
    if includes built key then left_spans m built else length e.spans + left_spans m built

left_keys-cons_le :
    (m : EntryMap) (key : Text) (built : List Text) → left_keys m (key ∷ built) ≤ left_keys m built
unfolding includes
left_keys-cons_le [] key built = omega arith
left_keys-cons_le ((k, e) ∷ m) key built = ground (arith, left_keys-cons_le m key built)

left_spans-cons_le :
    (m : EntryMap) (key : Text) (built : List Text)
    → left_spans m (key ∷ built) ≤ left_spans m built
unfolding includes
left_spans-cons_le [] key built = omega arith
left_spans-cons_le ((k, e) ∷ m) key built = ground (arith, left_spans-cons_le m key built)

-- An entry that is built now is no longer left.
left_keys-built :
    (m : EntryMap) (key : Text) (e : MergeEntry) (built : List Text)
    → get key m ≡ some e
    → includes built key ≡ false
    → left_keys m (key ∷ built) + 1 ≤ left_keys m built
unfolding includes get
left_keys-built [] key e built h i = cc
left_keys-built ((k, d) ∷ m) key e built h i = ground (
  arith,
  left_keys-built m key e built,
  left_keys-cons_le m key built,
  text_beq_iff k key,
  text_beq_iff key k,
)

left_spans-built :
    (m : EntryMap) (key : Text) (e : MergeEntry) (built : List Text)
    → get key m ≡ some e
    → includes built key ≡ false
    → left_spans m (key ∷ built) + length e.spans ≤ left_spans m built
unfolding includes get
left_spans-built [] key e built h i = cc
left_spans-built ((k, d) ∷ m) key e built h i = ground (
  arith,
  left_spans-built m key e built,
  left_spans-cons_le m key built,
  text_beq_iff k key,
  text_beq_iff key k,
)

-- With a level for each entry that is left, and one more, building ends; the trees count only spans
-- that were left.
abbrev Builds : EntryMap → Option Built → List Text → Type 0
Builds m o built =
    (r : Built) × (o ≡ some r)
    × (left_keys m r.1 ≤ left_keys m built)
    × (spans_counted r.0 + left_spans m r.1 ≤ left_spans m built)

no_fuel : (n : ℕ) → n + 1 ≤ 0 → ⊥
no_fuel n h = omega arith

pub build_nodes-Builds :
    (m : EntryMap) (fuel : ℕ) (keys built : List Text)
    → left_keys m built + 1 ≤ fuel
    → Builds m (build_nodes m fuel keys built) built
unfolding build_nodes operation_of
build_nodes-Builds m fuel [] built h = ((nil, built), refl, omega arith, omega arith)
build_nodes-Builds m zero (key ∷ keys) built h = elim (no_fuel (left_keys m built) h) [ ]
build_nodes-Builds m (suc fuel) (key ∷ keys) built h = elim (Bool-cases (includes built key)) [
  | inl old ↦
      let (r, e, low, count) = build_nodes-Builds m (suc fuel) keys built h in
      (r, ground (arith, e), low, count)
  | inr new ↦ elim (Option-cases (get key m)) [
    | inl missing ↦
        let (r, e, low, count) =
          build_nodes-Builds m (suc fuel) keys (key ∷ built)
            (omega (arith, left_keys-cons_le m key built)) in
        (
          r,
          ground (arith, e),
          omega (arith, left_keys-cons_le m key built),
          omega (arith, left_spans-cons_le m key built),
        )
    | inr (entry, found) ↦
        let (inner, e, low, count) =
          build_nodes-Builds m fuel entry.children (key ∷ built)
            (omega (arith, left_keys-built m key entry built found new)) in
        let (after, f, lower, counted) =
          build_nodes-Builds m (suc fuel) keys inner.1
            (omega (arith, left_keys-built m key entry built found new)) in
        (
          (cons (operation_of key entry) (sort_trees inner.0) after.0, after.1),
          ground (arith, e, f),
          omega (arith, left_keys-cons_le m key built),
          omega (
            arith,
            left_spans-built m key entry built found new,
            spans_counted-sort_trees inner.0,
          ),
        )
  ]
]
