-- ===== src/Trace/Structure/Counts.antt =====
-- How many spans the merged tree counts (frontend/src/pages/log/StructureView.tsx).
use mrboard.Shared.{
  ◌≡◌, ◌∙◌, refl, ap, ℕ, suc, ◌+◌, ◌≤◌, Option, none, some, List, [], ◌∷◌, arith, ◌==◌, Text,
  text_eq, length, length-append, Bool-cases, inl, inr,
}
use mrboard.Shared.Assoc.{get, put}
use mrboard.Shared.Members.{includes}
use mrboard.Trace.Span.{Span}
use mrboard.Trace.Structure.{
  MergeEntry, EntryMap, entry_of, key_of, push_span, set_parent, add_child, change, link_parent,
  parent_span, merge_spans, merge_traces, span_map, Trees, sort_trees, root_keys, build_merge_tree,
}
use mrboard.Trace.Structure.Laws.{
  spans_counted, spans_counted-sort_trees, left_keys, left_spans, build_nodes-Builds,
}

-- The spans of all entries, and those of all traces.
abbrev spans_of : EntryMap → ℕ
spans_of [] = 0
spans_of ((key, e) ∷ m) = length e.spans + spans_of m

abbrev pub span_total : List (List Span) → ℕ
span_total [] = 0
span_total (spans ∷ traces) = length spans + span_total traces

spans_of-put :
    (key : Text) (e : MergeEntry) (m : EntryMap)
    → spans_of (put key e m) + length (entry_of key m).spans ≡ spans_of m + length e.spans
unfolding put get
spans_of-put key e [] = omega arith
spans_of-put key e ((k, d) ∷ m) = ground (arith, spans_of-put key e m)

spans_of-push :
    (key : Text) (s : Span) (m : EntryMap) → spans_of (change key (push_span s) m) ≡ spans_of m + 1
unfolding change
spans_of-push key s m = omega (
  arith,
  spans_of-put key (push_span s (entry_of key m)) m,
  length-append (entry_of key m).spans (s ∷ []),
)

spans_of-set_parent :
    (key p : Text) (m : EntryMap) → spans_of (change key (set_parent p) m) ≡ spans_of m
unfolding change
spans_of-set_parent key p m = omega (arith, spans_of-put key (set_parent p (entry_of key m)) m)

spans_of-add_child :
    (key c : Text) (m : EntryMap) → spans_of (change key (add_child c) m) ≡ spans_of m
unfolding change
spans_of-add_child key c m = omega (arith, spans_of-put key (add_child c (entry_of key m)) m)

spans_of-link_parent :
    (o : Option Span) (s : Span) (m : EntryMap) → spans_of (link_parent o s m) ≡ spans_of m
spans_of-link_parent none s m = refl
spans_of-link_parent (some p) s m = elim (Bool-cases (p.service_name == s.service_name)) [
  | inl same ↦ rw same refl
  | inr other ↦ rw other (
      spans_of-add_child (key_of p) (key_of s) (change (key_of s) (set_parent (key_of p)) m)
      ∙ spans_of-set_parent (key_of s) (key_of p) m)
]

spans_of-merge_spans :
    (by_id : List (Text × Span)) (spans : List Span) (m : EntryMap)
    → spans_of (merge_spans by_id spans m) ≡ spans_of m + length spans
unfolding merge_spans
spans_of-merge_spans by_id [] m = omega arith
spans_of-merge_spans by_id (s ∷ spans) m =
    let pushed = change (key_of s) (push_span s) m in
    omega (
      arith,
      spans_of-merge_spans by_id spans (link_parent (parent_span s by_id) s pushed),
      spans_of-link_parent (parent_span s by_id) s pushed,
      spans_of-push (key_of s) s m,
    )

spans_of-merge_traces :
    (traces : List (List Span)) (m : EntryMap)
    → spans_of (merge_traces traces m) ≡ spans_of m + span_total traces
unfolding merge_traces
spans_of-merge_traces [] m = omega arith
spans_of-merge_traces (spans ∷ traces) m = omega (
  arith,
  spans_of-merge_traces traces (merge_spans (span_map spans []) spans m),
  spans_of-merge_spans (span_map spans []) spans m,
)

left_spans-nil : (m : EntryMap) → left_spans m [] ≡ spans_of m
unfolding includes
left_spans-nil [] = refl
left_spans-nil ((key, e) ∷ m) = ap (λ n. length e.spans + n) (left_spans-nil m)

left_keys-nil : (m : EntryMap) → left_keys m [] ≡ length m
unfolding includes
left_keys-nil [] = refl
left_keys-nil ((key, e) ∷ m) = ap suc (left_keys-nil m)

-- Whatever the traces, cycles of operations included, merging them ends within one nested call more
-- than there are operations, and the trees count at most as many spans as the traces have.
pub build_merge_tree_lem :
    (traces : List (List Span))
    → (t : Trees) × (build_merge_tree traces ≡ some t) × (spans_counted t ≤ span_total traces)
unfolding build_merge_tree
build_merge_tree_lem traces =
    let m = merge_traces traces [] in
    let (built, e, _, count) =
      build_nodes-Builds m (suc (length m)) (root_keys m m) [] (omega (arith, left_keys-nil m)) in
    (
      sort_trees built.0,
      ground (arith, e),
      omega (
        arith,
        count,
        left_spans-nil m,
        spans_of-merge_traces traces [],
        spans_counted-sort_trees built.0,
      ),
    )
