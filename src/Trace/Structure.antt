-- ===== src/Trace/Structure.antt =====
-- The tree of operations that is merged from many traces, `buildMergeTree` of
-- frontend/src/pages/log/StructureView.tsx. An average is its sum and its count.
pub mod Laws
pub mod Counts
use mrboard.Shared.{
  ℕ, zero, suc, ◌+◌, ◌++◌, Bool, true, false, not, ◌&&◌, ◌||◌, Option, none, some, List, [], ◌∷◌,
  if◌then◌else◌, ◌==◌, leb, Text, text_eq, lit, is_truthy, is_some, length, keep, split,
}
use mrboard.Shared.Assoc.{get, put, keys}
use mrboard.Shared.Members.{includes, add_member}
use mrboard.Trace.Span.{Span}

-- The values of `nodeMap`.
pub record MergeEntry : Type 0 where
  pub spans : List Span
  pub children : List Text
  pub parent : Option Text

abbrev EntryMap : Type 0
EntryMap = List (Text × MergeEntry)

abbrev entry_of : Text → EntryMap → MergeEntry
entry_of key m = elim (get key m) [
  | some e ↦ e
  | none ↦ record { spans = []; children = []; parent = none }
]

abbrev key_of : Span → Text
key_of s = s.service_name ++ b':' ∷ s.operation_name

unfoldable pub span_map : List Span → List (Text × Span) → List (Text × Span)
span_map [] m = m
span_map (s ∷ spans) m = span_map spans (put s.span_id s m)

abbrev push_span : Span → MergeEntry → MergeEntry
push_span s e = record e { spans = e.spans ++ s ∷ [] }

abbrev set_parent : Text → MergeEntry → MergeEntry
set_parent key e = record e { parent = some key }

abbrev add_child : Text → MergeEntry → MergeEntry
add_child key e = record e { children = add_member key e.children }

-- `nodeMap.get(key)`, changed; where the key is missing, an empty entry is made first.
unfoldable pub change : Text → (MergeEntry → MergeEntry) → EntryMap → EntryMap
change key f m = put key (f (entry_of key m)) m

abbrev link_parent : Option Span → Span → EntryMap → EntryMap
link_parent none s m = m
link_parent (some p) s m =
    if p.service_name == s.service_name
    then m
    else change (key_of p) (add_child (key_of s)) (change (key_of s) (set_parent (key_of p)) m)

-- The parent that a span names, unless it is '' or zeros.
abbrev parent_span : Span → List (Text × Span) → Option Span
parent_span s by_id =
    if is_truthy s.parent_span_id && not (s.parent_span_id == lit "0000000000000000")
    then get s.parent_span_id by_id
    else none

unfoldable pub merge_spans : List (Text × Span) → List Span → EntryMap → EntryMap
merge_spans by_id [] m = m
merge_spans by_id (s ∷ spans) m =
    merge_spans by_id spans
      (link_parent (parent_span s by_id) s (change (key_of s) (push_span s) m))

-- The outer loop; a trace is its list of spans.
unfoldable pub merge_traces : List (List Span) → EntryMap → EntryMap
merge_traces [] m = m
merge_traces (spans ∷ traces) m = merge_traces traces (merge_spans (span_map spans []) spans m)

-- `TreeNode` without its children.
pub record Operation : Type 0 where
  pub service_name : Text
  pub operation_name : Text
  pub span_count : ℕ
  pub total_duration : ℕ
  pub error_count : ℕ

-- `TreeNode[]`: a node, its children, and the nodes after it.
pub data Trees : Type 0 where
  nil : Trees
  cons : Operation → (children rest : Trees) → Trees

-- The stable sort by falling span count.
unfoldable pub insert_tree : Operation → Trees → Trees → Trees
insert_tree o children nil = cons o children nil
insert_tree o children (cons p kids rest) =
    if leb p.span_count o.span_count
    then cons o children (cons p kids rest)
    else cons p kids (insert_tree o children rest)

unfoldable pub sort_trees : Trees → Trees
sort_trees nil = nil
sort_trees (cons o children rest) = insert_tree o children (sort_trees rest)

abbrev total_duration_of : List Span → ℕ
total_duration_of [] = 0
total_duration_of (s ∷ spans) = s.duration + total_duration_of spans

-- `const [serviceName, operationName] = key.split(':')`; a key has a colon.
abbrev part : ℕ → List Text → Text
part n [] = []
part zero (s ∷ ss) = s
part (suc n) (s ∷ ss) = part n ss

unfoldable pub operation_of : Text → MergeEntry → Operation
operation_of key e = record {
  service_name = part 0 (split b':' key);
  operation_name = part 1 (split b':' key);
  span_count = length e.spans;
  total_duration = total_duration_of e.spans;
  error_count = length (keep (λ s. s.status == lit "error") e.spans);
}

-- The keys that are built, and the trees.
abbrev Built : Type 0
Built = Trees × List Text

-- A loop that calls `buildNode` on a list of keys: over the children of an entry, or over the roots.
-- The fuel bounds how deep the calls nest, and `none` means that it ran out.
unfoldable pub build_nodes : EntryMap → ℕ → List Text → List Text → Option Built
build_nodes m fuel [] built = some (nil, built)
build_nodes m zero (key ∷ keys) built = none
build_nodes m (suc fuel) (key ∷ keys) built =
    if includes built key then build_nodes m (suc fuel) keys built else elim (get key m) [
      | none ↦ build_nodes m (suc fuel) keys (key ∷ built)
      | some e ↦ elim (build_nodes m fuel e.children (key ∷ built)) [
        | none ↦ none
        | some inner ↦ elim (build_nodes m (suc fuel) keys inner.1) [
          | none ↦ none
          | some after ↦ some (cons (operation_of key e) (sort_trees inner.0) after.0, after.1)
        ]
      ]
    ]

-- The keys whose entry has no parent, or one without entry; an empty text counts as none.
abbrev stands_alone : EntryMap → MergeEntry → Bool
stands_alone m e = elim e.parent [
  | none ↦ true
  | some p ↦ not (is_truthy p) || not (is_some (get p m))
]

unfoldable pub root_keys : EntryMap → EntryMap → List Text
root_keys all [] = []
root_keys all ((key, e) ∷ m) = if stands_alone all e then key ∷ root_keys all m else root_keys all m

unfoldable pub build_merge_tree : List (List Span) → Option Trees
build_merge_tree traces =
    let m = merge_traces traces [] in
    elim (build_nodes m (suc (length m)) (root_keys m m) []) [
      | none ↦ none
      | some built ↦ some (sort_trees built.0)
    ]
