-- ===== src/Trace/Tree.antt =====
-- The span tree of frontend/src/pages/log/TraceDetail.tsx: `buildSpanTree`, `flattenVisible` and
-- the updates of the expanded set.
-- The nodes are objects that are changed while they are linked, so they live in a store: the Map
-- of the source, from the span id to its node. A reference to a node is its id.
pub mod Link
pub mod Parents
pub mod Walk
pub mod Visible
pub mod Rows
pub mod Order
pub mod Depth
pub mod Indent
use mrboard.Shared.{
  ℕ, zero, suc, ◌+◌, ◌++◌, Bool, true, false, not, ◌&&◌, Option, none, some, List, [], ◌∷◌, map,
  if◌then◌else◌, leb, ltb, Text, text_eq, is_truthy, is_some, length,
}
use mrboard.Shared.Assoc.{get, put, keys}
use mrboard.Shared.Members.{includes, add_member, toggle}
use mrboard.Shared.Sort.{sort_by}
use mrboard.Trace.Span.{Span}

-- `SpanNode`: a span with its children and its depth.
pub record SpanNode : Type 0 where
  pub span : Span
  pub children : List Text
  pub depth : ℕ

abbrev Store : Type 0
Store = List (Text × SpanNode)

pub record Forest : Type 0 where
  pub store : Store
  pub roots : List Text

-- `for (const s of spans) map.set(s.spanID, { ...s, children: [], depth: 0 })`.
unfoldable pub add_nodes : List Span → Store → Store
add_nodes [] m = m
add_nodes (s ∷ ss) m =
    add_nodes ss (put s.span_id (record { span = s; children = []; depth = 0 }) m)

-- `map.get(id)!` at an id of the map; the default is never read.
abbrev node_or : Option SpanNode → SpanNode → SpanNode
node_or none d = d
node_or (some n) d = n

abbrev pub depth_of : Text → Store → ℕ
depth_of id m = elim (get id m) [ some n ↦ n.depth | none ↦ 0 ]

abbrev pub children_of : Text → Store → List Text
children_of id m = elim (get id m) [ some n ↦ n.children | none ↦ [] ]

abbrev start_of : Text → Store → ℕ
start_of id m = elim (get id m) [ some n ↦ n.span.start_time | none ↦ 0 ]

-- An assignment to a field of the node of an id.
unfoldable pub modify : Text → (SpanNode → SpanNode) → Store → Store
modify id f [] = []
modify id f ((j, n) ∷ m) = if text_eq.same j id then (j, f n) ∷ m else (j, n) ∷ modify id f m

abbrev set_depth : ℕ → SpanNode → SpanNode
set_depth d n = record n { depth = d }

abbrev push_child : Text → SpanNode → SpanNode
push_child c n = record n { children = n.children ++ c ∷ [] }

-- `node.parentSpanID && map.has(node.parentSpanID)`.
abbrev has_parent : Text → Store → Bool
has_parent parent m = is_truthy parent && is_some (get parent m)

-- The body of the second loop, for the node of `id` with the given parentSpanID.
unfoldable pub link : Text → Text → Forest → Forest
link id parent f =
    if has_parent parent f.store
    then record f {
      store =
          modify parent (push_child id)
            (modify id (set_depth (depth_of parent f.store + 1)) f.store);
    }
    else record f { roots = f.roots ++ id ∷ [] }

-- `for (const node of map.values())`: linking changes neither the ids nor the spans.
unfoldable pub link_all : Store → Forest → Forest
link_all [] f = f
link_all ((id, n) ∷ m) f = link_all m (link id n.span.parent_span_id f)

abbrev by_start : Store → Text → Text → Bool
by_start m a b = leb (start_of a m) (start_of b m)

-- `for (const node of map.values()) node.children.sort(sort)`.
abbrev sort_children : Store → SpanNode → SpanNode
sort_children m n = record n { children = sort_by (by_start m) n.children }

abbrev sort_entries : Store → Store → Store
sort_entries m [] = []
sort_entries m ((id, n) ∷ rest) = (id, sort_children m n) ∷ sort_entries m rest

unfoldable pub build_span_tree : List Span → Forest
build_span_tree spans =
    let m = add_nodes spans [] in
    let f = link_all m (record { store = m; roots = [] }) in
    record { store = sort_entries f.store f.store; roots = sort_by (by_start f.store) f.roots }

abbrev append_result : Option (List Text) → Option (List Text) → Option (List Text)
append_result (some xs) (some ys) = some (xs ++ ys)
append_result _ _ = none

-- `walk`: the fuel bounds how deep the calls nest, and `none` means that it ran out.
unfoldable pub walk : Store → List Text → ℕ → List Text → Option (List Text)
walk m expanded fuel [] = some []
walk m expanded zero (id ∷ ids) = none
walk m expanded (suc fuel) (id ∷ ids) =
    let inner = walk m expanded fuel (children_of id m) in
    let rest = walk m expanded (suc fuel) ids in
    append_result (some (id ∷ []))
      (append_result (if includes expanded id then inner else some []) rest)

unfoldable pub flatten_visible : Forest → List Text → ℕ → Option (List Text)
flatten_visible f expanded fuel = walk f.store expanded fuel f.roots

-- `toggleExpand`, `expandAll` and `collapseAll`.
unfoldable toggle_expand : Text → List Text → List Text
toggle_expand id prev = toggle id prev

unfoldable pub set_of : List Text → List Text → List Text
set_of [] acc = acc
set_of (x ∷ xs) acc = set_of xs (add_member x acc)

unfoldable pub expand_all : List Span → List Text
expand_all spans = set_of (map (λ s. s.span_id) spans) []

abbrev collapse_all : List Text
collapse_all = []

-- The set expanded at first: the ids down to the fourth level.
unfoldable pub auto_expand : Store → ℕ → List Text → List Text → List Text
auto_expand m zero ids acc = acc
auto_expand m (suc levels) [] acc = acc
auto_expand m (suc levels) (id ∷ ids) acc =
    auto_expand m (suc levels) ids (auto_expand m levels (children_of id m) (add_member id acc))

unfoldable pub initial_expanded : List Span → List Text
initial_expanded spans = let f = build_span_tree spans in auto_expand f.store 4 f.roots []
