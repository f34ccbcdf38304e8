-- ===== src/Tests/Traces.antt =====
-- The span tree at concrete traces (frontend/src/pages/log/TraceDetail.tsx).
use mrboard.Shared.{◌≡◌, ◌↔◌, refl, ℕ, ◌+◌, true, some, List, [], ◌∷◌, Text, text_eq, lit, length}
use mrboard.Shared.Assoc.{get, put, keys}
use mrboard.Shared.Members.{includes, add_member}
use mrboard.Shared.Sort.{sort_by}
use mrboard.Trace.Span.{Span}
use mrboard.Trace.Tree.{
  add_nodes, children_of, depth_of, modify, link, link_all, build_span_tree, walk, flatten_visible,
  expand_all, set_of, auto_expand, initial_expanded,
}
use mrboard.Trace.Tree.Parents.{is_child, is_root, build_span_tree_lem}
use mrboard.Trace.Tree.Visible.{Visible}
use mrboard.Trace.Tree.Rows.{flatten_visible_lem}
use mrboard.Trace.Tree.Indent.{depth_of-child}

abbrev span : Text → Text → ℕ → Span
span id parent start = record {
  span_id = id;
  trace_id = lit "t";
  parent_span_id = parent;
  operation_name = lit "op";
  service_name = lit "svc";
  start_time = start;
  duration = 5;
  status = lit "ok";
  tags = [];
}

abbrev a : Span
a = span (lit "a") [] 10

abbrev b : Span
b = span (lit "b") (lit "a") 30

abbrev c : Span
c = span (lit "c") (lit "b") 40

abbrev d : Span
d = span (lit "d") (lit "a") 20

abbrev spans : List Span
spans = a ∷ b ∷ c ∷ d ∷ []

abbrev x : Span
x = span (lit "x") (lit "y") 1

abbrev y : Span
y = span (lit "y") (lit "x") 2

tree : Unit {0}
unfolding build_span_tree add_nodes link_all link modify walk flatten_visible expand_all set_of
    add_member includes sort_by get put auto_expand initial_expanded
tree = tt

all_test :
    flatten_visible (build_span_tree spans) (expand_all spans) 4
    ≡ some (lit "a" ∷ lit "d" ∷ lit "b" ∷ lit "c" ∷ [])
unfolding tree
all_test = refl

one_test :
    flatten_visible (build_span_tree spans) (lit "a" ∷ []) 4
    ≡ some (lit "a" ∷ lit "d" ∷ lit "b" ∷ [])
unfolding tree
one_test = refl

-- Two spans that name each other are on no row.
cycle_test :
    flatten_visible (build_span_tree (x ∷ y ∷ a ∷ [])) (expand_all (x ∷ y ∷ a ∷ [])) 3
    ≡ some (lit "a" ∷ [])
unfolding tree
cycle_test = refl

initial_test : initial_expanded spans ≡ lit "a" ∷ lit "d" ∷ lit "b" ∷ lit "c" ∷ []
unfolding tree
initial_test = refl

build_span_tree_lem_example :
    (includes (children_of (lit "a") (build_span_tree spans).store) (lit "b")
      ≡ is_child spans (lit "a") (lit "b"))
    × (includes (build_span_tree spans).roots (lit "b") ≡ is_root spans (lit "b"))
build_span_tree_lem_example = build_span_tree_lem spans (lit "a") (lit "b")

flatten_visible_lem_example :
    (rows : List Text) × (flatten_visible
        (build_span_tree (x ∷ y ∷ a ∷ []))
        (lit "x" ∷ [])
        (length (keys (build_span_tree (x ∷ y ∷ a ∷ [])).store))
      ≡ some rows)
    × ((e : Text) → (includes rows e ≡ true) ↔ Visible (x ∷ y ∷ a ∷ []) (lit "x" ∷ []) e)
flatten_visible_lem_example = flatten_visible_lem (x ∷ y ∷ a ∷ []) (lit "x" ∷ [])

depth_of-child_example :
    depth_of (lit "c") (build_span_tree spans).store
    ≡ depth_of (lit "b") (build_span_tree spans).store + 1
unfolding includes
depth_of-child_example =
    depth_of-child spans (lit "b") (lit "c") (refl, (refl, (refl, (refl, tt))))
      (refl, (refl, (refl, (refl, tt)))) refl
