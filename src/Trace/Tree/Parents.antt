-- ===== src/Trace/Tree/Parents.antt =====
-- `buildSpanTree` hangs each span under its parent (frontend/src/pages/log/TraceDetail.tsx).
use mrboard.Shared.{
  ◌≡◌, ◌∙◌, refl, ap, Bool, false, not, ◌&&◌, ◌||◌, Option, none, some, List, [], ◌∷◌, arith,
  if◌then◌else◌, ◌==◌, Text, text_eq, text_beq_iff, is_truthy, is_some,
}
use mrboard.Shared.Assoc.{get, put, keys, get-put, includes-keys, put-IsDistinct}
use mrboard.Shared.Members.{includes}
use mrboard.Shared.Distinct.{IsDistinct}
use mrboard.Shared.Sort.{includes-sort_by}
use mrboard.Trace.Span.{Span}
use mrboard.Trace.Tree.{
  SpanNode, Store, Forest, add_nodes, children_of, has_parent, link_all, by_start, build_span_tree,
}
use mrboard.Trace.Tree.Link.{
  has, hangs, stands, has-link_all, children-link_all, roots-link_all, children-sort_entries,
  keys-sort_entries,
}

-- The span that the map holds for an id: the last one of the list.
abbrev pub last_span : Text → List Span → Option Span
last_span id [] = none
last_span id (s ∷ ss) = elim (last_span id ss) [
  | some t ↦ some t
  | none ↦ if s.span_id == id then some s else none
]

-- The span of `c` names `p` as its parent, and `p` is the id of a span.
abbrev pub is_child : List Span → Text → Text → Bool
is_child spans p c = elim (last_span c spans) [
  | some s ↦
      (is_truthy s.parent_span_id && is_some (last_span s.parent_span_id spans))
      && s.parent_span_id == p
  | none ↦ false
]

-- `c` is the id of a span that names no parent, or one that is no span of the trace.
abbrev pub is_root : List Span → Text → Bool
is_root spans c = elim (last_span c spans) [
  | some s ↦ not (is_truthy s.parent_span_id && is_some (last_span s.parent_span_id spans))
  | none ↦ false
]

abbrev pub fresh_node : Span → SpanNode
fresh_node s = record { span = s; children = []; depth = 0 }

get-add_nodes :
    (id : Text) (ss : List Span) (m : Store)
    → get id (add_nodes ss m)
      ≡ elim (last_span id ss) [ some s ↦ some (fresh_node s) | none ↦ get id m ]
unfolding add_nodes
get-add_nodes id [] m = refl
get-add_nodes id (s ∷ ss) m = ground (
  arith,
  get-add_nodes id ss (put s.span_id (fresh_node s) m),
  get-put s.span_id id (fresh_node s) m,
)

add_nodes-IsDistinct :
    (ss : List Span) (m : Store) → IsDistinct (keys m) → IsDistinct (keys (add_nodes ss m))
unfolding add_nodes
add_nodes-IsDistinct [] m d = d
add_nodes-IsDistinct (s ∷ ss) m d =
    add_nodes-IsDistinct ss (put s.span_id (fresh_node s) m)
      (put-IsDistinct s.span_id (fresh_node s) m d)

abbrev pub initial : List Span → Store
initial spans = add_nodes spans []

pub get-initial :
    (spans : List Span) (id : Text)
    → get id (initial spans)
      ≡ elim (last_span id spans) [ some s ↦ some (fresh_node s) | none ↦ none ]
unfolding get
get-initial spans id = get-add_nodes id spans []

pub has-initial :
    (spans : List Span) (id : Text) → has id (initial spans) ≡ is_some (last_span id spans)
has-initial spans id = ground (arith, get-initial spans id)

children_of-initial : (spans : List Span) (id : Text) → children_of id (initial spans) ≡ []
children_of-initial spans id = ground (arith, get-initial spans id)

-- What an entry of the store says of its id.
abbrev pub hangs_at : Store → Text → Option SpanNode → Bool
hangs_at s q none = false
hangs_at s q (some n) = has_parent n.span.parent_span_id s && n.span.parent_span_id == q

abbrev pub stands_at : Store → Option SpanNode → Bool
stands_at s none = false
stands_at s (some n) = not (has_parent n.span.parent_span_id s)

hangs_lem :
    (s m : Store) (q c : Text) → IsDistinct (keys m) → hangs s m q c ≡ hangs_at s q (get c m)
unfolding get
hangs_lem s [] q c d = refl
hangs_lem s ((i, n) ∷ m) q c (new, d) =
    ground (arith, hangs_lem s m q c d, includes-keys i m, text_beq_iff i c)

stands_lem : (s m : Store) (c : Text) → IsDistinct (keys m) → stands s m c ≡ stands_at s (get c m)
unfolding get
stands_lem s [] c d = refl
stands_lem s ((i, n) ∷ m) c (new, d) =
    ground (arith, stands_lem s m c d, includes-keys i m, text_beq_iff i c)

pub hangs_at-initial :
    (spans : List Span) (q c : Text)
    → hangs_at (initial spans) q (get c (initial spans)) ≡ is_child spans q c
hangs_at-initial spans q c = rw (get-initial spans c) (elim_last (last_span c spans))
  where
    elim_last :
        (o : Option Span)
        → hangs_at (initial spans) q (elim o [ some s ↦ some (fresh_node s) | none ↦ none ])
          ≡ elim o [
            | some s ↦
                (is_truthy s.parent_span_id && is_some (last_span s.parent_span_id spans))
                && s.parent_span_id == q
            | none ↦ false
          ]
    elim_last none = refl
    elim_last (some s) = rw (has-initial spans s.parent_span_id)

pub stands_at-initial :
    (spans : List Span) (c : Text)
    → stands_at (initial spans) (get c (initial spans)) ≡ is_root spans c
stands_at-initial spans c = rw (get-initial spans c) (elim_last (last_span c spans))
  where
    elim_last :
        (o : Option Span)
        → stands_at (initial spans) (elim o [ some s ↦ some (fresh_node s) | none ↦ none ])
          ≡ elim o [
            | some s ↦
                not (is_truthy s.parent_span_id && is_some (last_span s.parent_span_id spans))
            | none ↦ false
          ]
    elim_last none = refl
    elim_last (some s) = rw (has-initial spans s.parent_span_id)

pub initial-IsDistinct : (spans : List Span) → IsDistinct (keys (initial spans))
initial-IsDistinct spans = add_nodes-IsDistinct spans [] tt

abbrev pub start_forest : List Span → Forest
start_forest spans = record { store = initial spans; roots = [] }

-- In the tree built from a list of spans a span is a child of exactly the span that its
-- parentSpanID names, if that is the id of a span, and otherwise it is a root; where several spans
-- have one id, the last of them counts.
pub build_span_tree_lem :
    (spans : List Span) (p c : Text)
    → (includes (children_of p (build_span_tree spans).store) c ≡ is_child spans p c)
      × (includes (build_span_tree spans).roots c ≡ is_root spans c)
unfolding build_span_tree includes
build_span_tree_lem spans p c =
    let f = link_all (initial spans) (start_forest spans) in
    (
      children-sort_entries f.store f.store p c
          ∙ children-link_all (initial spans) (start_forest spans) p c
          ∙ ap (λ (cs : List Text). includes cs c || hangs (initial spans) (initial spans) p c)
              (children_of-initial spans p)
          ∙ hangs_lem (initial spans) (initial spans) p c (initial-IsDistinct spans)
          ∙ hangs_at-initial spans p c,
      includes-sort_by (by_start f.store) c f.roots
          ∙ roots-link_all (initial spans) (start_forest spans) c
          ∙ stands_lem (initial spans) (initial spans) c (initial-IsDistinct spans)
          ∙ stands_at-initial spans c,
    )

-- The ids of the tree's nodes are those of the spans.
pub includes-keys-build_span_tree :
    (spans : List Span) (c : Text)
    → includes (keys (build_span_tree spans).store) c ≡ is_some (last_span c spans)
unfolding build_span_tree
includes-keys-build_span_tree spans c =
    let f = link_all (initial spans) (start_forest spans) in
    ap (λ ks. includes ks c) (keys-sort_entries f.store f.store)
    ∙ includes-keys c f.store
    ∙ has-link_all (initial spans) (start_forest spans) c
    ∙ has-initial spans c
