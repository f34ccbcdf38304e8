-- ===== src/Trace/Tree/Indent.antt =====
-- The indentation of the rows, where parents are listed first and where they are not
-- (frontend/src/pages/log/TraceDetail.tsx).
use mrboard.Shared.{
  ◌≡◌, ◌∙◌, refl, ap, sym, subst, ℕ, ◌+◌, ◌++◌, true, false, none, List, [], ◌∷◌, map, arith, Text,
  text_eq, text_beq_iff, is_truthy, append_assoc, append-nil,
}
use mrboard.Shared.Assoc.{get, put, keys, includes-keys, get-put, put_new}
use mrboard.Shared.Members.{includes}
use mrboard.Shared.Distinct.{IsDistinct}
use mrboard.Trace.Span.{Span}
use mrboard.Trace.Tree.{
  Store, Forest, add_nodes, depth_of, has_parent, link, link_all, sort_entries, build_span_tree,
}
use mrboard.Trace.Tree.Link.{has, has-link}
use mrboard.Trace.Tree.Parents.{
  is_child, is_root, initial, has-initial, hangs_at-initial, stands_at-initial, initial-IsDistinct,
  fresh_node, start_forest, get-initial,
}
use mrboard.Trace.Tree.Depth.{ParentsFirst, depth-link, depth-ParentsFirst, depth_root}

abbrev ids : List Span → List Text
ids = map (λ s. s.span_id)

-- The id that a span names as its parent is not its own, and not that of a later span.
abbrev ParentsBefore : List Span → Type 0
ParentsBefore [] = Unit
ParentsBefore (s ∷ ss) = (includes (ids (s ∷ ss)) s.parent_span_id ≡ false) × ParentsBefore ss

abbrev entries : List Span → Store
entries [] = []
entries (s ∷ ss) = (s.span_id, fresh_node s) ∷ entries ss

keys-entries : (ss : List Span) → keys (entries ss) ≡ ids ss
keys-entries [] = refl
keys-entries (s ∷ ss) = ap (◌∷◌ s.span_id) (keys-entries ss)

add_nodes_distinct :
    (ss : List Span) (m : Store)
    → IsDistinct (ids ss)
    → ((i : Text) → includes (ids ss) i ≡ true → get i m ≡ none)
    → add_nodes ss m ≡ m ++ entries ss
unfolding add_nodes includes
add_nodes_distinct [] m d new = sym (append-nil m)
add_nodes_distinct (s ∷ ss) m (fresh, d) new =
    let e =
      put_new s.span_id (fresh_node s) m
        (new s.span_id (ground (arith, text_beq_iff s.span_id s.span_id))) in
    add_nodes_distinct ss (put s.span_id (fresh_node s) m) d (λ i k.
      ground
        (arith, get-put s.span_id i (fresh_node s) m, text_beq_iff s.span_id i, new i, fresh, k))
    ∙ ap (λ (t : Store). t ++ entries ss) e
    ∙ append_assoc m ((s.span_id, fresh_node s) ∷ []) (entries ss)

initial_distinct : (ss : List Span) → IsDistinct (ids ss) → initial ss ≡ entries ss
unfolding get
initial_distinct ss d = add_nodes_distinct ss [] d (λ i k. refl)

ParentsFirst-entries : (ss : List Span) → ParentsBefore ss → ParentsFirst (entries ss)
ParentsFirst-entries [] h = tt
ParentsFirst-entries (s ∷ ss) (before, h) = (
  subst (λ ks. includes (s.span_id ∷ ks) s.parent_span_id ≡ false) (sym (keys-entries ss)) before,
  ParentsFirst-entries ss h,
)

depth_of-sort_entries : (s m : Store) (j : Text) → depth_of j (sort_entries s m) ≡ depth_of j m
unfolding get
depth_of-sort_entries s [] j = refl
depth_of-sort_entries s ((id, n) ∷ m) j = ground (arith, depth_of-sort_entries s m j)

depth_of-initial : (spans : List Span) (c : Text) → depth_of c (initial spans) ≡ 0
depth_of-initial spans c = ground (arith, get-initial spans c)

module _ (spans : List Span) where
  abbrev linked : Forest
  linked = link_all (initial spans) (start_forest spans)

  depth_of-tree : (c : Text) → depth_of c (build_span_tree spans).store ≡ depth_of c linked.store
  unfolding build_span_tree
  depth_of-tree c = depth_of-sort_entries linked.store linked.store c

  known : (i : Text) → includes (keys (initial spans)) i ≡ true → has i (initial spans) ≡ true
  known i k = sym (includes-keys i (initial spans)) ∙ k

-- A root of the tree has depth 0, in whatever order the spans are listed.
depth_of-root :
    (spans : List Span) (c : Text)
    → is_root spans c ≡ true
    → depth_of c (build_span_tree spans).store ≡ 0
depth_of-root spans c h =
    depth_of-tree spans c
    ∙ depth_root (initial spans) (start_forest spans) c (initial-IsDistinct spans) (known spans)
        (stands_at-initial spans c ∙ h)
    ∙ depth_of-initial spans c

-- Where span ids differ and parents are listed before their children, a child's depth is one more
-- than its parent's.
pub depth_of-child :
    (spans : List Span) (p c : Text)
    → IsDistinct (ids spans)
    → ParentsBefore spans
    → is_child spans p c ≡ true
    → depth_of c (build_span_tree spans).store ≡ depth_of p (build_span_tree spans).store + 1
depth_of-child spans p c d first h =
    depth_of-tree spans c
    ∙ depth-ParentsFirst (initial spans) (start_forest spans) p c (initial-IsDistinct spans)
        (subst ParentsFirst (sym (initial_distinct spans d)) (ParentsFirst-entries spans first))
        (known spans) (hangs_at-initial spans p c ∙ h)
    ∙ ap (λ (x : ℕ). x + 1) (sym (depth_of-tree spans p))

-- Three spans in a row of parents, listed from the innermost: the innermost span gets the depth of
-- its parent, not one more.
depth_of-innermost_first :
    (a b c : Span)
    → IsDistinct (ids (c ∷ b ∷ a ∷ []))
    → is_truthy a.span_id ≡ true
    → is_truthy b.span_id ≡ true
    → c.parent_span_id ≡ b.span_id
    → b.parent_span_id ≡ a.span_id
    → a.parent_span_id ≡ []
    → (depth_of c.span_id (build_span_tree (c ∷ b ∷ a ∷ [])).store ≡ 1)
      × (depth_of b.span_id (build_span_tree (c ∷ b ∷ a ∷ [])).store ≡ 1)
unfolding link_all includes
depth_of-innermost_first a b c d ta tb pc pb pa =
    let spans = c ∷ b ∷ a ∷ [] in
    let f0 = start_forest spans in
    let f1 = link c.span_id c.parent_span_id f0 in
    let f2 = link b.span_id b.parent_span_id f1 in
    let has0 = λ (i : Text). has-initial spans i in
    let has1 = λ (i : Text). has-link c.span_id c.parent_span_id i f0 in
    let has2 = λ (i : Text). has-link b.span_id b.parent_span_id i f1 in
    let final = λ (i : Text).
      depth_of-tree spans i
      ∙ ap (λ m. depth_of i (link_all m f0).store) (initial_distinct spans d) in
    let zero_at = depth_of-initial spans in
    let kc : has c.span_id f0.store ≡ true =
      ground (arith, has0 c.span_id, text_beq_iff c.span_id c.span_id) in
    let kb : has b.span_id f0.store ≡ true =
      ground (arith, has0 b.span_id, text_beq_iff b.span_id b.span_id) in
    let ka : has a.span_id f0.store ≡ true =
      ground (arith, has0 a.span_id, text_beq_iff a.span_id a.span_id) in
    let one = λ (i : Text). depth-link c.span_id c.parent_span_id i f0 kc in
    let two = λ (i : Text). depth-link b.span_id b.parent_span_id i f1 (has1 b.span_id ∙ kb) in
    let three = λ (i : Text).
      depth-link a.span_id a.parent_span_id i f2 (has2 a.span_id ∙ has1 a.span_id ∙ ka) in
    let no_parent : has_parent a.parent_span_id f2.store ≡ false = rw pa in
    (
      final c.span_id
          ∙ ground (
            arith,
            three c.span_id,
            two c.span_id,
            one c.span_id,
            zero_at b.span_id,
            text_beq_iff b.span_id c.span_id,
            text_beq_iff c.span_id c.span_id,
            kb,
            no_parent,
            d,
          ),
      final b.span_id
          ∙ ground (
            arith,
            three b.span_id,
            two b.span_id,
            one a.span_id,
            zero_at a.span_id,
            has1 a.span_id,
            text_beq_iff c.span_id a.span_id,
            text_beq_iff b.span_id b.span_id,
            ka,
            no_parent,
            d,
          ),
    )
