-- ===== src/Trace/Tree/Rows.antt =====
-- The rows of the waterfall (frontend/src/pages/log/TraceDetail.tsx).
use mrboard.Shared.{
  ◌≡◌, ◌↔◌, ◌∙◌, refl, sym, true, false, ◌||◌, some, List, [], ◌∷◌, map, arith, Text, text_eq,
  text_beq_iff, is_some, Option-cases, inl, inr, length,
}
use mrboard.Shared.Assoc.{keys}
use mrboard.Shared.Members.{includes, includes-add_member, add_member}
use mrboard.Trace.Span.{Span}
use mrboard.Trace.Tree.{flatten_visible, build_span_tree, set_of, expand_all, collapse_all}
use mrboard.Trace.Tree.Parents.{
  last_span, is_child, is_root, build_span_tree_lem, includes-keys-build_span_tree,
}
use mrboard.Trace.Tree.Walk.{IsForest, walk_total, All-of_includes}
use mrboard.Trace.Tree.Visible.{
  Visible, root, child, under-Visible, visible_under, walk_sound, walk_complete,
}

one_child :
    (spans : List Span) (p q c : Text)
    → is_child spans p c ≡ true
    → is_child spans q c ≡ true
    → p ≡ q
one_child spans p q c h k = elim (Option-cases (last_span c spans)) [
  | inl e ↦ ground arith
  | inr (s, e) ↦ ground (arith, text_beq_iff s.parent_span_id p, text_beq_iff s.parent_span_id q)
]

not_both : (spans : List Span) (p c : Text) → is_child spans p c ≡ true → is_root spans c ≡ false
not_both spans p c h = ground arith

known_child :
    (spans : List Span) (p c : Text)
    → is_child spans p c ≡ true
    → is_some (last_span c spans) ≡ true
known_child spans p c h = ground arith

known_root :
    (spans : List Span) (c : Text) → is_root spans c ≡ true → is_some (last_span c spans) ≡ true
known_root spans c h = ground arith

build_span_tree-IsForest : (spans : List Span) → IsForest (build_span_tree spans)
build_span_tree-IsForest spans =
    let child_of = λ (p c : Text). (build_span_tree_lem spans p c).0 in
    let root_of = λ (c : Text). (build_span_tree_lem spans c c).1 in
    let known = includes-keys-build_span_tree spans in
    record {
      one_parent =
          λ p q c h k. one_child spans p q c (sym (child_of p c) ∙ h) (sym (child_of q c) ∙ k);
      free_root = λ p c h. root_of c ∙ not_both spans p c (sym (child_of p c) ∙ h);
      child_known = λ p c h. known c ∙ known_child spans p c (sym (child_of p c) ∙ h);
      root_known = λ c h. known c ∙ known_root spans c (sym (root_of c) ∙ h);
    }

-- Whatever the spans, cycles of parents included, and whatever is expanded, flattening the tree ends
-- within as many nested calls as there are span ids, and its rows are exactly the visible spans: the
-- roots, and the children of visible spans that are expanded.
pub flatten_visible_lem :
    (spans : List Span) (expanded : List Text)
    → (rows : List Text) × (flatten_visible
          (build_span_tree spans)
          expanded
          (length (keys (build_span_tree spans).store))
        ≡ some rows)
      × ((c : Text) → (includes rows c ≡ true) ↔ Visible spans expanded c)
unfolding flatten_visible
flatten_visible_lem spans expanded =
    let f = build_span_tree spans in
    let (rows, e) =
      walk_total f (build_span_tree-IsForest spans) expanded (length (keys f.store)) [] f.roots tt
        tt (All-of_includes _ f.roots (λ c h. h)) (omega arith) in
    (
      rows,
      e,
      λ c. (
        λ h.
            under-Visible spans expanded (λ a k. root (sym (build_span_tree_lem spans a a).1 ∙ k))
              (walk_sound f.store expanded _ f.roots rows c e h),
        λ v. walk_complete f.store expanded _ f.roots rows c e (visible_under spans expanded v),
      ),
    )

-- The span ids from which the parents lead to a root.
pub data Rooted (spans : List Span) : Text → Type 0 where
  at_root : {c : Text} → is_root spans c ≡ true → Rooted spans c
  under : {c : Text} (p : Text) → Rooted spans p → is_child spans p c ≡ true → Rooted spans c

includes-set_of :
    (xs acc : List Text) (a : Text) → (includes acc a || includes xs a) ≡ includes (set_of xs acc) a
unfolding set_of includes
includes-set_of [] acc a = ground arith
includes-set_of (x ∷ xs) acc a =
    ground (arith, includes-set_of xs (add_member x acc) a, includes-add_member acc x a)

includes-ids :
    (spans : List Span) (a : Text)
    → is_some (last_span a spans) ≡ includes (map (λ s. s.span_id) spans) a
unfolding includes
includes-ids [] a = refl
includes-ids (s ∷ spans) a = ground (arith, includes-ids spans a)

includes-expand_all :
    (spans : List Span) (a : Text) → includes (expand_all spans) a ≡ is_some (last_span a spans)
unfolding expand_all includes
includes-expand_all spans a =
    ground (arith, includes-set_of (map (λ s. s.span_id) spans) [] a, includes-ids spans a)

Rooted-known : (spans : List Span) {c : Text} → Rooted spans c → is_some (last_span c spans) ≡ true
Rooted-known spans {c} (at_root h) = known_root spans c h
Rooted-known spans {c} (under p r h) = known_child spans p c h

Rooted-Visible :
    (spans : List Span) {c : Text} → Rooted spans c → Visible spans (expand_all spans) c
Rooted-Visible spans (at_root h) = root h
Rooted-Visible spans (under p r h) =
    child p (Rooted-Visible spans r) (includes-expand_all spans p ∙ Rooted-known spans r) h

Visible-Rooted :
    (spans : List Span) {expanded : List Text} {c : Text}
    → Visible spans expanded c
    → Rooted spans c
Visible-Rooted spans (root h) = at_root h
Visible-Rooted spans (child p v e h) = under p (Visible-Rooted spans v) h

-- After "expand all" the rows are exactly the spans whose parents lead to a root; after "collapse
-- all" they are the roots.
flatten_visible-expand_all :
    (spans : List Span)
    → (all : List Text) × (few : List Text) × (flatten_visible
          (build_span_tree spans)
          (expand_all spans)
          (length (keys (build_span_tree spans).store))
        ≡ some all)
      × (flatten_visible
            (build_span_tree spans)
            collapse_all
            (length (keys (build_span_tree spans).store))
          ≡ some few)
      × ((c : Text) → (includes all c ≡ true) ↔ Rooted spans c)
      × ((c : Text) → (includes few c ≡ true) ↔ (is_root spans c ≡ true))
unfolding includes
flatten_visible-expand_all spans =
    let (all, e, h) = flatten_visible_lem spans (expand_all spans) in
    let (few, e', h') = flatten_visible_lem spans collapse_all in
    (
      all,
      few,
      e,
      e',
      λ c. (λ k. Visible-Rooted spans ((h c).0 k), λ r. (h c).1 (Rooted-Visible spans r)),
      λ c. (λ k. collapsed ((h' c).0 k), λ k. (h' c).1 (root k)),
    )
  where
    collapsed : {c : Text} → Visible spans [] c → is_root spans c ≡ true
    collapsed (root k) = k
    collapsed (child p v k b) = cc
