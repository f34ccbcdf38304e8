-- ===== src/Trace/Tree/Depth.antt =====
-- The depth of a row, its indentation (frontend/src/pages/log/TraceDetail.tsx).
use mrboard.Shared.{
  ◌≡◌, ◌∙◌, refl, ℕ, ◌+◌, true, false, ◌&&◌, Option, none, some, [], ◌∷◌, arith, if◌then◌else◌,
  ◌==◌, Text, text_eq, text_beq_iff, Bool-cases, inl, inr,
}
use mrboard.Shared.Assoc.{get, keys}
use mrboard.Shared.Members.{includes}
use mrboard.Shared.Distinct.{IsDistinct}
use mrboard.Trace.Tree.{
  SpanNode, Store, Forest, depth_of, modify, set_depth, push_child, has_parent, link, link_all,
}
use mrboard.Trace.Tree.Link.{has, has-link}
use mrboard.Trace.Tree.Parents.{hangs_at, stands_at}

depth_of-push : (p c j : Text) (m : Store) → depth_of j (modify p (push_child c) m) ≡ depth_of j m
unfolding get modify
depth_of-push p c j [] = refl
depth_of-push p c j ((i, n) ∷ m) = ground (arith, depth_of-push p c j m)

depth_of-set_depth :
    (id j : Text) (d : ℕ) (m : Store)
    → has id m ≡ true
    → depth_of j (modify id (set_depth d) m) ≡ (if id == j then d else depth_of j m)
unfolding get modify
depth_of-set_depth id j d [] h = cc
depth_of-set_depth id j d ((i, n) ∷ m) h =
    ground
      (arith, depth_of-set_depth id j d m, text_beq_iff i id, text_beq_iff i j, text_beq_iff id j)

pub depth-link :
    (id parent j : Text) (f : Forest)
    → has id f.store ≡ true
    → depth_of j (link id parent f).store ≡ (
        if has_parent parent f.store && id == j
        then depth_of parent f.store + 1
        else depth_of j f.store)
unfolding link
depth-link id parent j f h = ground (
  arith,
  depth_of-push parent id j (modify id (set_depth (depth_of parent f.store + 1)) f.store),
  depth_of-set_depth id j (depth_of parent f.store + 1) f.store,
)

-- A node that is not linked any more keeps its depth.
depth-link_all :
    (m : Store) (f : Forest) (j : Text)
    → ((i : Text) → includes (keys m) i ≡ true → has i f.store ≡ true)
    → includes (keys m) j ≡ false
    → depth_of j (link_all m f).store ≡ depth_of j f.store
unfolding link_all includes
depth-link_all [] f j known h = refl
depth-link_all ((id, n) ∷ m) f j known h =
    let f' = link id n.span.parent_span_id f in
    depth-link_all m f' j (λ i k. has-link id n.span.parent_span_id i f ∙ known i (ground arith))
      (ground arith)
    ∙ ground (
      arith,
      depth-link id n.span.parent_span_id j f (known id (ground (arith, text_beq_iff id id))),
      h,
    )

-- The parent of each entry, if it is in the store at all, does not come after the entry or on it.
abbrev pub ParentsFirst : Store → Type 0
ParentsFirst [] = Unit
ParentsFirst ((id, n) ∷ m) =
    (includes (keys ((id, n) ∷ m)) n.span.parent_span_id ≡ false) × ParentsFirst m

hangs_at_same :
    (s t : Store) (p : Text) (o : Option SpanNode)
    → ((j : Text) → has j s ≡ has j t)
    → hangs_at s p o ≡ hangs_at t p o
hangs_at_same s t p none h = refl
hangs_at_same s t p (some n) h = ground (arith, h n.span.parent_span_id)

stands_at_same :
    (s t : Store) (o : Option SpanNode)
    → ((j : Text) → has j s ≡ has j t)
    → stands_at s o ≡ stands_at t o
stands_at_same s t none h = refl
stands_at_same s t (some n) h = ground (arith, h n.span.parent_span_id)

pub depth-ParentsFirst :
    (m : Store) (f : Forest) (p c : Text)
    → IsDistinct (keys m)
    → ParentsFirst m
    → ((i : Text) → includes (keys m) i ≡ true → has i f.store ≡ true)
    → hangs_at f.store p (get c m) ≡ true
    → depth_of c (link_all m f).store ≡ depth_of p (link_all m f).store + 1
unfolding link_all get includes
depth-ParentsFirst [] f p c d first known h = cc
depth-ParentsFirst ((id, n) ∷ m) f p c (new, d) (before, first) known h =
    let q = n.span.parent_span_id in
    let f' = link id q f in
    let known' =
      λ (i : Text) (k : includes (keys m) i ≡ true). has-link id q i f ∙ known i (ground arith) in
    elim (Bool-cases (id == c)) [
      | inl here ↦ ground (
        arith,
        h,
        depth-link_all m f' id known' new,
        depth-link_all m f' q known' (ground arith),
        depth-link id q id f (known id (ground (arith, text_beq_iff id id))),
        depth-link id q q f (known id (ground (arith, text_beq_iff id id))),
        text_beq_iff q p,
        text_beq_iff id c,
        text_beq_iff id id,
      )
      | inr away ↦
          depth-ParentsFirst m f' p c d first known'
            (hangs_at_same f'.store f.store p (get c m) (λ j. has-link id q j f) ∙ ground arith)
    ]

-- A root keeps the depth that it starts with.
pub depth_root :
    (m : Store) (f : Forest) (c : Text)
    → IsDistinct (keys m)
    → ((i : Text) → includes (keys m) i ≡ true → has i f.store ≡ true)
    → stands_at f.store (get c m) ≡ true
    → depth_of c (link_all m f).store ≡ depth_of c f.store
unfolding link_all get includes
depth_root [] f c d known h = refl
depth_root ((id, n) ∷ m) f c (new, d) known h =
    let q = n.span.parent_span_id in
    let f' = link id q f in
    let known' =
      λ (i : Text) (k : includes (keys m) i ≡ true). has-link id q i f ∙ known i (ground arith) in
    let step = depth-link id q c f (known id (ground (arith, text_beq_iff id id))) in
    elim (Bool-cases (id == c)) [
      | inl here ↦ ground (arith, h, depth-link_all m f' id known' new, step, text_beq_iff id c)
      | inr away ↦
          depth_root m f' c d known'
            (stands_at_same f'.store f.store (get c m) (λ j. has-link id q j f) ∙ ground arith)
          ∙ ground (arith, step)
    ]
