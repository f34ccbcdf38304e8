-- ===== src/Trace/Tree/Link.antt =====
-- Which children and roots the linking loop of `buildSpanTree` yields
-- (frontend/src/pages/log/TraceDetail.tsx).
use mrboard.Shared.{
  ◌≡◌, ◌∙◌, refl, ap, ℕ, ◌+◌, Bool, true, false, not, ◌&&◌, ◌||◌, [], ◌∷◌, arith, ◌==◌, Text,
  text_eq, text_beq_iff, is_some, Bool-cases, inl, inr,
}
use mrboard.Shared.Assoc.{get, keys}
use mrboard.Shared.Members.{includes, includes-append}
use mrboard.Shared.Sort.{includes-sort_by}
use mrboard.Trace.Tree.{
  SpanNode, Store, Forest, children_of, depth_of, modify, set_depth, push_child, has_parent, link,
  link_all, by_start, sort_entries,
}

-- What linking never changes: which ids there are.
abbrev pub has : Text → Store → Bool
has p m = is_some (get p m)

module _ (id j : Text) (f : SpanNode → SpanNode) where
  has-modify : (m : Store) → has j (modify id f m) ≡ has j m
  unfolding get modify
  has-modify [] = refl
  has-modify ((i, n) ∷ m) = ground (arith, has-modify m)

children_of-push :
    (p id q c : Text) (m : Store)
    → has p m ≡ true
    → includes (children_of q (modify p (push_child id) m)) c
      ≡ (includes (children_of q m) c || (id == c && p == q))
unfolding get modify includes
children_of-push p id q c [] h = cc
children_of-push p id q c ((i, n) ∷ m) h = ground (
  arith,
  children_of-push p id q c m,
  includes-append n.children (id ∷ []) c,
  text_beq_iff i p,
  text_beq_iff i q,
  text_beq_iff p q,
)

children_of-set_depth :
    (id q : Text) (d : ℕ) (m : Store) → children_of q (modify id (set_depth d) m) ≡ children_of q m
unfolding get modify
children_of-set_depth id q d [] = refl
children_of-set_depth id q d ((i, n) ∷ m) = ground (arith, children_of-set_depth id q d m)

pub has-link : (id parent j : Text) (f : Forest) → has j (link id parent f).store ≡ has j f.store
unfolding link
has-link id parent j f = ground (
  arith,
  has-modify id j (set_depth (depth_of parent f.store + 1)) f.store,
  has-modify parent j (push_child id) (modify id (set_depth (depth_of parent f.store + 1)) f.store),
)

children-link :
    (id parent q c : Text) (f : Forest)
    → includes (children_of q (link id parent f).store) c ≡ (
        includes (children_of q f.store) c
        || (id == c && (has_parent parent f.store && parent == q)))
unfolding link
children-link id parent q c f =
    let m' = modify id (set_depth (depth_of parent f.store + 1)) f.store in
    elim (Bool-cases (has_parent parent f.store)) [
      | inl e ↦ ground (
        arith,
        e,
        children_of-push parent id q c m',
        has-modify id parent (set_depth (depth_of parent f.store + 1)) f.store,
        children_of-set_depth id q (depth_of parent f.store + 1) f.store,
      )
      | inr e ↦ ground (arith, e)
    ]

roots-link :
    (id parent c : Text) (f : Forest)
    → includes (link id parent f).roots c
      ≡ (includes f.roots c || (id == c && not (has_parent parent f.store)))
unfolding link includes
roots-link id parent c f = ground (arith, includes-append f.roots (id ∷ []) c)

-- Among the entries of `m`: one with id `c` whose parent is `q`, an id of the store `s`.
abbrev pub hangs : Store → Store → Text → Text → Bool
hangs s [] q c = false
hangs s ((id, n) ∷ m) q c =
    (id == c && (has_parent n.span.parent_span_id s && n.span.parent_span_id == q)) || hangs s m q c

-- Among the entries of `m`: one with id `c` whose parent is no id of the store `s`.
abbrev pub stands : Store → Store → Text → Bool
stands s [] c = false
stands s ((id, n) ∷ m) c = (id == c && not (has_parent n.span.parent_span_id s)) || stands s m c

-- Two stores with the same ids.
abbrev SameIds : Store → Store → Type 0
SameIds s t = (j : Text) → has j s ≡ has j t

hangs_same : (s t : Store) → SameIds s t → (m : Store) (q c : Text) → hangs s m q c ≡ hangs t m q c
hangs_same s t h [] q c = refl
hangs_same s t h ((id, n) ∷ m) q c = ground (arith, h n.span.parent_span_id, hangs_same s t h m q c)

stands_same : (s t : Store) → SameIds s t → (m : Store) (c : Text) → stands s m c ≡ stands t m c
stands_same s t h [] c = refl
stands_same s t h ((id, n) ∷ m) c = ground (arith, h n.span.parent_span_id, stands_same s t h m c)

pub has-link_all : (m : Store) (f : Forest) → SameIds (link_all m f).store f.store
unfolding link_all
has-link_all [] f j = refl
has-link_all ((id, n) ∷ m) f j =
    has-link_all m (link id n.span.parent_span_id f) j ∙ has-link id n.span.parent_span_id j f

pub children-link_all :
    (m : Store) (f : Forest) (q c : Text)
    → includes (children_of q (link_all m f).store) c
      ≡ (includes (children_of q f.store) c || hangs f.store m q c)
unfolding link_all
children-link_all [] f q c = ground arith
children-link_all ((id, n) ∷ m) f q c = ground (
  arith,
  children-link_all m (link id n.span.parent_span_id f) q c,
  children-link id n.span.parent_span_id q c f,
  hangs_same (link id n.span.parent_span_id f).store f.store
      (λ j. has-link id n.span.parent_span_id j f) m q c,
)

pub roots-link_all :
    (m : Store) (f : Forest) (c : Text)
    → includes (link_all m f).roots c ≡ (includes f.roots c || stands f.store m c)
unfolding link_all
roots-link_all [] f c = ground arith
roots-link_all ((id, n) ∷ m) f c = ground (
  arith,
  roots-link_all m (link id n.span.parent_span_id f) c,
  roots-link id n.span.parent_span_id c f,
  stands_same (link id n.span.parent_span_id f).store f.store
      (λ j. has-link id n.span.parent_span_id j f) m c,
)

-- Sorting the children changes no membership.
pub children-sort_entries :
    (s m : Store) (q c : Text)
    → includes (children_of q (sort_entries s m)) c ≡ includes (children_of q m) c
unfolding get includes
children-sort_entries s [] q c = refl
children-sort_entries s ((id, n) ∷ m) q c =
    ground (arith, children-sort_entries s m q c, includes-sort_by (by_start s) c n.children)

pub keys-sort_entries : (s m : Store) → keys (sort_entries s m) ≡ keys m
keys-sort_entries s [] = refl
keys-sort_entries s ((id, n) ∷ m) = ap (◌∷◌ id) (keys-sort_entries s m)
