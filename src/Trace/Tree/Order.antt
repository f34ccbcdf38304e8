-- ===== src/Trace/Tree/Order.antt =====
-- Siblings stand in the order of their start times (frontend/src/pages/log/TraceDetail.tsx).
use mathlib.Core.Path.{fun_ext}
use mrboard.Shared.{◌≡◌, ◌∙◌, refl, ap, sym, subst, ℕ, List, [], ◌∷◌, arith, Text, text_eq, leb}
use mrboard.Shared.Assoc.{get}
use mrboard.Shared.Sort.{sort_by, sort_by-IsSortedBy, IsSortedBy}
use mrboard.Trace.Span.{Span}
use mrboard.Trace.Tree.{
  Store, children_of, start_of, by_start, sort_entries, link_all, build_span_tree,
}
use mrboard.Trace.Tree.Parents.{initial}

start_of-sort_entries : (s m : Store) (j : Text) → start_of j (sort_entries s m) ≡ start_of j m
unfolding get
start_of-sort_entries s [] j = refl
start_of-sort_entries s ((id, n) ∷ m) j = ground (arith, start_of-sort_entries s m j)

by_start-sort_entries : (s m : Store) → by_start (sort_entries s m) ≡ by_start m
by_start-sort_entries s m = fun_ext λ a. fun_ext λ b.
    ap (λ (x : ℕ). leb x (start_of b (sort_entries s m))) (start_of-sort_entries s m a)
    ∙ ap (leb (start_of a m)) (start_of-sort_entries s m b)

sorted_start : (m : Store) (xs : List Text) → IsSortedBy (by_start m) (sort_by (by_start m) xs)
sorted_start m xs =
    sort_by-IsSortedBy (by_start m) (λ a b h. ground arith) (λ a b c h k. ground arith) xs

children_of-sort_entries :
    (s m : Store) (p : Text)
    → children_of p (sort_entries s m) ≡ sort_by (by_start s) (children_of p m)
unfolding get sort_by
children_of-sort_entries s [] p = refl
children_of-sort_entries s ((id, n) ∷ m) p = ground (arith, children_of-sort_entries s m p)

children-sorted :
    (s m : Store) (p : Text) → IsSortedBy (by_start s) (children_of p (sort_entries s m))
children-sorted s m p =
    subst (IsSortedBy (by_start s)) (sym (children_of-sort_entries s m p))
      (sorted_start s (children_of p m))

-- The roots, and the children of every node, stand in the order of their start times.
build_span_tree-IsSortedBy :
    (spans : List Span) (p : Text)
    → IsSortedBy (by_start (build_span_tree spans).store) (build_span_tree spans).roots
      × IsSortedBy
          (by_start (build_span_tree spans).store)
          (children_of p (build_span_tree spans).store)
unfolding build_span_tree
build_span_tree-IsSortedBy spans p =
    let f = link_all (initial spans) (record { store = initial spans; roots = [] }) in
    let same = by_start-sort_entries f.store f.store in
    (
      subst (λ le. IsSortedBy le (sort_by (by_start f.store) f.roots)) (sym same)
          (sorted_start f.store f.roots),
      subst (λ le. IsSortedBy le (children_of p (sort_entries f.store f.store))) (sym same)
          (children-sorted f.store f.store p),
    )
