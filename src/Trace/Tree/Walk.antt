-- ===== src/Trace/Tree/Walk.antt =====
-- `flattenVisible` ends, and lists exactly the visible spans
-- (frontend/src/pages/log/TraceDetail.tsx).
use mrboard.Shared.{
  ◌≡◌, refl, ℕ, zero, suc, ◌+◌, ◌≤◌, ◌++◌, Bool, true, false, some, List, [], ◌∷◌, arith,
  if◌then◌else◌, ◌==◌, Text, text_eq, text_beq_iff, Bool-cases, inl, inr, All, length,
}
use mrboard.Shared.Assoc.{keys}
use mrboard.Shared.Members.{includes}
use mrboard.Shared.Distinct.{IsDistinct, IsWithin, length-le-of_IsWithin}
use mrboard.Trace.Tree.{Forest, children_of, walk}

pub All-of_includes {κ} :
    (P : Text → Type κ) (xs : List Text) → ((c : Text) → includes xs c ≡ true → P c) → All P xs
unfolding includes
All-of_includes P [] h = tt
All-of_includes P (x ∷ xs) h =
    (h x (ground (arith, text_beq_iff x x)), All-of_includes P xs (λ c m. h c (ground arith)))

module _ (f : Forest) where
  abbrev below : Text → Text → Bool
  below p c = includes (children_of p f.store) c

  -- The nodes of a tree: one parent at most, none for a root, and all in the store.
  pub record IsForest : Type 0 where
    pub one_parent : (p q c : Text) → below p c ≡ true → below q c ≡ true → p ≡ q
    pub free_root : (p c : Text) → below p c ≡ true → includes f.roots c ≡ false
    pub child_known : (p c : Text) → below p c ≡ true → includes (keys f.store) c ≡ true
    pub root_known : (c : Text) → includes f.roots c ≡ true → includes (keys f.store) c ≡ true

  -- The calls that are open: the innermost node first, down to a root.
  abbrev Next : List Text → Text → Type 0
  Next [] c = includes f.roots c ≡ true
  Next (p ∷ v) c = below p c ≡ true

  abbrev IsChain : List Text → Type 0
  IsChain [] = Unit
  IsChain (c ∷ v) = Next v c × IsChain v

  abbrev tail : List Text → List Text
  tail [] = []
  tail (c ∷ v) = v

  module _ (h : IsForest) where
    -- A child of `q` that stands on a chain has `q` below it on the chain.
    parent_on_chain :
        (w : List Text) (q c : Text)
        → IsChain w
        → below q c ≡ true
        → includes w c ≡ true
        → includes (tail w) q ≡ true
    unfolding includes
    parent_on_chain [] q c k b m = cc
    parent_on_chain (x ∷ []) q c k b m = ground (arith, h.free_root q c b, text_beq_iff x c)
    parent_on_chain (x ∷ y ∷ w) q c (n, k) b m = elim (Bool-cases (x == c)) [
      | inl here ↦
          let e = (text_beq_iff x c).0 here in
          ground (arith, h.one_parent y q c (rw (← e) n) b, text_beq_iff y q)
      | inr there ↦ ground (arith, parent_on_chain (y ∷ w) q c k b)
    ]

    chain_fresh :
        (v : List Text) (c : Text) → IsChain v → IsDistinct v → Next v c → includes v c ≡ false
    unfolding includes
    chain_fresh [] c k d n = refl
    chain_fresh (p ∷ v) c k d n = elim (Bool-cases (includes (p ∷ v) c)) [
      | inl on ↦ cc (parent_on_chain (p ∷ v) p c k n on, d.0)
      | inr off ↦ off
    ]

    Next-known : (v : List Text) (c : Text) → Next v c → includes (keys f.store) c ≡ true
    Next-known [] c n = h.root_known c n
    Next-known (p ∷ v) c n = h.child_known p c n

    chain-IsWithin : (v : List Text) → IsChain v → IsWithin v (keys f.store)
    unfolding includes
    chain-IsWithin [] k a m = cc
    chain-IsWithin (c ∷ v) (n, k) a m =
        ground (arith, Next-known v c n, chain-IsWithin v k a, text_beq_iff c a)

    pub walk_total :
        (expanded : List Text) (fuel : ℕ) (v ids : List Text)
        → IsChain v
        → IsDistinct v
        → All (Next v) ids
        → length (keys f.store) ≤ fuel + length v
        → (r : List Text) × (walk f.store expanded fuel ids ≡ some r)
    unfolding walk
    walk_total expanded zero v [] k d n l = ([], refl)
    walk_total expanded (suc fuel) v [] k d n l = ([], refl)
    walk_total expanded zero v (c ∷ ids) k d (n, ns) l =
        let fits =
          length-le-of_IsWithin (c ∷ v) (keys f.store) (chain_fresh v c k d n, d)
            (chain-IsWithin (c ∷ v) (n, k)) in
        absurd (omega arith)
    walk_total expanded (suc fuel) v (c ∷ ids) k d (n, ns) l =
        let (inner, e) =
          walk_total expanded fuel (c ∷ v) (children_of c f.store) (n, k) (chain_fresh v c k d n, d)
            (All-of_includes _ _ (λ a m. m)) (omega arith) in
        let (rest, e') = walk_total expanded (suc fuel) v ids k d ns l in
        ((c ∷ []) ++ ((if includes expanded c then inner else []) ++ rest), ground arith)
