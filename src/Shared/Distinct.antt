-- ===== src/Shared/Distinct.antt =====
-- Lists without repetition, and how many of them fit into another list.
use Prim.Native.Nat.{◌≤◌, ◌<◌}
use mathlib.Core.Path.{◌≡◌, refl}
use mathlib.Core.Bool.{true, false}
use mathlib.Core.List.{List, [], ◌∷◌, ◌++◌}
use native.Mathlib.Omega.{arith}
use mrboard.Shared.Tests.{Equality}
use mrboard.Shared.Lists.{length, keep}
use mrboard.Shared.Members.{includes, without, includes-without, includes-append}

module _ {ℓ} {A : Type ℓ} ⦃e : Equality A⦄ where
  abbrev pub IsDistinct : List A → Type 0
  IsDistinct [] = Unit
  IsDistinct (x ∷ xs) = (includes xs x ≡ false) × IsDistinct xs

  -- Every member of the first list is one of the second.
  abbrev pub IsWithin : List A → List A → Type ℓ
  IsWithin xs ys = (a : A) → includes xs a ≡ true → includes ys a ≡ true

  length-without-le : (a : A) (xs : List A) → length (without a xs) ≤ length xs
  unfolding keep
  length-without-le a [] = omega arith
  length-without-le a (x ∷ xs) = ground (arith, length-without-le a xs)

  length-without-lt :
      (a : A) (xs : List A) → includes xs a ≡ true → length (without a xs) < length xs
  unfolding keep includes
  length-without-lt a [] h = cc
  length-without-lt a (x ∷ xs) h = ground (arith, length-without-le a xs, length-without-lt a xs)

  -- The pigeonhole principle.
  pub length-le-of_IsWithin :
      (xs ys : List A) → IsDistinct xs → IsWithin xs ys → length xs ≤ length ys
  unfolding includes
  length-le-of_IsWithin [] ys d h = omega arith
  length-le-of_IsWithin (x ∷ xs) ys (new, d) h =
      let smaller = length-without-lt x ys (h x (ground (arith, e.same_iff x x))) in
      let rest =
        length-le-of_IsWithin xs (without x ys) d
          (λ a m. ground (arith, includes-without ys x a, h a, e.same_iff x a, new, m)) in
      omega arith

  pub IsDistinct-append_one :
      (xs : List A) (a : A) → IsDistinct xs → includes xs a ≡ false → IsDistinct (xs ++ a ∷ [])
  unfolding includes
  IsDistinct-append_one [] a d h = (refl, tt)
  IsDistinct-append_one (x ∷ xs) a (new, d) h = (
    ground (arith, includes-append xs (a ∷ []) x, e.same_iff x a, e.same_iff a x),
    IsDistinct-append_one xs a d (ground arith),
  )
