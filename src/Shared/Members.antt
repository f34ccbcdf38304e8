-- ===== src/Shared/Members.antt =====
-- `includes`, and a JavaScript Set as the list of its members in the order of insertion.
use mathlib.Core.Path.{◌≡◌, refl}
use mathlib.Core.Bool.{Bool, false, not, ◌||◌, ◌&&◌}
use mathlib.Core.List.{List, [], ◌∷◌, ◌++◌}
use native.Mathlib.Omega.{arith}
use mrboard.Shared.Tests.{Equality, ◌==◌, if◌then◌else◌}
use mrboard.Shared.Lists.{keep}

module _ {ℓ} {A : Type ℓ} ⦃e : Equality A⦄ where
  unfoldable pub includes : List A → A → Bool
  includes [] a = false
  includes (x ∷ xs) a = x == a || includes xs a

  -- `xs.filter(v => v !== a)`.
  abbrev pub without : A → List A → List A
  without a xs = keep (λ v. not (v == a)) xs

  -- The idiom `xs.includes(a) ? xs.filter(v => v !== a) : [...xs, a]`.
  unfoldable pub toggle : A → List A → List A
  toggle a xs = if includes xs a then without a xs else xs ++ a ∷ []

  -- Set.prototype.add.
  unfoldable pub add_member : A → List A → List A
  add_member a xs = if includes xs a then xs else xs ++ a ∷ []

  pub includes-append :
      (xs ys : List A) (a : A) → includes (xs ++ ys) a ≡ (includes xs a || includes ys a)
  unfolding includes
  includes-append [] ys a = refl
  includes-append (x ∷ xs) ys a = ground (arith, includes-append xs ys a)

  pub includes-without :
      (xs : List A) (a b : A) → includes (without a xs) b ≡ (not (a == b) && includes xs b)
  unfolding includes keep
  includes-without [] a b = ground arith
  includes-without (x ∷ xs) a b =
      ground (arith, includes-without xs a b, e.same_iff x a, e.same_iff x b, e.same_iff a b)

  -- A toggle flips the membership of its value and of no other.
  pub includes-toggle :
      (xs : List A) (a b : A)
      → includes (toggle a xs) b ≡ (if a == b then not (includes xs a) else includes xs b)
  unfolding toggle includes
  includes-toggle xs a b =
      ground (arith, includes-without xs a b, includes-append xs (a ∷ []) b, e.same_iff a b)

  pub includes-add_member :
      (xs : List A) (a b : A) → includes (add_member a xs) b ≡ (a == b || includes xs b)
  unfolding add_member includes
  includes-add_member xs a b = ground (arith, includes-append xs (a ∷ []) b, e.same_iff a b)
