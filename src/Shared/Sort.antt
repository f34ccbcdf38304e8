-- ===== src/Shared/Sort.antt =====
-- Array.prototype.sort with a comparator: a stable sort. `le a b` says that a may stand before b.
use Prim.Native.Nat.{◌+◌}
use mathlib.Core.Path.{◌≡◌, refl, ap, ◌∙◌}
use mathlib.Core.Logic.{inl, inr}
use mathlib.Core.Bool.{Bool, true, false, ◌||◌}
use mathlib.Core.List.{List, [], ◌∷◌}
use native.Mathlib.Omega.{arith}
use mrboard.Shared.Tests.{Equality, ◌==◌, if◌then◌else◌, Bool-cases}
use mrboard.Shared.Lists.{length, All}
use mrboard.Shared.Members.{includes}

module _ {ℓ} {A : Type ℓ} (le : A → A → Bool) where
  unfoldable pub insert_by : A → List A → List A
  insert_by a [] = a ∷ []
  insert_by a (x ∷ xs) = if le a x then a ∷ x ∷ xs else x ∷ insert_by a xs

  unfoldable pub sort_by : List A → List A
  unfolding insert_by
  sort_by [] = []
  sort_by (x ∷ xs) = insert_by x (sort_by xs)

  abbrev pub IsSortedBy : List A → Type 0
  IsSortedBy [] = Unit
  IsSortedBy (x ∷ xs) = All (λ y. le x y ≡ true) xs × IsSortedBy xs

  length-insert_by : (a : A) (xs : List A) → length (insert_by a xs) ≡ length xs + 1
  unfolding insert_by
  length-insert_by a [] = omega arith
  length-insert_by a (x ∷ xs) = ground (arith, length-insert_by a xs)

  pub length-sort_by : (xs : List A) → length (sort_by xs) ≡ length xs
  unfolding sort_by
  length-sort_by [] = refl
  length-sort_by (x ∷ xs) = omega (arith, length-insert_by x (sort_by xs), length-sort_by xs)

  All-insert_by {κ} :
      (P : A → Type κ) (a : A) (xs : List A) → P a → All P xs → All P (insert_by a xs)
  unfolding insert_by
  All-insert_by P a [] h k = (h, k)
  All-insert_by P a (x ∷ xs) h (p, ps) = elim (Bool-cases (le a x)) [
    | inl e ↦ rw e (h, (p, ps))
    | inr e ↦ rw e (p, All-insert_by P a xs h ps)
  ]

  pub All-sort_by {κ} : (P : A → Type κ) (xs : List A) → All P xs → All P (sort_by xs)
  unfolding sort_by
  All-sort_by P [] h = tt
  All-sort_by P (x ∷ xs) (h, hs) = All-insert_by P x (sort_by xs) h (All-sort_by P xs hs)

  module _ (total : (a b : A) → le a b ≡ false → le b a ≡ true)
      (trans : (a b c : A) → le a b ≡ true → le b c ≡ true → le a c ≡ true) where
    All-le :
        (a x : A) (xs : List A)
        → le a x ≡ true
        → All (λ y. le x y ≡ true) xs
        → All (λ y. le a y ≡ true) xs
    All-le a x [] h k = tt
    All-le a x (y ∷ ys) h (k, ks) = (trans a x y h k, All-le a x ys h ks)

    insert_by-IsSortedBy : (a : A) (xs : List A) → IsSortedBy xs → IsSortedBy (insert_by a xs)
    unfolding insert_by
    insert_by-IsSortedBy a [] h = (tt, tt)
    insert_by-IsSortedBy a (x ∷ xs) (h, hs) = elim (Bool-cases (le a x)) [
      | inl e ↦ rw e ((e, All-le a x xs e h), (h, hs))
      | inr e ↦
          rw e
            (All-insert_by (λ y. le x y ≡ true) a xs (total a x e) h, insert_by-IsSortedBy a xs hs)
    ]

    pub sort_by-IsSortedBy : (xs : List A) → IsSortedBy (sort_by xs)
    unfolding sort_by
    sort_by-IsSortedBy [] = tt
    sort_by-IsSortedBy (x ∷ xs) = insert_by-IsSortedBy x (sort_by xs) (sort_by-IsSortedBy xs)

-- Two comparators that agree on the elements sort them alike.
module _ {ℓ κ} {A : Type ℓ} (le ge : A → A → Bool) (P : A → Type κ)
    (agree : (a b : A) → P a → P b → le a b ≡ ge a b) where
  insert_by_congr : (a : A) (xs : List A) → P a → All P xs → insert_by le a xs ≡ insert_by ge a xs
  unfolding insert_by
  insert_by_congr a [] h k = refl
  insert_by_congr a (x ∷ xs) h (p, ps) = elim (Bool-cases (ge a x)) [
    | inl e ↦ rw (agree a x h p, e) refl
    | inr e ↦ rw (agree a x h p, e) (ap (λ l. x ∷ l) (insert_by_congr a xs h ps))
  ]

  pub sort_by_congr : (xs : List A) → All P xs → sort_by le xs ≡ sort_by ge xs
  unfolding sort_by
  sort_by_congr [] h = refl
  sort_by_congr (x ∷ xs) (h, hs) =
      ap (insert_by le x) (sort_by_congr xs hs)
      ∙ insert_by_congr x (sort_by ge xs) h (All-sort_by ge P xs hs)

module _ {ℓ} {A : Type ℓ} ⦃e : Equality A⦄ (le : A → A → Bool) where
  includes-insert_by :
      (a b : A) (xs : List A) → includes (insert_by le a xs) b ≡ (a == b || includes xs b)
  unfolding insert_by includes
  includes-insert_by a b [] = refl
  includes-insert_by a b (x ∷ xs) = ground (arith, includes-insert_by a b xs)

  pub includes-sort_by : (b : A) (xs : List A) → includes (sort_by le xs) b ≡ includes xs b
  unfolding sort_by includes
  includes-sort_by b [] = refl
  includes-sort_by b (x ∷ xs) =
      ground (arith, includes-insert_by x b (sort_by le xs), includes-sort_by b xs)
