-- ===== src/Deploy/Page/Laws.antt =====
-- The pages of the list and the guards of its operations
-- (frontend/src/pages/deploy/DeployList.tsx).
use mrboard.Shared.{
  ◌≡◌, ◌≤◌, ◌∙◌, refl, sym, ap, ℕ, zero, suc, ◌+◌, ◌*◌, ◌++◌, some, List, [], ◌∷◌, length, take,
  drop, arith,
}
use mathlib.Core.Option
use mrboard.Shared.Numbers.{parse_int-decimal}
use mrboard.Deploy.Item.{DeployListItem}
use mrboard.Deploy.Page.{DeployPage, Request, page_of, handle_scale, replica_count, open_scale}

-- The pages 1 to n, one after the other.
abbrev pages {ℓ} : {A : Type ℓ} → ℕ → List A → List A
pages zero xs = []
pages (suc n) xs = pages n xs ++ page_of (suc n) xs

take_nil {ℓ} : {A : Type ℓ} (n : ℕ) → take {A = A} n [] ≡ []
take_nil zero = refl
take_nil (suc n) = refl

take-add {ℓ} :
    {A : Type ℓ} (m n : ℕ) (xs : List A) → take (m + n) xs ≡ take m xs ++ take n (drop m xs)
take-add zero n xs = ap (λ k. take k xs) (omega arith)
take-add (suc m) n [] = take_nil (suc m + n) ∙ sym (take_nil n)
take-add (suc m) n (x ∷ xs) =
    let e : suc m + n ≡ suc (m + n) = omega arith in
    ap (λ k. take k (x ∷ xs)) e ∙ ap (λ l. x ∷ l) (take-add m n xs)

take_all {ℓ} : {A : Type ℓ} (n : ℕ) (xs : List A) → length xs ≤ n → take n xs ≡ xs
take_all zero [] h = refl
take_all zero (x ∷ xs) h = absurd (omega (arith, h))
take_all (suc n) [] h = refl
take_all (suc n) (x ∷ xs) h = ap (λ l. x ∷ l) (take_all n xs (omega (arith, h)))

pages-take {ℓ} : {A : Type ℓ} (n : ℕ) (xs : List A) → pages n xs ≡ take (n * 20) xs
unfolding page_of
pages-take zero xs = refl
pages-take (suc n) xs =
    ap (λ l. l ++ page_of (suc n) xs) (pages-take n xs)
    ∙ (ap (λ k. take (n * 20) xs ++ take 20 (drop k xs)) (omega arith)
        ∙ (sym (take-add (n * 20) 20 xs) ∙ ap (λ k. take k xs) (omega arith)))

-- The pages of 20, read one after the other, show the whole list once and in its order, as soon as
-- there are pages enough for its length.
pages_lem {ℓ} : {A : Type ℓ} (n : ℕ) (xs : List A) → length xs ≤ n * 20 → pages n xs ≡ xs
pages_lem n xs h = pages-take n xs ∙ take_all (n * 20) xs h

-- A confirmed dialog of a row asks for the replicas that the row has: the number that is shown is
-- read back as itself.
pub open_scale-handle_scale :
    (d : DeployListItem) (s : DeployPage)
    → Option.map (λ (r : Request). r.pod_number) (handle_scale (open_scale d s)).1
      ≡ some (some d.replicas)
unfolding handle_scale open_scale replica_count
open_scale-handle_scale d s = rw (parse_int-decimal d.replicas, handle_scale, Option.map) refl
