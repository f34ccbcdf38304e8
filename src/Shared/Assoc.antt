-- ===== src/Shared/Assoc.antt =====
-- JavaScript objects and Maps as lists of entries in the order of insertion.
use mathlib.Core.Path.{◌≡◌, refl}
use mathlib.Core.Option.{Option, none, some}
use mathlib.Core.List.{List, [], ◌∷◌, ◌++◌}
use native.Mathlib.Omega.{arith}
use mrboard.Shared.Tests.{Equality, ◌==◌, if◌then◌else◌, is_some, Bool-cases}
use mrboard.Shared.Members.{includes}
use mrboard.Shared.Distinct.{IsDistinct}
use mathlib.Core.Logic.{inl, inr}

module _ {ℓ κ} {K : Type ℓ} {V : Type κ} where
  abbrev pub keys : List (K × V) → List K
  keys [] = []
  keys ((k, v) ∷ m) = k ∷ keys m

module _ {ℓ κ} {K : Type ℓ} ⦃e : Equality K⦄ {V : Type κ} where
  -- `m[k]`, `m.get(k)`.
  unfoldable pub get : K → List (K × V) → Option V
  get k [] = none
  get k ((j, v) ∷ m) = if j == k then some v else get k m

  -- `m[k] = v`, `m.set(k, v)`: in place, or at the end if the key is new.
  unfoldable pub put : K → V → List (K × V) → List (K × V)
  put k v [] = (k, v) ∷ []
  put k v ((j, w) ∷ m) = if j == k then (j, v) ∷ m else (j, w) ∷ put k v m

  -- `const { [k]: _, ...rest } = m`.
  unfoldable pub remove : K → List (K × V) → List (K × V)
  remove k [] = []
  remove k ((j, w) ∷ m) = if j == k then remove k m else (j, w) ∷ remove k m

  pub get-put :
      (k j : K) (v : V) (m : List (K × V))
      → get j (put k v m) ≡ (if k == j then some v else get j m)
  unfolding get put
  get-put k j v [] = refl
  get-put k j v ((i, w) ∷ m) =
      ground (arith, e.same_iff k j, e.same_iff i k, e.same_iff i j, get-put k j v m)

  pub get-remove :
      (k j : K) (m : List (K × V)) → get j (remove k m) ≡ (if k == j then none else get j m)
  unfolding get remove
  get-remove k j [] = ground arith
  get-remove k j ((i, w) ∷ m) =
      ground (arith, e.same_iff k j, e.same_iff i k, e.same_iff i j, get-remove k j m)

  pub includes-keys : (k : K) (m : List (K × V)) → includes (keys m) k ≡ is_some (get k m)
  unfolding get includes
  includes-keys k [] = refl
  includes-keys k ((i, w) ∷ m) = ground (arith, includes-keys k m)

  pub put_new : (k : K) (v : V) (m : List (K × V)) → get k m ≡ none → put k v m ≡ m ++ (k, v) ∷ []
  unfolding get put
  put_new k v [] h = refl
  put_new k v ((i, w) ∷ m) h = ground (arith, put_new k v m)

  pub put-IsDistinct :
      (k : K) (v : V) (m : List (K × V)) → IsDistinct (keys m) → IsDistinct (keys (put k v m))
  unfolding put includes
  put-IsDistinct k v [] d = (refl, tt)
  put-IsDistinct k v ((i, w) ∷ m) (new, d) = elim (Bool-cases (i == k)) [
    | inl same ↦ rw same (new, d)
    | inr other ↦ rw other (
      ground (
        arith,
        includes-keys i (put k v m),
        includes-keys i m,
        get-put k i v m,
        e.same_iff i k,
        e.same_iff k i,
      ),
      put-IsDistinct k v m d,
    )
  ]
