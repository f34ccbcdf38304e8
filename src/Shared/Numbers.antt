-- ===== src/Shared/Numbers.antt =====
-- Whole numbers as text: parseInt and String of JavaScript.
use Prim.Native.Nat.{ℕ, zero, suc, ◌+◌, ◌-◌, ◌*◌, ◌/◌, ◌%◌, ◌≤◌, ◌<◌}
use mathlib.Core.Path.{◌≡◌, sym, ap, ◌∙◌, subst}
use mathlib.Core.Logic.{◌≢◌, inl, inr}
use mathlib.Core.Bool.{Bool, false, ◌&&◌}
use mathlib.Core.Option.{Option, none, some}
use mathlib.Core.List.{[], ◌∷◌, ◌++◌}
use native.Mathlib.Omega.{arith}
use mrboard.Shared.Tests.{leb, ◌==◌, nat_eq, if◌then◌else◌, Bool-cases}
use mrboard.Shared.Lists.{All, All-append, List-cases}
use mrboard.Shared.Strings.{Text, is_space, trim_start}

-- What parseInt reads: a sign, and the digits that follow; none is NaN. Numbers are exact, where
-- JavaScript rounds them from 2^53 on.
pub data Number : Type 0 where
  positive negative : ℕ → Number

abbrev is_digit : ℕ → Bool
is_digit c = leb 48 c && leb c 57

unfoldable pub read_digits : ℕ → Text → ℕ
read_digits n [] = n
read_digits n (c ∷ s) =
    let more = read_digits (n * 10 + (c - 48)) s in if is_digit c then more else n

unfoldable pub read_number : (ℕ → Number) → Text → Option Number
read_number sign [] = none
read_number sign (c ∷ s) = if is_digit c then some (sign (read_digits 0 (c ∷ s))) else none

abbrev read_signed : Text → Option Number
read_signed [] = none
read_signed (c ∷ s) =
    if c == 45
    then read_number negative s
    else if c == 43
    then read_number positive s
    else read_number positive (c ∷ s)

-- `parseInt(s, 10)`.
unfoldable pub parse_int : Text → Option Number
parse_int s = read_signed (trim_start s)

-- `String(n)`; n + 1 steps are more than its digits.
unfoldable pub digits_of : ℕ → ℕ → Text
digits_of zero n = []
digits_of (suc fuel) n =
    let high = digits_of fuel (n / 10) in (if leb 10 n then high else []) ++ (48 + n % 10) ∷ []

unfoldable pub decimal : ℕ → Text
decimal n = digits_of (suc n) n

abbrev IsDigit : ℕ → Type 0
IsDigit c = (48 ≤ c) × (c ≤ 57)

read_digits-append :
    (n : ℕ) (s : Text) (c : ℕ)
    → All IsDigit s
    → IsDigit c
    → read_digits n (s ++ c ∷ []) ≡ read_digits n s * 10 + (c - 48)
unfolding read_digits
read_digits-append n [] c h k = ground (arith, k)
read_digits-append n (d ∷ s) c (h, hs) k =
    ground (arith, h, read_digits-append (n * 10 + (d - 48)) s c hs k)

small : (n : ℕ) → leb 10 n ≡ false → read_digits 0 ((48 + n % 10) ∷ []) ≡ n
unfolding read_digits
small n e = ground (arith, e)

append_one_nonempty : (s : Text) (c : ℕ) → s ++ c ∷ [] ≢ []
append_one_nonempty [] c = ground arith
append_one_nonempty (d ∷ s) c = ground arith

digits_of_lem :
    (fuel n : ℕ)
    → n < fuel
    → All IsDigit (digits_of fuel n) × (read_digits 0 (digits_of fuel n) ≡ n)
unfolding digits_of
digits_of_lem zero n h = absurd (omega (arith, h))
digits_of_lem (suc fuel) n h = elim (Bool-cases (leb 10 n)) [
  | inl e ↦
      let (ds, value) = digits_of_lem fuel (n / 10) (ground (arith, e, h)) in
      let last : IsDigit (48 + n % 10) = (omega arith, omega arith) in
      rw e (
        All-append IsDigit (digits_of fuel (n / 10)) ((48 + n % 10) ∷ []) ds (last, tt),
        read_digits-append 0 (digits_of fuel (n / 10)) (48 + n % 10) ds last ∙ omega (arith, value),
      )
  | inr e ↦ rw e (((omega arith, omega arith), tt), small n e)
]

read_signed_digit :
    (c : ℕ) (s : Text)
    → IsDigit c
    → read_signed (trim_start (c ∷ s)) ≡ some (positive (read_digits 0 (c ∷ s)))
unfolding trim_start is_space read_number
read_signed_digit c s (h, k) = ground (arith, h, k)

pub parse_int-decimal : (n : ℕ) → parse_int (decimal n) ≡ some (positive n)
unfolding parse_int decimal digits_of
parse_int-decimal n =
    let (ds, value) = digits_of_lem (suc n) n (omega arith) in
    elim (List-cases (digits_of (suc n) n)) [
      | inl e ↦
          absurd
            (append_one_nonempty (if leb 10 n then digits_of n (n / 10) else []) (48 + n % 10) e)
      | inr (c, rest, e) ↦ rw e (
          read_signed_digit c rest (subst (All IsDigit) e ds).0
          ∙ ap (λ k. some (positive k)) (ap (read_digits 0) (sym e) ∙ value))
    ]
