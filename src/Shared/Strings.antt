-- ===== src/Shared/Strings.antt =====
-- Text as JavaScript has it: a sequence of UTF-16 code units.
use Prim.Native.Nat.{ℕ}
use Prim.Native.Char.{code}
use Prim.Native.String.{String}
use mathlib.Core.Path.{◌≡◌, refl}
use mathlib.Core.Logic.{◌↔◌}
use mathlib.Core.Bool.{Bool, true, false, not, ◌&&◌, ◌||◌}
use mathlib.Core.Option.{Option, none, some}
use mathlib.Core.List.{List, [], ◌∷◌, ◌++◌}
use native.Mathlib.Omega.{arith}
use mrboard.Shared.Tests.{nat_beq, leb, Equality, if◌then◌else◌}

abbrev pub Text : Type 0
Text = List ℕ

-- A literal of the source; the ones used are ASCII or lie in the basic plane.
abbrev pub lit : String → Text
lit String.[] = []
lit (String.◌∷◌ c s) = code c ∷ lit s

abbrev pub text_beq : Text → Text → Bool
text_beq [] [] = true
text_beq (c ∷ s) (d ∷ t) = nat_beq c d && text_beq s t
text_beq _ _ = false

pub text_beq_iff : (s t : Text) → (text_beq s t ≡ true) ↔ (s ≡ t)
text_beq_iff [] [] = (λ _. refl, λ _. refl)
text_beq_iff [] (d ∷ t) = ground arith
text_beq_iff (c ∷ s) [] = ground arith
text_beq_iff (c ∷ s) (d ∷ t) = ground (arith, text_beq_iff s t)

instance abbrev pub text_eq : Equality Text
text_eq = record { same = text_beq; same_iff = text_beq_iff }

-- `key.startsWith(prefix)` and `key.slice(prefix.length)` together.
abbrev pub strip : Text → Text → Option Text
strip [] s = some s
strip (c ∷ p) [] = none
strip (c ∷ p) (d ∷ s) = if nat_beq c d then strip p s else none

-- Text is truthy unless it is empty.
abbrev pub is_truthy : Text → Bool
is_truthy [] = false
is_truthy (c ∷ s) = true

pub strip-append : (p s : Text) → strip p (p ++ s) ≡ some s
strip-append [] s = refl
strip-append (c ∷ p) s = ground (arith, strip-append p s)

-- `parts.join(sep)` at a separator of one code unit.
unfoldable pub join : ℕ → List Text → Text
join c [] = []
join c (s ∷ []) = s
join c (s ∷ t ∷ ss) = s ++ c ∷ join c (t ∷ ss)

-- `s.split(sep)` at a separator of one code unit: what follows the first part, and that part.
unfoldable pub split_from : ℕ → Text → Text → List Text
split_from c cur [] = cur ∷ []
split_from c cur (d ∷ s) =
    let cut = cur ∷ split_from c [] s in
    let more = split_from c (cur ++ d ∷ []) s in if nat_beq c d then cut else more

unfoldable pub split : ℕ → Text → List Text
unfolding split_from
split c s = split_from c [] s

-- `s.startsWith(p)`.
abbrev pub starts_with : Text → Text → Bool
starts_with [] s = true
starts_with (c ∷ p) [] = false
starts_with (c ∷ p) (d ∷ s) = nat_beq c d && starts_with p s

-- `s.includes(p)`: p starts at some position.
unfoldable pub contains : Text → Text → Bool
contains p [] = starts_with p []
contains p (c ∷ s) = starts_with p (c ∷ s) || contains p s

pub starts_with-append : (p s : Text) → starts_with p (p ++ s) ≡ true
starts_with-append [] s = refl
starts_with-append (c ∷ p) s = ground (arith, starts_with-append p s)

pub contains-append : (p s t : Text) → contains p (s ++ (p ++ t)) ≡ true
unfolding contains
contains-append [] [] [] = refl
contains-append (c ∷ p) [] t = ground (arith, starts_with-append (c ∷ p) t)
contains-append [] [] (d ∷ t) = refl
contains-append p (d ∷ s) t = ground (arith, contains-append p s t)

-- The code units that `\s` matches.
unfoldable pub is_space : ℕ → Bool
is_space c =
    (leb 9 c && leb c 13)
    || (nat_beq c 32
        || (nat_beq c 160
            || (nat_beq c 5760
                || ((leb 8192 c && leb c 8202)
                    || (nat_beq c 8232
                        || (nat_beq c 8233
                            || (nat_beq c 8239
                                || (nat_beq c 8287 || (nat_beq c 12288 || nat_beq c 65279)))))))))

-- `s.trim()`.
unfoldable pub trim_start : Text → Text
trim_start [] = []
trim_start (c ∷ s) = let more = trim_start s in if is_space c then more else c ∷ s

unfoldable pub trim_end : Text → Text
trim_end [] = []
trim_end (c ∷ s) =
    let more = trim_end s in if is_space c && not (is_truthy more) then [] else c ∷ more

abbrev pub trim : Text → Text
trim s = trim_end (trim_start s)

-- The order of `sort()` on texts: by code units.
unfoldable pub text_leb : Text → Text → Bool
text_leb [] t = true
text_leb (c ∷ s) [] = false
text_leb (c ∷ s) (d ∷ t) = if nat_beq c d then text_leb s t else leb c d

pub text_leb_total : (s t : Text) → text_leb s t ≡ false → text_leb t s ≡ true
unfolding text_leb
text_leb_total [] t h = ground (arith, h)
text_leb_total (c ∷ s) [] h = refl
text_leb_total (c ∷ s) (d ∷ t) h = ground (arith, h, text_leb_total s t)

pub text_leb_trans :
    (s t u : Text) → text_leb s t ≡ true → text_leb t u ≡ true → text_leb s u ≡ true
unfolding text_leb
text_leb_trans [] t u h k = refl
text_leb_trans (c ∷ s) [] u h k = ground (arith, h)
text_leb_trans (c ∷ s) (d ∷ t) [] h k = ground (arith, k)
text_leb_trans (c ∷ s) (d ∷ t) (e ∷ u) h k = ground (arith, h, k, text_leb_trans s t u)
