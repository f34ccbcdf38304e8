-- ===== src/Shared/Split.antt =====
-- Splitting a joined text gives the parts back.
use mathlib.Core.Path.{◌≡◌, refl, ap, ◌∙◌}
use mathlib.Core.Logic.{◌≢◌}
use mathlib.Core.List.{List, [], ◌∷◌, ◌++◌, append-nil, append_assoc}
use Prim.Native.Nat.{ℕ}
use native.Mathlib.Omega.{arith}
use mrboard.Shared.Lists.{All, keep}
use mrboard.Shared.Strings.{Text, join, split_from, split, is_truthy}

-- A part that is not empty and holds no separator.
abbrev pub IsPart : ℕ → Text → Type 0
IsPart c s = (s ≢ []) × All (λ d. d ≢ c) s

pub split_from-append :
    (c : ℕ) (cur s t : Text)
    → All (λ d. d ≢ c) s
    → split_from c cur (s ++ c ∷ t) ≡ (cur ++ s) ∷ split_from c [] t
unfolding split_from
split_from-append c cur [] t h = ground (arith, append-nil cur)
split_from-append c cur (d ∷ s) t (h, hs) =
    ground (arith, split_from-append c (cur ++ d ∷ []) s t hs, append_assoc cur (d ∷ []) s)

split_from_last : (c : ℕ) (cur s : Text) → All (λ d. d ≢ c) s → split_from c cur s ≡ (cur ++ s) ∷ []
unfolding split_from
split_from_last c cur [] h = ground (arith, append-nil cur)
split_from_last c cur (d ∷ s) (h, hs) =
    ground (arith, split_from_last c (cur ++ d ∷ []) s hs, append_assoc cur (d ∷ []) s)

pub split-join :
    (c : ℕ) (s : Text) (ss : List Text)
    → All (IsPart c) (s ∷ ss)
    → split c (join c (s ∷ ss)) ≡ s ∷ ss
unfolding split join
split-join c s [] h = split_from_last c [] s h.0.1
split-join c s (t ∷ ss) h =
    split_from-append c [] s (join c (t ∷ ss)) h.0.1 ∙ ap (◌∷◌ s) (split-join c t ss h.1)

pub keep_parts : (c : ℕ) (ss : List Text) → All (IsPart c) ss → keep is_truthy ss ≡ ss
unfolding keep
keep_parts c [] h = refl
keep_parts c ([] ∷ ss) h = absurd (h.0.0 refl)
keep_parts c ((d ∷ s) ∷ ss) h = ap (◌∷◌ (d ∷ s)) (keep_parts c ss h.1)
