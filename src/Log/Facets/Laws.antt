-- ===== src/Log/Facets/Laws.antt =====
-- What the groups of the facets show (frontend/src/pages/log/LogDrilldown/FacetGroup.tsx).
use Prim.Native.Nat.{min}
use mathlib.Core.List.{map-append}
use mrboard.Shared.{
  ◌≡◌, refl, sym, ap, ◌∙◌, ℕ, zero, suc, ◌-◌, ◌++◌, append-nil, true, false, List, [], ◌∷◌, map,
  arith, if◌then◌else◌, length, length-map, length-take, take, drop, Text, text_eq, Bool-cases, inl,
  inr,
}
use mrboard.Shared.Members.{includes}
use mrboard.Shared.Sort.{IsSortedBy, sort_by-IsSortedBy, length-sort_by}
use mrboard.Log.Entry.{DetectedFieldValue}
use mrboard.Log.Facets.{
  Group, Shown, OptionRow, option_rows, more_count, display_values, level_value, is_oftener,
  level_values,
}

take-drop {ℓ} : {A : Type ℓ} (n : ℕ) (xs : List A) → take n xs ++ drop n xs ≡ xs
take-drop zero xs = refl
take-drop (suc n) [] = refl
take-drop (suc n) (x ∷ xs) = ap (λ l. x ∷ l) (take-drop n xs)

length-drop {ℓ} : {A : Type ℓ} (n : ℕ) (xs : List A) → length (drop n xs) ≡ length xs - n
length-drop zero xs = omega arith
length-drop (suc n) [] = omega arith
length-drop (suc n) (x ∷ xs) = omega (arith, length-drop n xs)

-- A value with the marks of the two lists that it may be in.
abbrev pub marked : Group → DetectedFieldValue → OptionRow
marked g v = record {
  value = v.value;
  is_selected = includes g.selected v.value;
  is_excluded = includes g.exclude_selected v.value;
}

-- An open group draws the first of its values in their order, all if they are asked for and ten or
-- fewer if not, each marked as selected or excluded exactly if the list says so; the number on the
-- button for more is the number of the values that are left out.
pub option_rows-more_count :
    (g : Group) (s : Shown)
    → s.expanded ≡ true
    → (rest : List DetectedFieldValue) × (option_rows g s ++ map (marked g) rest
        ≡ map (marked g) g.options)
      × (length (option_rows g s)
          ≡ (if s.show_all then length g.options else min 10 (length g.options)))
      × (more_count g s ≡ length rest)
unfolding option_rows more_count display_values
option_rows-more_count g s h = elim (Bool-cases s.show_all) [
  | inl e ↦
      rw (h, e)
        ([], append-nil (map (marked g) g.options), length-map (marked g) g.options, ground arith)
  | inr e ↦
      rw (h, e)
        (
          drop 10 g.options,
          sym (map-append (marked g) (take 10 g.options) (drop 10 g.options))
              ∙ ap (map (marked g)) (take-drop 10 g.options),
          length-map (marked g) (take 10 g.options) ∙ length-take 10 g.options,
          ground (arith, length-drop 10 g.options),
        )
]

is_oftener_total : (a b : DetectedFieldValue) → is_oftener a b ≡ false → is_oftener b a ≡ true
is_oftener_total a b h = ground (arith, h)

is_oftener_trans :
    (a b c : DetectedFieldValue)
    → is_oftener a b ≡ true
    → is_oftener b c ≡ true
    → is_oftener a c ≡ true
is_oftener_trans a b c h k = ground (arith, h, k)

-- The levels stand with the most frequent first, and each level that is counted has its row.
level_values_lem :
    (levels : List (Text × ℕ))
    → IsSortedBy is_oftener (level_values levels) × (length (level_values levels) ≡ length levels)
unfolding level_values
level_values_lem levels = (
  sort_by-IsSortedBy is_oftener is_oftener_total is_oftener_trans (map level_value levels),
  length-sort_by is_oftener (map level_value levels) ∙ length-map level_value levels,
)
