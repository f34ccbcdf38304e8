-- ===== src/Metrics/SearchBox/Laws.antt =====
-- A search for several words is the conjunction of searches
-- (frontend/src/pages/monitor/PrometheusMetrics.tsx).
use mrboard.Shared.{
  is_space, ◌≡◌, refl, ℕ, ◌++◌, true, ◌&&◌, List, [], ◌∷◌, arith, Text, is_truthy, keep,
  append_assoc, Bool-cases, inl, inr,
}
use mrboard.Metrics.SearchBox.{words_from, words, has_all, matches_search}

words_from-append :
    (cur s t : Text) (c : ℕ)
    → is_space c ≡ true
    → words_from cur (s ++ c ∷ t) ≡ words_from cur s ++ words t
unfolding words_from words
words_from-append cur [] t c h = ground arith
words_from-append cur (d ∷ s) t c h = elim (Bool-cases (is_space d)) [
  | inl gap ↦ ground (
    arith,
    words_from-append [] s t c h,
    append_assoc (keep is_truthy (cur ∷ [])) (words_from [] s) (words t),
  )
  | inr letter ↦ ground (arith, words_from-append (cur ++ d ∷ []) s t c h)
]

has_all-append :
    (xs ys : List Text) (name : Text)
    → has_all (xs ++ ys) name ≡ (has_all xs name && has_all ys name)
unfolding has_all
has_all-append [] ys name = refl
has_all-append (x ∷ xs) ys name = ground (arith, has_all-append xs ys name)

has_all-words-nil : (name : Text) → has_all (words []) name ≡ true
unfolding words words_from has_all keep
has_all-words-nil name = refl

-- Where lower-casing works on each side of a white-space character on its own and leaves an empty text
-- empty, the search for two texts with such a character between them finds exactly the metrics that
-- the search for each of them finds.
matches_search-both :
    (lower : Text → Text) (name s t : Text) (c : ℕ)
    → is_space c ≡ true
    → lower [] ≡ []
    → lower (s ++ c ∷ t) ≡ lower s ++ c ∷ lower t
    → matches_search lower name (s ++ c ∷ t)
      ≡ (matches_search lower name s && matches_search lower name t)
unfolding matches_search words
matches_search-both lower name [] [] c h e l = ground (
  arith,
  words_from-append [] (lower []) (lower []) c h,
  has_all-append (words (lower [])) (words (lower [])) (lower name),
  has_all-words-nil (lower name),
)
matches_search-both lower name [] (b ∷ t) c h e l = ground (
  arith,
  words_from-append [] (lower []) (lower (b ∷ t)) c h,
  has_all-append (words (lower [])) (words (lower (b ∷ t))) (lower name),
  has_all-words-nil (lower name),
)
matches_search-both lower name (a ∷ s) [] c h e l = ground (
  arith,
  words_from-append [] (lower (a ∷ s)) (lower []) c h,
  has_all-append (words (lower (a ∷ s))) (words (lower [])) (lower name),
  has_all-words-nil (lower name),
)
matches_search-both lower name (a ∷ s) (b ∷ t) c h e l = ground (
  arith,
  words_from-append [] (lower (a ∷ s)) (lower (b ∷ t)) c h,
  has_all-append (words (lower (a ∷ s))) (words (lower (b ∷ t))) (lower name),
)
