-- ===== src/Metrics/SearchBox.antt =====
-- The search of metrics by several words, `matchesSearch` of
-- frontend/src/pages/monitor/PrometheusMetrics.tsx. `lower` is toLowerCase.
pub mod Laws
use mrboard.Shared.{
  is_space, ℕ, ◌++◌, Bool, true, false, ◌||◌, ◌&&◌, List, [], ◌∷◌, if◌then◌else◌, nat_beq, leb,
  Text, is_truthy, contains, keep,
}

-- `s.split(/\s+/).filter(Boolean)`: the words of a text, of which `cur` is the one begun.
unfoldable pub words_from : Text → Text → List Text
words_from cur [] = keep is_truthy (cur ∷ [])
words_from cur (c ∷ s) =
    let cut = keep is_truthy (cur ∷ []) ++ words_from [] s in
    let more = words_from (cur ++ c ∷ []) s in if is_space c then cut else more

unfoldable pub words : Text → List Text
words s = words_from [] s

-- `terms.every(t => lower.includes(t))`.
unfoldable pub has_all : List Text → Text → Bool
has_all [] name = true
has_all (t ∷ terms) name = contains t name && has_all terms name

unfoldable pub matches_search : (Text → Text) → Text → Text → Bool
matches_search lower name search =
    if is_truthy search then has_all (words (lower search)) (lower name) else true
