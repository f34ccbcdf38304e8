-- ===== src/Log/Window/Laws.antt =====
-- The rendered window covers the viewport (frontend/src/pages/log/LogDrilldown/LogEntryList.tsx).
use mrboard.Shared.{
  ◌≡◌, refl, ap, ◌∙◌, ℕ, zero, suc, ◌+◌, ◌-◌, ◌*◌, ◌≤◌, ◌<◌, List, [], ◌∷◌, arith, take, drop,
  length, get_elem?, length-take-le,
}
use mrboard.Log.Window.{row_height, start_idx, visible_count, end_idx, display_logs, visible_logs}

get_elem?-take {ℓ} :
    {A : Type ℓ} (n i : ℕ) (xs : List A) → i < n → get_elem? (take n xs) i ≡ get_elem? xs i
get_elem?-take zero i xs h = elim h [ ]
get_elem?-take (suc n) i [] h = refl
get_elem?-take (suc n) zero (x ∷ xs) h = refl
get_elem?-take (suc n) (suc i) (x ∷ xs) h = get_elem?-take n i xs (omega arith)

get_elem?-drop {ℓ} :
    {A : Type ℓ} (n i : ℕ) (xs : List A) → get_elem? (drop n xs) i ≡ get_elem? xs (i + n)
get_elem?-drop zero i xs = ap (get_elem? xs) (omega arith)
get_elem?-drop (suc n) i [] = refl
get_elem?-drop (suc n) i (x ∷ xs) =
    get_elem?-drop n i xs ∙ ap (get_elem? (x ∷ xs)) {x = suc (i + n)} {y = i + suc n} (omega arith)

-- What stands at a position of `xs.slice(first, last)`.
pub get_elem?-slice {ℓ} :
    {A : Type ℓ} (first last i : ℕ) (xs : List A)
    → first ≤ i
    → i < last
    → get_elem? (take (last - first) (drop first xs)) (i - first) ≡ get_elem? xs i
get_elem?-slice first last i xs lo hi =
    get_elem?-take (last - first) (i - first) (drop first xs) (omega arith)
    ∙ get_elem?-drop first (i - first) xs
    ∙ ap (get_elem? xs) {x = i - first + first} {y = i} (omega arith)

-- A row, one of the first 500, whose height is at most 308 pixels, as that of a collapsed row is, and
-- that overlaps the viewport in some pixel is rendered, in its place: entry i of the logs stands at
-- position i - startIdx of the rendered rows.
pub visible_logs_cover :
    {A : Type 0} (logs : List A) (scroll_top container_height height i : ℕ)
    → height ≤ 308
    → i < length (display_logs logs)
    → i * row_height < scroll_top + container_height
    → scroll_top < i * row_height + height
    → (start_idx scroll_top ≤ i)
      × (i < end_idx (length (display_logs logs)) scroll_top container_height)
      × (get_elem? (visible_logs logs scroll_top container_height) (i - start_idx scroll_top)
          ≡ get_elem? logs i)
unfolding visible_logs end_idx start_idx visible_count
visible_logs_cover logs scroll_top container_height height i tall h below above =
    let first = start_idx scroll_top in
    let last = end_idx (length (display_logs logs)) scroll_top container_height in
    let lo : first ≤ i = omega arith in
    let hi : i < last = omega arith in
    (
      lo,
      hi,
      get_elem?-slice first last i (display_logs logs) lo hi
          ∙ get_elem?-take 500 i logs (omega (arith, length-take-le 500 logs)),
    )
