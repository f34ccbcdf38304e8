-- ===== src/Log/Window.antt =====
-- The rows that the log list renders, frontend/src/pages/log/LogDrilldown/LogEntryList.tsx. Pixels are
-- whole: the floor and the ceiling of a fraction are those of its own floor and ceiling.
pub mod Laws
use mrboard.Shared.{
  nat_eq, ℕ, ◌+◌, ◌-◌, ◌*◌, ◌/◌, Bool, Option, none, some, List, [], ◌∷◌, take, drop, length,
  if◌then◌else◌,
}
use mrboard.Shared.Members.{includes, toggle}
use Prim.Native.Nat.{min, max}

-- `ROW_HEIGHT`, of a collapsed row: row i stands 28 i pixels from the top. An expanded row stands there
-- too, but is taller and covers rows below it.
abbrev pub row_height : ℕ
row_height = 28

abbrev overscan : ℕ
overscan = 10

-- `Math.ceil(a / b)` for a positive b.
abbrev pub ceil_div : ℕ → ℕ → ℕ
ceil_div a b = (a + b - 1) / b

pub start_idx : ℕ → ℕ
start_idx scroll_top = scroll_top / row_height - overscan

visible_count : ℕ → ℕ
visible_count container_height = ceil_div container_height row_height + overscan * 2

pub end_idx : ℕ → ℕ → ℕ → ℕ
unfolding start_idx visible_count
end_idx shown scroll_top container_height =
    min shown (start_idx scroll_top + visible_count container_height)

-- `logs.slice(0, 500)`.
abbrev pub display_logs {ℓ} : {A : Type ℓ} → List A → List A
display_logs logs = take 500 logs

-- `displayLogs.slice(startIdx, endIdx)`.
pub visible_logs {ℓ} : {A : Type ℓ} → List A → ℕ → ℕ → List A
unfolding start_idx end_idx
visible_logs logs scroll_top container_height =
    let first = start_idx scroll_top in
    let last = end_idx (length (display_logs logs)) scroll_top container_height in
    take (last - first) (drop first (display_logs logs))

-- `toggleRow`.
unfoldable toggle_row : ℕ → List ℕ → List ℕ
toggle_row idx prev = toggle idx prev
