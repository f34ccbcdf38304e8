-- ===== src/Log/Drilldown/Rows.antt =====
-- The list of the expanded view, `ExpandedLogList` of frontend/src/pages/log/LogDrilldown.tsx. It
-- renders a window of all logs, with a wider margin than the list of LogEntryList.tsx; pixels are whole.
use mrboard.Shared.{
  ◌≡◌, ℕ, ◌+◌, ◌-◌, ◌*◌, ◌/◌, ◌<◌, Bool, ◌&&◌, List, if◌then◌else◌, ltb, nat_eq, take, drop, length,
  get_elem?, arith,
}
use Prim.Native.Nat.{min}
use mrboard.Shared.Members.{toggle}
use mrboard.Log.Window.{row_height, ceil_div}
use mrboard.Log.Window.Laws.{get_elem?-slice}

abbrev wide_overscan : ℕ
wide_overscan = 15

pub record ExpandedList : Type 0 where
  pub scroll_top : ℕ
  pub container_height : ℕ
  pub expanded_rows : List ℕ
  pub auto_scroll : Bool

first_row : ExpandedList → ℕ
first_row s = s.scroll_top / row_height - wide_overscan

last_row : ℕ → ExpandedList → ℕ
unfolding first_row
last_row shown s =
    min shown (first_row s + (ceil_div s.container_height row_height + wide_overscan * 2))

rows {ℓ} : {A : Type ℓ} → List A → ExpandedList → List A
unfolding first_row last_row
rows logs s = let first = first_row s in take (last_row (length logs) s - first) (drop first logs)

unfoldable toggle_expanded : ℕ → ExpandedList → ExpandedList
toggle_expanded idx s = record s { expanded_rows = toggle idx s.expanded_rows }

-- A scroll of the container; the list follows new logs while it is near the top.
handle_scroll : ℕ → ExpandedList → ExpandedList
handle_scroll top s = record s { scroll_top = top; auto_scroll = ltb top 50 }

-- The effect that runs when the number of logs changes: it scrolls the container, which is an event of
-- its own, to the top.
unfoldable follow : Bool → ExpandedList → ExpandedList
unfolding handle_scroll
follow live_tail s = if live_tail && s.auto_scroll then handle_scroll 0 s else s

-- A row that overlaps the viewport in some pixel is rendered, in its place.
rows_cover :
    {A : Type 0} (logs : List A) (s : ExpandedList) (i : ℕ)
    → i < length logs
    → i * row_height < s.scroll_top + s.container_height
    → s.scroll_top < (i + 1) * row_height
    → get_elem? (rows logs s) (i - first_row s) ≡ get_elem? logs i
unfolding rows first_row last_row
rows_cover logs s i h below above =
    get_elem?-slice (first_row s) (last_row (length logs) s) i logs (omega arith) (omega arith)
