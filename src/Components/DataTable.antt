-- ===== src/Components/DataTable.antt =====
-- What the table of frontend/src/components/shared/DataTable.tsx renders: which of its views, and
-- the page links under it. The page size is positive, as every caller passes it.
pub mod Pages
use mrboard.Shared.{
  ℕ, zero, suc, ◌+◌, ◌-◌, ◌/◌, ◌%◌, Bool, true, false, not, ◌&&◌, Option, none, some, List, [], ◌∷◌,
  if◌then◌else◌, leb, ltb, nat_beq, length, Text, text_eq, lit, ◌==◌,
}
use Prim.Native.Nat.{min, max}

pub record PaginationState : Type 0 where
  pub page : ℕ
  pub limit : ℕ
  pub total : ℕ

-- `Math.ceil(pagination.total / pagination.limit)`.
abbrev total_pages_of : PaginationState → ℕ
total_pages_of p = (p.total + p.limit - 1) / p.limit

-- The number of the link at position i.
unfoldable pub page_num : ℕ → ℕ → ℕ → ℕ
page_num page total_pages i =
    if leb total_pages 5
    then i + 1
    else if leb page 3
    then i + 1
    else if leb (total_pages - 2) page
    then total_pages - 4 + i
    else page - 2 + i

-- `Array.from({ length: n }, (_, i) => f(i))`, from position i on.
abbrev pub array_from {ℓ} : {A : Type ℓ} → (ℕ → A) → ℕ → ℕ → List A
array_from f i zero = []
array_from f i (suc n) = f i ∷ array_from f (suc i) n

unfoldable pub page_links : ℕ → ℕ → List ℕ
page_links page total_pages = array_from (page_num page total_pages) 0 (min 5 total_pages)

-- The pages that the two arrows call `onPageChange` with.
pub previous_page : ℕ → ℕ
previous_page page = max 1 (page - 1)

pub next_page : ℕ → ℕ → ℕ
next_page page total_pages = min total_pages (page + 1)

pub record Pager : Type 0 where
  pub links : List ℕ
  pub previous : ℕ
  pub previous_off : Bool
  pub next : ℕ
  pub next_off : Bool

-- `pagination && totalPages > 1`.
unfoldable pub pager : Option PaginationState → Option Pager
pager none = none
pager (some p) =
    let n = total_pages_of p in
    if ltb 1 n
    then some (record {
      links = page_links p.page n;
      previous = previous_page p.page;
      previous_off = leb p.page 1;
      next = next_page p.page n;
      next_off = leb n p.page;
    })
    else none

pub data Variant : Type 0 where
  table cards : Variant

-- The keys of the columns stand for the columns.
pub data View (A : Type 0) : Type 0 where
  skeleton : (rows columns : ℕ) → View A
  empty_state : View A
  table_view : (columns : List Text) → (rows : List (A × Bool)) → Option Pager → View A
  card_view :
      (columns : List Text) → (actions : Option Text) → (rows : List A) → Option Pager → View A

-- `idx % 2 === 0` of each row, from position i on.
abbrev striped : {A : Type 0} → ℕ → List A → List (A × Bool)
striped i [] = []
striped i (x ∷ xs) = (x, nat_beq (i % 2) 0) ∷ striped (suc i) xs

-- `columns.slice(0, -1)` and the last column, if its key is 'actions'.
abbrev content_columns : List Text → List Text
content_columns [] = []
content_columns (c ∷ []) = []
content_columns (c ∷ d ∷ cs) = c ∷ content_columns (d ∷ cs)

abbrev action_column : List Text → Option Text
action_column [] = none
action_column (c ∷ []) = if c == lit "actions" then some c else none
action_column (c ∷ d ∷ cs) = action_column (d ∷ cs)

unfoldable data_table :
    {A : Type 0} → Bool → Variant → List Text → List A → Option PaginationState → View A
data_table true variant columns rows pagination = skeleton 5 (length columns)
data_table false variant columns [] pagination = empty_state
data_table false cards columns (x ∷ xs) pagination =
    card_view (content_columns columns) (action_column columns) (x ∷ xs) (pager pagination)
data_table false table columns (x ∷ xs) pagination =
    table_view columns (striped 0 (x ∷ xs)) (pager pagination)
