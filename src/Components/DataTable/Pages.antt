-- ===== src/Components/DataTable/Pages.antt =====
-- The page links of frontend/src/components/shared/DataTable.tsx.
use native.Mathlib.Nat.{div-add-mod, mod-lt}
use mrboard.Shared.{
  ltb, none, ◌%◌, ◌≡◌, ap, ℕ, zero, suc, ◌+◌, ◌-◌, ◌*◌, ◌≤◌, ◌<◌, Option, some, arith,
  if◌then◌else◌, leb,
}
use Prim.Native.Nat.{min}
use mathlib.Core.Path.{fun_ext}
use mrboard.Components.DataTable.{
  PaginationState, total_pages_of, page_num, array_from, page_links, previous_page, next_page,
  Pager, pager,
}

-- The number of the first link.
abbrev first_link : ℕ → ℕ → ℕ
first_link page total_pages = page_num page total_pages 0

page_num-consecutive : (page n i : ℕ) → page_num page n i ≡ first_link page n + i
unfolding page_num
page_num-consecutive page n i = ground arith

-- The links carry consecutive numbers, at most five and as many as there are pages up to that; all
-- are pages, and the current page is among them.
pub page_links_lem :
    (page n : ℕ)
    → 1 ≤ page
    → page ≤ n
    → (first : ℕ) × (page_links page n ≡ array_from (λ i. first + i) 0 (min 5 n))
      × (1 ≤ first)
      × (first + min 5 n ≤ n + 1)
      × (first ≤ page)
      × (page < first + min 5 n)
unfolding page_links page_num
page_links_lem page n h k = (
  first_link page n,
  ap (λ (f : ℕ → ℕ). array_from f 0 (min 5 n)) (fun_ext (page_num-consecutive page n)),
  ground arith,
  ground arith,
  ground arith,
  ground arith,
)

abbrev pager_at : ℕ → PaginationState → Option Pager
pager_at n p =
    if ltb 1 n
    then some (record {
      links = page_links p.page n;
      previous = previous_page p.page;
      previous_off = leb p.page 1;
      next = next_page p.page n;
      next_off = leb n p.page;
    })
    else none

arrows :
    (n : ℕ) (p : PaginationState) (g : Pager)
    → 1 ≤ p.page
    → p.page ≤ n
    → pager_at n p ≡ some g
    → (1 ≤ g.previous)
      × (g.next ≤ n)
      × (g.previous + 1 ≡ (if g.previous_off then 2 else p.page))
      × (g.next ≡ (if g.next_off then p.page else p.page + 1))
unfolding previous_page next_page
arrows n p g h k e = ground arith

-- From a page of the table both arrows lead to a page; an arrow that leads elsewhere is on, and one
-- that leads nowhere is off.
pager_arrows :
    (p : PaginationState) (g : Pager)
    → 1 ≤ p.page
    → p.page ≤ total_pages_of p
    → pager (some p) ≡ some g
    → (1 ≤ g.previous)
      × (g.next ≤ total_pages_of p)
      × (g.previous + 1 ≡ (if g.previous_off then 2 else p.page))
      × (g.next ≡ (if g.next_off then p.page else p.page + 1))
unfolding pager previous_page next_page
pager_arrows p g h k e = arrows (total_pages_of p) p g h k e

ceil_bounds :
    (t l q r : ℕ) → 1 ≤ l → 1 ≤ t → l * q + r ≡ t + l - 1 → r < l → ((q - 1) * l < t) × (t ≤ q * l)
ceil_bounds t l zero r h k e b = (omega arith, omega arith)
ceil_bounds t l (suc q) r h k e b = (grind arith, grind arith)

-- The last page holds the last row: the pages before it do not hold all rows, and all pages do.
total_pages_lem :
    (p : PaginationState)
    → 1 ≤ p.limit
    → 1 ≤ p.total
    → ((total_pages_of p - 1) * p.limit < p.total) × (p.total ≤ total_pages_of p * p.limit)
total_pages_lem p h k =
    ceil_bounds p.total p.limit (total_pages_of p) ((p.total + p.limit - 1) % p.limit) h k
      (div-add-mod (p.total + p.limit - 1) p.limit) (mod-lt _ h)
