-- ===== src/Metrics/Explorer/Listing.antt =====
-- The list of the metrics explorer: its names, filters, order and badges
-- (frontend/src/pages/monitor/PrometheusMetrics.tsx). `lower` is toLowerCase, and `collate a b` says
-- that localeCompare does not put b before a.
pub mod Laws
pub mod Order
use mrboard.Shared.{
  ℕ, ◌+◌, ◌-◌, Bool, true, false, not, ◌&&◌, ◌||◌, Option, none, some, is_some, List, [], ◌∷◌, map,
  if◌then◌else◌, ltb, Text, text_eq, lit, is_truthy, starts_with, text_leb, keep, take, length,
}
use mrboard.Shared.Assoc.{get}
use mrboard.Shared.Sort.{sort_by}
use mrboard.Session.Api.{Outcome, resolved, thrown}
use mrboard.Metrics.AutoQuery.{MetricType, counter, gauge, histogram, summary, detect_metric_info}
use mrboard.Metrics.SearchBox.{matches_search}
use mrboard.Metrics.Explorer.{MetricCard, Cards, Explorer, RangeQuery, card_query}
use mrboard.Metrics.Explorer.Cards.{add_cards, load_cards}

abbrev is_own : Text → Bool
is_own n =
    not (starts_with (lit "go_") n)
    && (not (starts_with (lit "scrape_") n)
        && (not (starts_with (lit "prometheus_") n) && not (starts_with (lit "process_") n)))

-- The answer with the names, [] where there are none; a failure is ignored.
unfoldable names_arrived : Outcome (List Text) → Explorer → Explorer
names_arrived (thrown message) s = s
names_arrived (resolved names) s = record s {
  all_metric_names = sort_by text_leb (keep is_own names);
}

abbrev same_type : MetricType → MetricType → Bool
same_type counter counter = true
same_type gauge gauge = true
same_type histogram histogram = true
same_type summary summary = true
same_type _ _ = false

abbrev has_type : MetricType → Text → Bool
has_type t n = same_type (detect_metric_info n).type t

abbrev by_type : Option MetricType → List Text → List Text
by_type none names = names
by_type (some t) names = keep (has_type t) names

pub filtered_metrics : (Text → Text) → Explorer → List Text
filtered_metrics lower s = by_type s.type_filter (
    if is_truthy s.metric_search
    then keep (λ n. matches_search lower n s.metric_search) s.all_metric_names
    else s.all_metric_names)

-- `!card || card.loading || card.error || !card.series.length`, where an error is not ''.
abbrev is_empty_card : Option MetricCard → Bool
is_empty_card none = true
is_empty_card (some c) = c.loading || (is_some c.error || not (ltb 0 (length c.series)))

unfoldable is_empty : Cards → Text → Bool
is_empty cards name = is_empty_card (get name cards)

-- The comparator: filled cards first, then the names as they collate.
pub may_precede : (Text → Text → Bool) → Cards → Text → Text → Bool
may_precede collate cards a b =
    if is_empty cards a && not (is_empty cards b)
    then false
    else if not (is_empty cards a) && is_empty cards b
    then true
    else collate a b

pub sorted_metrics : (Text → Text → Bool) → (Text → Text) → Explorer → List Text
sorted_metrics collate lower s =
    sort_by (may_precede collate s.metric_cards) (filtered_metrics lower s)

unfoldable visible_names : (Text → Text → Bool) → (Text → Text) → Explorer → List Text
visible_names collate lower s = take s.show_count (sorted_metrics collate lower s)

unfoldable has_more : (Text → Text → Bool) → (Text → Text) → Explorer → Bool
has_more collate lower s = ltb s.show_count (length (sorted_metrics collate lower s))

unfoldable show_more : Explorer → Explorer
show_more s = record s { show_count = s.show_count + 20 }

-- The effect that fetches the visible metrics, with a request for each.
unfoldable fetch_visible : ℕ → (Text → Text) → Explorer → Explorer × List RangeQuery
fetch_visible now lower s =
    let visible = take s.show_count (filtered_metrics lower s) in
    if is_truthy s.cluster_id && ltb 0 (length s.all_metric_names)
    then (
      record s { metric_cards = load_cards visible (add_cards visible s.metric_cards) },
      map (card_query now s) visible,
    )
    else (s, [])

pub record TypeCounts : Type 0 where
  pub all : ℕ
  pub counters : ℕ
  pub gauges : ℕ
  pub histograms : ℕ
  pub summaries : ℕ

abbrev count_one : MetricType → TypeCounts → TypeCounts
count_one counter c = record c { counters = c.counters + 1 }
count_one gauge c = record c { gauges = c.gauges + 1 }
count_one histogram c = record c { histograms = c.histograms + 1 }
count_one summary c = record c { summaries = c.summaries + 1 }

count_types : List Text → TypeCounts → TypeCounts
count_types [] c = c
count_types (n ∷ names) c = count_types names (count_one (detect_metric_info n).type c)

abbrev no_counts : List Text → TypeCounts
no_counts names = record {
  all = length names;
  counters = 0;
  gauges = 0;
  histograms = 0;
  summaries = 0;
}

pub type_counts : Explorer → TypeCounts
type_counts s = count_types s.all_metric_names (no_counts s.all_metric_names)

-- `counts[t]`, and `counts.all` without a filter.
abbrev pub count_of : Option MetricType → TypeCounts → ℕ
count_of none c = c.all
count_of (some counter) c = c.counters
count_of (some gauge) c = c.gauges
count_of (some histogram) c = c.histograms
count_of (some summary) c = c.summaries

-- The buttons of the types, and the search box.
pub set_type_filter : Option MetricType → Explorer → Explorer
set_type_filter t s = record s { type_filter = t; show_count = 20 }

pub set_metric_search : Text → Explorer → Explorer
set_metric_search text s = record s { metric_search = text; show_count = 20 }

-- The choice of a label, '' where none is chosen, and of one of its values.
unfoldable select_label : Text → Explorer → Explorer
select_label v s = record s { selected_label = v; selected_label_value = [] }

unfoldable select_label_value : Text → Explorer → Explorer
select_label_value v s = record s { selected_label_value = v }
