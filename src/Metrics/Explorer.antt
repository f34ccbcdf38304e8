-- ===== src/Metrics/Explorer.antt =====
-- The state of the metrics explorer, `PrometheusMetrics` of
-- frontend/src/pages/monitor/PrometheusMetrics.tsx, and the requests that it makes. `now` is
-- Date.now(), in milliseconds.
pub mod Cards
pub mod Listing
pub mod Detail
use mrboard.Shared.{
  ℕ, ◌+◌, ◌-◌, ◌/◌, ◌++◌, Bool, true, false, Option, none, some, List, [], ◌∷◌, if◌then◌else◌, ◌==◌,
  leb, Text, text_eq, lit, is_truthy, or_else,
}
use mrboard.Shared.Assoc.{get}
use mrboard.Metrics.AutoQuery.{MetricType, MetricTypeInfo, detect_metric_info, auto_query}
use mrboard.Metrics.Chart.{MetricSeries}

pub record MetricCard : Type 0 where
  pub name : Text
  pub series : List MetricSeries
  pub loading : Bool
  pub error : Option Text
  pub last_value : Text
  pub type : MetricType
  pub unit : Text

-- A Map from the names of the metrics.
abbrev pub Cards : Type 0
Cards = List (Text × MetricCard)

pub data ViewMode : Type 0 where
  browse detail : ViewMode

-- The type filter is none for 'all'.
pub record Explorer : Type 0 where
  pub cluster_id : Text
  pub time_range : Text
  pub refresh_key : ℕ
  pub view_mode : ViewMode
  pub all_metric_names : List Text
  pub metric_search : Text
  pub show_count : ℕ
  pub metric_cards : Cards
  pub type_filter : Option MetricType
  pub selected_label : Text
  pub selected_label_value : Text
  pub label_values : List Text
  pub detail_metric : Text
  pub detail_metric_info : MetricTypeInfo
  pub detail_series : List MetricSeries
  pub detail_loading : Bool
  pub detail_tab : Text
  pub breakdown_label : Text
  pub breakdown_series : List (Text × List MetricSeries)
  pub breakdown_loading : Bool
  pub breakdown_labels : List Text
  pub custom_promql : Text
  pub custom_results : List MetricSeries
  pub custom_loading : Bool
  pub toasts : List Text

abbrev time_ranges : List (Text × ℕ)
time_ranges =
    (lit "5m", 300)
    ∷ (lit "15m", 900)
    ∷ (lit "1h", 3600)
    ∷ (lit "3h", 10800)
    ∷ (lit "6h", 21600)
    ∷ (lit "24h", 86400)
    ∷ []

unfoldable step_for : ℕ → ℕ
step_for duration =
    if leb duration 300
    then 15
    else if leb duration 900
    then 30
    else if leb duration 3600
    then 60
    else if leb duration 10800
    then 120
    else if leb duration 21600
    then 300
    else 600

-- A request of query_range.
pub record RangeQuery : Type 0 where
  pub metric : Text
  pub start : ℕ
  pub finish : ℕ
  pub step : ℕ

-- `getTimeWindow`, for a query.
unfoldable range_query : ℕ → Explorer → Text → RangeQuery
range_query now s metric =
    let duration = or_else (get s.time_range time_ranges) 3600 in
    let finish = now / 1000 in
    record { metric = metric; start = finish - duration; finish = finish; step = step_for duration }

-- `buildFilters()`: only a namespace is a filter.
unfoldable build_filters : Explorer → Text
build_filters s =
    let ns = if s.selected_label == lit "namespace" then s.selected_label_value else [] in
    if is_truthy ns then lit "namespace=\"" ++ (ns ++ lit "\"") else []

unfoldable card_query : ℕ → Explorer → Text → RangeQuery
card_query now s name = range_query now s (auto_query name (build_filters s) [])

-- `{ code, data: { raw } }`, with a missing text as ''.
pub record QueryAnswer : Type 0 where
  pub code : ℕ
  pub raw : Text

-- `res.code === 0 && res.data?.raw`.
abbrev accepted : QueryAnswer → Option Text
accepted a = if leb a.code 0 then (if is_truthy a.raw then some a.raw else none) else none
