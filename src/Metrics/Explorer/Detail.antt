-- ===== src/Metrics/Explorer/Detail.antt =====
-- The view of one metric and the custom query
-- (frontend/src/pages/monitor/PrometheusMetrics.tsx). `parse` gives the series of JSON.parse's result,
-- none where it throws.
pub mod Laws
use mrboard.Shared.{
  ℕ, ◌+◌, ◌++◌, Bool, true, false, Option, none, some, List, [], ◌∷◌, map, if◌then◌else◌, ◌==◌,
  ◌&&◌, ◌||◌, not, Text, text_eq, lit, is_truthy, text_leb, trim, take,
}
use mathlib.Core.Option
use mrboard.Shared.Assoc.{keys, put}
use mrboard.Shared.Members.{includes, add_member}
use mrboard.Shared.Sort.{sort_by}
use mrboard.Session.Api.{Outcome, resolved, thrown}
use mrboard.Metrics.AutoQuery.{detect_metric_info, auto_query}
use mrboard.Metrics.Chart.{MetricSeries}
use mrboard.Metrics.Explorer.{
  Explorer, browse, detail, RangeQuery, range_query, build_filters, card_query, QueryAnswer,
  accepted,
}

-- `handleDrilldown`, up to its first request.
unfoldable handle_drilldown : ℕ → Text → Explorer → Explorer × RangeQuery
handle_drilldown now name s = (
  record s {
    view_mode = detail;
    detail_metric = name;
    detail_loading = true;
    detail_tab = lit "overview";
    breakdown_series = [];
    breakdown_labels = [];
    detail_metric_info = detect_metric_info name;
  },
  card_query now s name,
)

-- Its second request: the series themselves, for their labels.
unfoldable raw_query : ℕ → Text → Explorer → RangeQuery
raw_query now name s =
    let filters = build_filters s in
    range_query now s
      (if is_truthy filters then name ++ (lit "{" ++ (filters ++ lit "}")) else name)

-- The loop that fills the set of labels.
add_labels : List Text → List Text → List Text
add_labels [] labels = labels
add_labels (k ∷ ks) labels =
    add_labels ks (if k == lit "__name__" then labels else add_member k labels)

all_labels : List MetricSeries → List Text → List Text
all_labels [] labels = labels
all_labels (s ∷ series) labels = all_labels series (add_labels (keys s.metric) labels)

discovered : List MetricSeries → List Text
discovered series = sort_by text_leb (all_labels series [])

-- `if (discovered.length > 0 && !discovered.includes(breakdownLabel))`, where `known` is the label
-- of the render that the handler was made in.
abbrev choose_label : List Text → Text → Text → Text
choose_label [] known label = label
choose_label (l ∷ labels) known label = if includes (l ∷ labels) known then label else l

-- The `catch` and `finally` blocks.
abbrev drilldown_failed : Text → Explorer → Explorer
drilldown_failed message s = record s { toasts = s.toasts ++ message ∷ []; detail_loading = false }

module _ (parse : Text → Option (List MetricSeries)) where
  abbrev show_series : Option Text → Explorer → Option Explorer
  show_series none s = some s
  show_series (some raw) s =
      Option.map (λ (series : List MetricSeries). record s { detail_series = series }) (parse raw)

  -- The answer to the first request: none where the handler goes on to its `catch`.
  unfoldable chart_arrived : QueryAnswer → Explorer → Option Explorer
  chart_arrived a s = show_series (accepted a) s

  abbrev show_labels : Text → Option Text → Explorer → Option Explorer
  show_labels known none s = some s
  show_labels known (some raw) s =
      Option.map
        (λ (series : List MetricSeries).
          let labels = discovered series in
          record s {
            breakdown_labels = labels;
            breakdown_label = choose_label labels known s.breakdown_label;
          })
        (parse raw)

  -- The answer to the second request.
  unfoldable labels_arrived : Text → QueryAnswer → Explorer → Option Explorer
  labels_arrived known a s = show_labels known (accepted a) s

  abbrev end_drilldown : Explorer → Option Explorer → Explorer
  end_drilldown s none = drilldown_failed (lit "SyntaxError") s
  end_drilldown s (some t) = record t { detail_loading = false }

  abbrev after_chart : Text → Outcome QueryAnswer → Explorer → Option Explorer → Explorer
  after_chart known second s none = drilldown_failed (lit "SyntaxError") s
  after_chart known (thrown message) s (some t) = drilldown_failed message t
  after_chart known (resolved b) s (some t) = end_drilldown t (labels_arrived known b t)

  -- `handleDrilldown`, from the first answer on.
  drilldown_answered : Text → Outcome QueryAnswer → Outcome QueryAnswer → Explorer → Explorer
  drilldown_answered known (thrown message) second s = drilldown_failed message s
  drilldown_answered known (resolved a) second s = after_chart known second s (chart_arrived a s)

  abbrev set_series :
      Text
      → Option (List MetricSeries)
      → List (Text × List MetricSeries)
      → List (Text × List MetricSeries)
  set_series val none m = m
  set_series val (some series) m = put val series m

  -- What a value's answer does to `newSeries`; failures are skipped.
  unfoldable value_arrived :
      Text → Outcome QueryAnswer → List (Text × List MetricSeries) → List (Text × List MetricSeries)
  value_arrived val (thrown message) m = m
  value_arrived val (resolved a) m = elim (accepted a) [
    | none ↦ m
    | some raw ↦ set_series val (parse raw) m
  ]

  -- The answers in the order in which they come.
  unfoldable values_arrived :
      List (Text × Outcome QueryAnswer)
      → List (Text × List MetricSeries)
      → List (Text × List MetricSeries)
  values_arrived [] m = m
  values_arrived ((val, outcome) ∷ answers) m = values_arrived answers (value_arrived val outcome m)

  abbrev show_custom : Option Text → Explorer → Explorer
  show_custom none s = s
  show_custom (some raw) s = elim (parse raw) [
    | none ↦ record s { toasts = s.toasts ++ lit "SyntaxError" ∷ [] }
    | some series ↦ record s { custom_results = series }
  ]

  -- `handleCustomQuery`, from the answer on.
  custom_answered : Outcome QueryAnswer → Explorer → Explorer
  custom_answered (thrown message) s = record s {
    toasts = s.toasts ++ message ∷ [];
    custom_loading = false;
  }
  custom_answered (resolved a) s = record (show_custom (accepted a) s) { custom_loading = false }

-- The effect of the breakdown: whether it asks, and the values it asks for.
unfoldable asks_breakdown : Explorer → Bool
asks_breakdown s =
    elim s.view_mode [ browse ↦ false | detail ↦ true ]
    && (is_truthy s.detail_metric
        && (is_truthy s.breakdown_label && s.detail_tab == lit "breakdown"))

unfoldable breakdown_values : List Text → List Text
breakdown_values values = take 30 values

unfoldable value_query : ℕ → Explorer → Text → RangeQuery
value_query now s val =
    let filters = build_filters s in
    let own = s.breakdown_label ++ (lit "=\"" ++ (val ++ lit "\"")) in
    range_query now s (
      auto_query s.detail_metric (if is_truthy filters then filters ++ (lit "," ++ own) else own)
        [])

unfoldable fetch_breakdown : ℕ → List Text → Explorer → List RangeQuery
fetch_breakdown now values s = map (value_query now s) (breakdown_values values)

-- `handleCustomQuery`, up to the request.
unfoldable handle_custom_query : ℕ → Explorer → Explorer × Option RangeQuery
handle_custom_query now s =
    let query = trim s.custom_promql in
    if is_truthy query
    then (record s { custom_loading = true }, some (range_query now s query))
    else (s, none)

-- The button 返回, and `refreshDetail`.
unfoldable back : Explorer → Explorer
back s = record s { view_mode = browse }

unfoldable refresh_detail : ℕ → Explorer → Explorer × RangeQuery
refresh_detail now s =
    handle_drilldown now s.detail_metric (record s { refresh_key = s.refresh_key + 1 })
