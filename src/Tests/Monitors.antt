-- ===== src/Tests/Monitors.antt =====
-- The metrics explorer and the log viewer at concrete states
-- (frontend/src/pages/monitor/PrometheusMetrics.tsx, frontend/src/pages/log/LogViewer.tsx).
use mrboard.Shared.{
  is_truthy, ◌≡◌, ◌≢◌, refl, true, false, some, none, List, [], ◌∷◌, Text, text_eq, lit, length,
  text_leb, text_leb_total, text_leb_trans,
}
use mrboard.Shared.Assoc.{get}
use mrboard.Shared.Members.{includes}
use mrboard.Shared.Sort.{IsSortedBy}
use mrboard.Session.Api.{Outcome, resolved}
use mrboard.Metrics.AutoQuery.{gauge, counter}
use mrboard.Metrics.Chart.{MetricSeries}
use mrboard.Metrics.Explorer.{MetricCard, Cards, Explorer, browse}
use mrboard.Metrics.Explorer.Cards.{metric_arrived}
use mrboard.Metrics.Explorer.Cards.Laws.{Becomes, metric_arrived_lem}
use mrboard.Metrics.Explorer.Listing.{
  filtered_metrics, sorted_metrics, type_counts, count_of, set_type_filter, set_metric_search,
}
use mrboard.Metrics.Explorer.Listing.Laws.{type_counts_lem}
use mrboard.Metrics.Explorer.Listing.Order.{comes_first, times, sorted_metrics_lem}
use mrboard.Log.Viewer.{
  Viewer, open_viewer, select_namespace, handle_query, toggle_auto_refresh, polls, fetch_all,
  can_ask,
}
use mrboard.Log.Viewer.Laws.{
  toggle_levels, toggle_levels_lem, Reach, opened, later, choose, ask, refresh, Reach-polls,
}

abbrev series : List MetricSeries
series =
    record {
      metric = (lit "__name__", lit "up") ∷ (lit "pod", lit "a") ∷ (lit "job", lit "j") ∷ [];
      samples = (1, lit "2") ∷ [];
    }
    ∷ []

abbrev parse : Text → Outcome (List MetricSeries)
parse s = resolved series

abbrev same_text : Text → Text
same_text s = s

abbrev card : Text → MetricCard
card name = record {
  name = name;
  series = [];
  loading = true;
  error = none;
  last_value = lit "-";
  type = gauge;
  unit = [];
}

abbrev cards : Cards
cards = (lit "up", card (lit "up")) ∷ (lit "load", card (lit "load")) ∷ []

metric_arrived_lem_example :
    let after =
      metric_arrived parse same_text
        (lit "up")
        (resolved (record { code = 0; raw = lit "x" }))
        cards in
    ((d : MetricCard) × (get (lit "up") after ≡ some d)
      × Becomes parse same_text
          (lit "up")
          (resolved (record { code = 0; raw = lit "x" }))
          (card (lit "up"))
          d)
    × (lit "up" ≢ lit "load" → get (lit "load") after ≡ get (lit "load") cards)
unfolding get
metric_arrived_lem_example =
    metric_arrived_lem parse same_text (lit "up") (lit "load")
      (resolved (record { code = 0; raw = lit "x" })) (card (lit "up")) cards refl

abbrev explorer : Explorer
explorer = record {
  cluster_id = lit "c1";
  time_range = lit "1h";
  refresh_key = 0;
  view_mode = browse;
  all_metric_names = lit "up" ∷ lit "http_requests_total" ∷ [];
  metric_search = lit "up";
  show_count = 20;
  metric_cards = cards;
  type_filter = none;
  selected_label = [];
  selected_label_value = [];
  label_values = [];
  detail_metric = [];
  detail_metric_info = record { type = gauge; unit = []; rate = false };
  detail_series = [];
  detail_loading = false;
  detail_tab = lit "overview";
  breakdown_label = lit "namespace";
  breakdown_series = [];
  breakdown_loading = false;
  breakdown_labels = [];
  custom_promql = [];
  custom_results = [];
  custom_loading = false;
  toasts = [];
}

type_counts_lem_example :
    count_of (some counter) (type_counts explorer)
    ≡ length (
        filtered_metrics same_text (set_type_filter (some counter) (set_metric_search [] explorer)))
type_counts_lem_example = type_counts_lem same_text (some counter) explorer

sorted_metrics_lem_example :
    IsSortedBy (comes_first text_leb cards) (sorted_metrics text_leb same_text explorer)
    × (times (lit "up") (sorted_metrics text_leb same_text explorer)
        ≡ times (lit "up") (filtered_metrics same_text explorer))
sorted_metrics_lem_example =
    sorted_metrics_lem text_leb text_leb_total text_leb_trans same_text explorer (lit "up")

toggle_levels_lem_example :
    includes
      (toggle_levels
        (lit "warn" ∷ lit "info" ∷ lit "warn" ∷ [])
        (open_viewer (lit "c1"))).active_levels
      (lit "info")
    ≡ false
unfolding open_viewer includes
toggle_levels_lem_example =
    toggle_levels_lem (lit "warn" ∷ lit "info" ∷ lit "warn" ∷ []) (open_viewer (lit "c1"))
      (lit "info")

abbrev chosen : Viewer
chosen = select_namespace (lit "shop") (open_viewer (lit "c1"))

abbrev queried : Viewer
queried = (handle_query chosen).0

Reach-refreshed : Reach (lit "c1") (toggle_auto_refresh queried)
Reach-refreshed = later (later (later opened (choose (lit "shop"))) ask) refresh

abbrev refreshed : Viewer
refreshed = toggle_auto_refresh queried

Reach-polls_example :
    (polls refreshed ≡ refreshed.auto_refresh)
    × (refreshed.auto_refresh ≡ true
        → (is_truthy refreshed.namespace ≡ true) × (refreshed.has_queried ≡ true))
    × (polls (select_namespace (lit "ops") refreshed) ≡ false)
    × (polls (toggle_auto_refresh (select_namespace (lit "ops") refreshed)) ≡ false)
Reach-polls_example = Reach-polls Reach-refreshed (lit "ops")

-- The page polls then.
polls_test : polls (toggle_auto_refresh queried) ≡ true
unfolding polls toggle_auto_refresh handle_query select_namespace open_viewer fetch_all can_ask
polls_test = refl
