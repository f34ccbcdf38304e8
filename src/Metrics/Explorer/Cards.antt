-- ===== src/Metrics/Explorer/Cards.antt =====
-- The cards of the metrics and their requests (frontend/src/pages/monitor/PrometheusMetrics.tsx).
-- `parse` gives the series of JSON.parse's result, or the message of what it throws; `format` is
-- formatValue after parseFloat.
pub mod Laws
use mrboard.Shared.{
  ℕ, Bool, true, false, Option, none, some, List, [], ◌∷◌, if◌then◌else◌, ◌==◌, Text, text_eq, lit,
  is_truthy, is_some, take,
}
use mrboard.Shared.Assoc.{get, put}
use mrboard.Session.Api.{Outcome, resolved, thrown}
use mrboard.Metrics.AutoQuery.{MetricType, detect_metric_info}
use mrboard.Metrics.Chart.{MetricSeries}
use mrboard.Metrics.Explorer.{MetricCard, Cards, QueryAnswer, accepted}

-- The value of the last sample.
abbrev last_sample : List (ℕ × Text) → Option Text
last_sample [] = none
last_sample ((t, v) ∷ []) = some v
last_sample (_ ∷ p ∷ samples) = last_sample (p ∷ samples)

abbrev last_text : (Text → Text) → Option Text → Text
last_text format none = lit "-"
last_text format (some v) = format v

abbrev last_value_of : (Text → Text) → List MetricSeries → Text
last_value_of format [] = lit "-"
last_value_of format (s ∷ series) = last_text format (last_sample s.samples)

-- The card that is made for a name.
abbrev new_card : Text → MetricCard
new_card name =
    let info = detect_metric_info name in
    record {
      name = name;
      series = [];
      loading = true;
      error = none;
      last_value = lit "-";
      type = info.type;
      unit = info.unit;
    }

-- `{ ...existing!, series, ... }`. A card is made before its request and none is removed, so that
-- there is one.
abbrev fill_card : (Text → Text) → Text → List MetricSeries → Option MetricCard → MetricCard
fill_card format name series none =
    let info = detect_metric_info name in
    record (new_card name) {
      series = series;
      loading = false;
      last_value = last_value_of format series;
      unit = info.unit;
    }
fill_card format name series (some c) =
    let info = detect_metric_info name in
    record c {
      series = series;
      loading = false;
      error = none;
      last_value = last_value_of format series;
      unit = info.unit;
    }

-- `if (existing) next.set(...)`.
abbrev fail_card : Text → Text → Option MetricCard → Cards → Cards
fail_card name message none cards = cards
fail_card name message (some c) cards =
    put name (record c { loading = false; error = some message }) cards

abbrev accept_series : (Text → Text) → Text → Outcome (List MetricSeries) → Cards → Cards
accept_series format name (thrown message) cards = fail_card name message (get name cards) cards
accept_series format name (resolved series) cards =
    put name (fill_card format name series (get name cards)) cards

abbrev accept_raw :
    (Text → Outcome (List MetricSeries)) → (Text → Text) → Text → Option Text → Cards → Cards
accept_raw parse format name none cards = cards
accept_raw parse format name (some raw) cards = accept_series format name (parse raw) cards

-- `fetchMetricData`, from the answer on.
pub metric_arrived :
    (Text → Outcome (List MetricSeries))
    → (Text → Text)
    → Text
    → Outcome QueryAnswer
    → Cards
    → Cards
metric_arrived parse format name (thrown message) cards =
    fail_card name message (get name cards) cards
metric_arrived parse format name (resolved a) cards =
    accept_raw parse format name (accepted a) cards

-- The two loops of the effect that fetches the visible metrics.
pub add_cards : List Text → Cards → Cards
add_cards [] cards = cards
add_cards (name ∷ names) cards =
    add_cards names (if is_some (get name cards) then cards else put name (new_card name) cards)

abbrev set_loading : Text → Option MetricCard → Cards → Cards
set_loading name none cards = cards
set_loading name (some c) cards = put name (record c { loading = true }) cards

pub load_cards : List Text → Cards → Cards
load_cards [] cards = cards
load_cards (name ∷ names) cards = load_cards names (set_loading name (get name cards) cards)
