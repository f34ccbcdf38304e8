-- ===== src/Metrics/Chart.antt =====
-- The points of the chart, `MetricTimeSeriesChart` of
-- frontend/src/pages/monitor/PrometheusMetrics.tsx. Times are whole seconds; a sample's value is the
-- text that parseFloat reads.
pub mod Laws
use mrboard.Shared.{
  ℕ, ◌++◌, Bool, true, false, not, Option, none, some, List, [], ◌∷◌, map, if◌then◌else◌, ◌==◌, leb,
  nat_eq, Text, text_eq, lit,
}
use mrboard.Shared.Assoc.{get}
use mrboard.Shared.Members.{add_member}
use mrboard.Shared.Sort.{sort_by}

pub record MetricSeries : Type 0 where
  pub metric : List (Text × Text)
  pub samples : List (ℕ × Text)

-- The two loops that fill the set of times.
add_times : List (ℕ × Text) → List ℕ → List ℕ
add_times [] times = times
add_times ((t, v) ∷ samples) times = add_times samples (add_member t times)

all_times : List MetricSeries → List ℕ → List ℕ
all_times [] times = times
all_times (s ∷ series) times = all_times series (add_times s.samples times)

timestamps : List MetricSeries → List ℕ
timestamps series = sort_by leb (all_times series [])

-- A point of the chart: a value for each series, or null.
pub record Point : Type 0 where
  pub time : ℕ
  pub values : List (Option Text)

-- `s.values.find(([vt]) => vt === t)`, for each series.
abbrev values_at : ℕ → List MetricSeries → List (Option Text)
values_at t [] = []
values_at t (s ∷ series) = get t s.samples ∷ values_at t series

chart_data : List MetricSeries → List Point
chart_data series = map (λ t. record { time = t; values = values_at t series }) (timestamps series)
