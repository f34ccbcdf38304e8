-- ===== src/Hooks/UseTraceMetrics.antt =====
-- `useTraceMetrics`, frontend/src/hooks/useTraceMetrics.ts, and the requests that it and its siblings
-- send (`fetchREDMetrics` and `fetchTraceMetricsQueryRange` of frontend/src/lib/api.ts). Times are
-- seconds, and `print` is JavaScript's printing of a number.
pub mod Laws
use mrboard.Shared.{
  ℕ, ◌-◌, ◌/◌, ◌++◌, Bool, true, false, Option, none, some, List, [], ◌∷◌, if◌then◌else◌, ◌==◌, leb,
  nat_beq, Text, text_eq, lit, is_truthy,
}
use mrboard.Session.Api.{Outcome, resolved, thrown}

-- `REDServiceMetrics`; a sample is a time and a text.
pub record ServiceMetrics : Type 0 where
  pub service_name : Text
  pub rate : List (ℕ × Text)
  pub error_rate : List (ℕ × Text)
  pub duration_p99 : List (ℕ × Text)

pub record TraceMetrics : Type 0 where
  pub services : List ServiceMetrics
  pub loading : Bool
  pub error : Option Text

-- `TIME_RANGE_MAP[timeRange] || 3600`.
duration_of : Text → ℕ
duration_of range =
    if range == lit "5m"
    then 300
    else if range == lit "15m"
    then 900
    else if range == lit "1h"
    then 3600
    else if range == lit "6h"
    then 21600
    else if range == lit "24h"
    then 86400
    else 3600

get_step_for_duration : ℕ → ℕ
get_step_for_duration duration =
    if leb duration 300
    then 15
    else if leb duration 900
    then 30
    else if leb duration 3600
    then 60
    else if leb duration 21600
    then 300
    else 600

-- `...(value && { name: value })`.
abbrev optional_pair : Text → Option Text → List (Text × Text)
optional_pair name none = []
optional_pair name (some v) = if is_truthy v then (name, v) ∷ [] else []

unfoldable red_metrics_query :
    (cluster_id start end_time : Text) → (service step : Option Text) → List (Text × Text)
red_metrics_query cluster_id start end_time service step =
    (lit "clusterId", cluster_id)
    ∷ (lit "start", start)
    ∷ (lit "end", end_time)
    ∷ (optional_pair (lit "service") service ++ optional_pair (lit "step") step)

unfoldable query_range_query :
    (cluster_id query start end_time : Text) → Option Text → List (Text × Text)
query_range_query cluster_id query start end_time step =
    (lit "clusterId", cluster_id)
    ∷ (lit "query", query)
    ∷ (lit "start", start)
    ∷ (lit "end", end_time)
    ∷ optional_pair (lit "step") step

-- `fetchMetrics` up to the answer; `now` is `Date.now()`, in milliseconds.
unfoldable fetch_metrics :
    (ℕ → Text)
    → ℕ
    → Text
    → Option Text
    → Text
    → TraceMetrics
    → TraceMetrics × Option (List (Text × Text))
fetch_metrics print now cluster_id service range s =
    let duration = duration_of range in
    let end_time = now / 1000 in
    if is_truthy cluster_id
    then (
      record s { loading = true; error = none },
      some (
          red_metrics_query cluster_id (print (end_time - duration)) (print end_time) service
            (some (print (get_step_for_duration duration)))),
    )
    else (s, none)

pub record MetricsAnswer : Type 0 where
  pub code : ℕ
  pub services : Option (List ServiceMetrics)

abbrev services_or : Option (List ServiceMetrics) → List ServiceMetrics
services_or none = []
services_or (some xs) = xs

-- `fetchMetrics` from the answer on.
unfoldable metrics_arrived : Outcome MetricsAnswer → TraceMetrics → TraceMetrics
metrics_arrived (resolved r) s =
    if nat_beq r.code 0
    then record { services = services_or r.services; loading = false; error = none }
    else record { services = []; loading = false; error = some (lit "Failed to fetch metrics") }
metrics_arrived (thrown message) s = record { services = []; loading = false; error = some message }
