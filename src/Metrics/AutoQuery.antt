-- ===== src/Metrics/AutoQuery.antt =====
-- The kind of a metric by its name, and the PromQL that is made for it: `detectMetricInfo`, `inferUnit`
-- and `autoQuery` of frontend/src/pages/monitor/PrometheusMetrics.tsx. Parts of a name that stand on
-- Object.prototype, such as "constructor", are outside the model.
pub mod Laws
use mrboard.Shared.{
  ℕ, zero, suc, ◌-◌, ◌++◌, Bool, true, false, ◌||◌, Option, none, some, List, [], ◌∷◌,
  if◌then◌else◌, ◌==◌, leb, Text, text_eq, lit, is_truthy, split, length, get_elem?,
}
use mrboard.Shared.Assoc.{get}

pub data MetricType : Type 0 where
  counter gauge histogram summary : MetricType

pub record MetricTypeInfo : Type 0 where
  pub type : MetricType
  pub unit : Text
  pub rate : Bool

abbrev unit_map : List (Text × Text)
unit_map =
    (lit "http", lit "requests")
    ∷ (lit "request", lit "requests")
    ∷ (lit "response", lit "responses")
    ∷ (lit "connection", lit "connections")
    ∷ (lit "message", lit "messages")
    ∷ (lit "packet", lit "packets")
    ∷ (lit "byte", lit "bytes")
    ∷ (lit "operation", lit "ops")
    ∷ (lit "query", lit "queries")
    ∷ (lit "error", lit "errors")
    ∷ (lit "job", lit "jobs")
    ∷ (lit "task", lit "tasks")
    ∷ []

abbrev or_blank : Option Text → Text
or_blank none = []
or_blank (some s) = s

-- `parts[i]`; the callers pass positions of the list.
abbrev part : List Text → ℕ → Text
part parts i = or_blank (get_elem? parts i)

unfoldable pub infer_unit : List Text → ℕ → Text
infer_unit parts end_idx =
    if leb 2 end_idx then or_blank (get (part parts (end_idx - 2)) unit_map) else []

-- A split is never empty.
unfoldable pub detect_parts : List Text → MetricTypeInfo
detect_parts parts =
    let n = length parts in
    let last = part parts (n - 1) in
    let second_last = if leb 2 n then part parts (n - 2) else [] in
    if last == lit "bucket"
    then record { type = histogram; unit = second_last; rate = false }
    else if last == lit "sum" || last == lit "count"
    then record { type = counter; unit = infer_unit parts (n - 1); rate = true }
    else if last == lit "total"
    then record { type = counter; unit = infer_unit parts (n - 1); rate = true }
    else if last == lit "created"
    then record { type = counter; unit = []; rate = true }
    else record { type = gauge; unit = infer_unit parts n; rate = false }

unfoldable pub detect_metric_info : Text → MetricTypeInfo
detect_metric_info name = detect_parts (split b'_' name)

abbrev selector : Text → Text → Text
selector metric filters =
    if is_truthy filters then metric ++ lit "{" ++ filters ++ lit "}" else metric

-- ` by (${groupBy})`, if it is given.
abbrev grouping : Text → Text
grouping group_by = if is_truthy group_by then lit " by (" ++ group_by ++ lit ")" else []

unfoldable pub query_of : MetricTypeInfo → Text → Text → Text → Text
query_of info metric filters group_by = elim info.type [
  | histogram ↦
      lit "histogram_quantile(0.99, sum(rate("
      ++ (metric
          ++ lit "{"
          ++ filters
          ++ lit "}[5m])) by (le"
          ++ (if is_truthy group_by then lit ", " ++ group_by else [])
          ++ lit "))")
  | _ ↦
      if info.rate
      then lit "sum(rate(" ++ (selector metric filters ++ lit "[5m]))" ++ grouping group_by)
      else lit "avg(" ++ (selector metric filters ++ lit ")" ++ grouping group_by)
]

-- A missing groupBy is ''.
unfoldable pub auto_query : Text → Text → Text → Text
auto_query metric filters group_by = query_of (detect_metric_info metric) metric filters group_by
