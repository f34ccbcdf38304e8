-- ===== src/Metrics/ServiceHealth.antt =====
-- The health of the services, `ServiceHealth` of frontend/src/pages/monitor/ServiceHealth.tsx. `parse`
-- gives the results of JSON.parse, none where it throws or they are missing; `number` is parseFloat, in
-- millionths, which a value is taken to be a whole number of, and none where it is NaN, as of the "NaN"
-- and "+Inf" of Prometheus. Rounding and Infinity are not modelled.
pub mod Laws
pub mod Order
use mrboard.Shared.{
  ℕ, ◌+◌, ◌-◌, Bool, true, false, not, ◌&&◌, ◌||◌, Option, none, some, List, [], ◌∷◌, map,
  if◌then◌else◌, leb, ltb, Text, text_eq, ◌==◌, lit, is_truthy,
}
use mrboard.Shared.Numbers.{Number, positive, negative}
use mrboard.Shared.Assoc.{get, put}
use mrboard.Shared.Sort.{sort_by}
use mrboard.Session.Api.{Outcome, resolved, thrown}
use mrboard.Ai.Stream.{or_text}

-- A number of JavaScript, none for NaN.
abbrev pub Float : Type 0
Float = Option Number

abbrev pub add_number : Number → Number → Number
add_number (positive a) (positive b) = positive (a + b)
add_number (negative a) (negative b) = negative (a + b)
add_number (positive a) (negative b) = if leb b a then positive (a - b) else negative (b - a)
add_number (negative a) (positive b) = if leb a b then positive (b - a) else negative (a - b)

abbrev negate : Number → Number
negate (positive a) = negative a
negate (negative a) = positive a

-- `a + b` and `a - b`.
abbrev pub add : Float → Float → Float
add (some a) (some b) = some (add_number a b)
add _ _ = none

abbrev sub : Float → Float → Float
sub (some a) (some b) = some (add_number a (negate b))
sub _ _ = none

-- `a > n`, which does not hold of NaN.
abbrev pub is_above : ℕ → Float → Bool
is_above n none = false
is_above n (some (positive a)) = ltb n a
is_above n (some (negative a)) = false

pub data Health : Type 0 where
  healthy warning critical : Health

pub record ServiceMetric : Type 0 where
  pub service : Text
  pub request_rate : Float
  pub error_rate : Float
  pub p99_latency : Float
  pub health : Health

-- The labels of a series, and the text of its value if it has one.
pub record PrometheusResult : Type 0 where
  pub metric : List (Text × Text)
  pub value : Option Text

pub record RawAnswer : Type 0 where
  pub is_ok : Bool
  pub raw : Text

-- `Map<string, ServiceMetric>`.
abbrev pub ServiceMap : Type 0
ServiceMap = List (Text × ServiceMetric)

abbrev or_empty : Option Text → Text
or_empty none = []
or_empty (some t) = t

-- `r.metric.service || r.metric.job || 'unknown'`.
unfoldable pub service_of : PrometheusResult → Text
service_of r =
    or_text (or_empty (get (lit "service") r.metric))
      (or_text (or_empty (get (lit "job") r.metric)) (lit "unknown"))

abbrev new_metric : Text → ServiceMetric
new_metric svc = record {
  service = svc;
  request_rate = some (positive 0);
  error_rate = some (positive 0);
  p99_latency = some (positive 0);
  health = healthy;
}

-- The entry of a service, new if there is none.
abbrev or_new : Text → Option ServiceMetric → ServiceMetric
or_new svc none = new_metric svc
or_new svc (some m) = m

-- The thresholds: more than 5 and 1 per cent of errors, more than 1 s and 0.5 s.
unfoldable health_of : Float → Float → Health
health_of error_rate p99_latency =
    if is_above 5000000 error_rate || is_above 1000000 p99_latency
    then critical
    else if is_above 1000000 error_rate || is_above 500000 p99_latency
    then warning
    else healthy

abbrev judge : Text × ServiceMetric → ServiceMetric
judge (svc, m) = record m { health = health_of m.error_rate m.p99_latency }

-- The comparator `b.requestRate - a.requestRate` of the table does not put b before a. Where rates are
-- NaN it is no order, and the language leaves open what sort does; the model sorts by insertion.
abbrev is_busier : ServiceMetric → ServiceMetric → Bool
is_busier a b = not (is_above 0 (sub b.request_rate a.request_rate))

module _ (parse : Text → Option (List PrometheusResult)) (number : Text → Float) where
  -- `parseRaw`; a request that failed has a code other than 0.
  abbrev results_of : Option (List PrometheusResult) → List PrometheusResult
  results_of none = []
  results_of (some rs) = rs

  unfoldable pub parse_raw : RawAnswer → List PrometheusResult
  parse_raw a = if a.is_ok && is_truthy a.raw then results_of (parse a.raw) else []

  -- `parseFloat(r.value?.[1] || '0')`.
  abbrev pub value_of : PrometheusResult → Float
  value_of r = number (or_text (or_empty r.value) (lit "0"))

  abbrev add_rate : PrometheusResult → ServiceMetric → ServiceMetric
  add_rate r m = record m { request_rate = add m.request_rate (value_of r) }

  unfoldable add_rates : List PrometheusResult → ServiceMap → ServiceMap
  add_rates [] m = m
  add_rates (r ∷ rs) m =
      let svc = service_of r in add_rates rs (put svc (add_rate r (or_new svc (get svc m))) m)

  abbrev set_latency : PrometheusResult → ServiceMetric → ServiceMetric
  set_latency r m = record m { p99_latency = value_of r }

  unfoldable set_latencies : List PrometheusResult → ServiceMap → ServiceMap
  set_latencies [] m = m
  set_latencies (r ∷ rs) m =
      let svc = service_of r in
      set_latencies rs (put svc (set_latency r (or_new svc (get svc m))) m)

  pub service_map : List PrometheusResult → List PrometheusResult → ServiceMap
  service_map rates latencies = set_latencies latencies (add_rates rates [])

  -- What `fetchHealth` shows for the answers of its requests for rates and for latencies; the answer of
  -- the one for cpu is not read.
  pub services_of : RawAnswer → RawAnswer → List ServiceMetric
  services_of rate_res latency_res =
      sort_by is_busier (map judge (service_map (parse_raw rate_res) (parse_raw latency_res)))
