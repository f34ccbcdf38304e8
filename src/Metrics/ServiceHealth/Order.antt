-- ===== src/Metrics/ServiceHealth/Order.antt =====
-- The order of the table of the services (frontend/src/pages/monitor/ServiceHealth.tsx).
use mrboard.Shared.{
  ◌≡◌, refl, sym, subst, ◌+◌, Bool, true, false, not, Option, none, some, is_some, List, [], ◌∷◌,
  map, arith, leb, Text, All,
}
use mrboard.Shared.Numbers.{Number, positive, negative}
use mrboard.Shared.Sort.{IsSortedBy, sort_by-IsSortedBy, sort_by_congr}
use mrboard.Metrics.ServiceHealth.{
  Float, add, sub, is_above, ServiceMetric, PrometheusResult, RawAnswer, ServiceMap, judge,
  is_busier, parse_raw, value_of, add_rate, add_rates, set_latencies, service_map, services_of,
}
use mrboard.Metrics.ServiceHealth.Laws.{add_rates-HasAll, set_latencies-HasAll}

-- The order of the numbers, with -0 as 0, and NaN before them all.
abbrev at_most : Float → Float → Bool
at_most none y = true
at_most (some x) none = false
at_most (some (positive a)) (some (positive b)) = leb a b
at_most (some (positive a)) (some (negative b)) = leb (a + b) 0
at_most (some (negative a)) (some (positive b)) = true
at_most (some (negative a)) (some (negative b)) = leb b a

abbrev pub highest_first : ServiceMetric → ServiceMetric → Bool
highest_first a b = at_most b.request_rate a.request_rate

abbrev pub IsNumber : Float → Type 0
IsNumber x = is_some x ≡ true

abbrev HasRate : ServiceMetric → Type 0
HasRate m = IsNumber m.request_rate

at_most_total : (x y : Float) → at_most y x ≡ false → at_most x y ≡ true
at_most_total none y h = refl
at_most_total (some x) none h = absurd (ground (arith, h))
at_most_total (some (positive a)) (some (positive b)) h = ground (arith, h)
at_most_total (some (positive a)) (some (negative b)) h = absurd (ground (arith, h))
at_most_total (some (negative a)) (some (positive b)) h = refl
at_most_total (some (negative a)) (some (negative b)) h = ground (arith, h)

number_trans :
    (x y z : Number)
    → at_most (some x) (some y) ≡ true
    → at_most (some y) (some z) ≡ true
    → at_most (some x) (some z) ≡ true
number_trans (positive a) (positive b) (positive c) h k = ground (arith, h, k)
number_trans (positive a) (positive b) (negative c) h k = ground (arith, h, k)
number_trans (positive a) (negative b) (positive c) h k = ground (arith, h, k)
number_trans (positive a) (negative b) (negative c) h k = ground (arith, h, k)
number_trans (negative a) (positive b) (positive c) h k = refl
number_trans (negative a) (positive b) (negative c) h k = ground (arith, h, k)
number_trans (negative a) (negative b) (positive c) h k = refl
number_trans (negative a) (negative b) (negative c) h k = ground (arith, h, k)

at_most_trans : (x y z : Float) → at_most x y ≡ true → at_most y z ≡ true → at_most x z ≡ true
at_most_trans none y z h k = refl
at_most_trans (some x) none z h k = absurd (ground (arith, h))
at_most_trans (some x) (some y) none h k = k
at_most_trans (some x) (some y) (some z) h k = number_trans x y z h k

-- The sign of the difference of two numbers is their order.
sub-at_most : (x y : Number) → not (is_above 0 (sub (some x) (some y))) ≡ at_most (some x) (some y)
sub-at_most (positive a) (positive b) = ground arith
sub-at_most (positive a) (negative b) = ground arith
sub-at_most (negative a) (positive b) = refl
sub-at_most (negative a) (negative b) = ground arith

Float-at_most : (x y : Float) → IsNumber x → IsNumber y → not (is_above 0 (sub y x)) ≡ at_most y x
Float-at_most none y h k = absurd (ground (arith, h))
Float-at_most (some x) none h k = absurd (ground (arith, k))
Float-at_most (some x) (some y) h k = sub-at_most y x

is_busier-highest_first :
    (a b : ServiceMetric) → HasRate a → HasRate b → is_busier a b ≡ highest_first a b
is_busier-highest_first a b h k = Float-at_most a.request_rate b.request_rate h k

add-IsNumber : (x y : Float) → IsNumber x → IsNumber y → IsNumber (add x y)
add-IsNumber none y h k = absurd (ground (arith, h))
add-IsNumber (some x) none h k = k
add-IsNumber (some x) (some y) h k = refl

judge-HasRate : (m : ServiceMap) → All (λ e. HasRate e.1) m → All HasRate (map judge m)
judge-HasRate [] all = tt
judge-HasRate ((j, c) ∷ m) (h, all) = (h, judge-HasRate m all)

module _ (parse : Text → Option (List PrometheusResult)) (number : Text → Float) where
  add_rate-HasRate :
      (rs : List PrometheusResult)
      → All (λ r. IsNumber (value_of parse number r)) rs
      → All (λ r. (c : ServiceMetric) → HasRate c → HasRate (add_rate parse number r c)) rs
  add_rate-HasRate [] all = tt
  add_rate-HasRate (r ∷ rs) (k, all) =
      ((λ c h. add-IsNumber c.request_rate (value_of parse number r) h k), add_rate-HasRate rs all)

  -- Where the value of each series of rates is a number, the table is ordered by the rates as numbers,
  -- negative ones included, the highest first.
  pub services_of-IsSortedBy :
      (rate_res latency_res : RawAnswer)
      → All (λ r. IsNumber (value_of parse number r)) (parse_raw parse number rate_res)
      → IsSortedBy highest_first (services_of parse number rate_res latency_res)
  unfolding services_of service_map
  services_of-IsSortedBy rate_res latency_res values =
      let rates = parse_raw parse number rate_res in
      let latencies = parse_raw parse number latency_res in
      let added = add_rates parse number rates [] in
      let m = set_latencies parse number latencies added in
      let all = judge-HasRate m (
        set_latencies-HasAll parse number HasRate (λ svc. refl) latencies added (λ r c h. h)
          (add_rates-HasAll parse number HasRate (λ svc. refl) rates []
            (add_rate-HasRate rates values) tt)) in
      subst (IsSortedBy highest_first)
        (sym
          (sort_by_congr is_busier highest_first HasRate is_busier-highest_first (map judge m) all))
        (sort_by-IsSortedBy highest_first (λ a b. at_most_total a.request_rate b.request_rate)
          (λ a b c h k. at_most_trans c.request_rate b.request_rate a.request_rate k h)
          (map judge m))
