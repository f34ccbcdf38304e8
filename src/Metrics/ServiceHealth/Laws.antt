-- ===== src/Metrics/ServiceHealth/Laws.antt =====
-- What the table of the services shows (frontend/src/pages/monitor/ServiceHealth.tsx).
use mrboard.Shared.{
  ◌≡◌, refl, ap, ◌∙◌, ℕ, ◌+◌, ◌-◌, ◌||◌, Option, none, some, List, [], ◌∷◌, map, if◌then◌else◌,
  arith, ltb, Text, text_eq, text_beq_iff, ◌==◌, is_some, All, Bool-cases, inl, inr,
}
use mrboard.Shared.Numbers.{Number, positive, negative}
use mrboard.Shared.Assoc.{get, put, get-put}
use mrboard.Shared.Members.{includes}
use mrboard.Shared.Sort.{All-sort_by}
use mrboard.Metrics.ServiceHealth.{
  Float, add, Health, healthy, warning, critical, ServiceMetric, PrometheusResult, RawAnswer,
  ServiceMap, service_of, or_new, health_of, judge, is_busier, parse_raw, value_of, add_rate,
  add_rates, set_latency, set_latencies, service_map, services_of,
}

-- The sum of two numbers, by what they add and what they take away; NaN if one of them is.
abbrev gain : Number → ℕ
gain (positive a) = a
gain (negative a) = 0

abbrev loss : Number → ℕ
loss (positive a) = 0
loss (negative a) = a

abbrev plus : Float → Float → Float
plus none y = none
plus (some x) none = none
plus (some (negative a)) (some (negative b)) = some (negative (a + b))
plus (some x) (some y) =
    let up = gain x + gain y in
    let down = loss x + loss y in
    some (if ltb up down then negative (down - up) else positive (up - down))

add-plus : (x y : Float) → add x y ≡ plus x y
add-plus none y = refl
add-plus (some x) none = refl
add-plus (some (positive a)) (some (positive b)) = ground arith
add-plus (some (positive a)) (some (negative b)) = ground arith
add-plus (some (negative a)) (some (positive b)) = ground arith
add-plus (some (negative a)) (some (negative b)) = refl

-- The abstract view of a map: what it says of a service.
abbrev pub rate_in : Option ServiceMetric → Float
rate_in none = some (positive 0)
rate_in (some m) = m.request_rate

abbrev pub latency_in : Option ServiceMetric → Float
latency_in none = some (positive 0)
latency_in (some m) = m.p99_latency

-- The health by the latency alone: more than 1 s, more than 0.5 s; NaN is neither.
abbrev health_by_latency : Float → Health
health_by_latency none = healthy
health_by_latency (some (negative n)) = healthy
health_by_latency (some (positive n)) =
    if ltb 1000000 n then critical else if ltb 500000 n then warning else healthy

abbrev pub IsJudged : ServiceMetric → Type 0
IsJudged m = (m.error_rate ≡ some (positive 0)) × (m.health ≡ health_by_latency m.p99_latency)

module _ (parse : Text → Option (List PrometheusResult)) (number : Text → Float) where
  -- The sum of a number and of the values of the series of a service, as they come.
  abbrev pub total_of : Text → Float → List PrometheusResult → Float
  total_of svc n [] = n
  total_of svc n (r ∷ rs) =
      total_of svc (if service_of r == svc then plus n (value_of parse number r) else n) rs

  -- The value of the last series of a service, or another number.
  abbrev pub last_of : Text → Float → List PrometheusResult → Float
  last_of svc n [] = n
  last_of svc n (r ∷ rs) =
      last_of svc (if service_of r == svc then value_of parse number r else n) rs

  add_rates_lem :
      (svc : Text) (rs : List PrometheusResult) (m : ServiceMap)
      → (rate_in (get svc (add_rates parse number rs m)) ≡ total_of svc (rate_in (get svc m)) rs)
        × (latency_in (get svc (add_rates parse number rs m)) ≡ latency_in (get svc m))
        × (is_some (get svc (add_rates parse number rs m))
            ≡ (is_some (get svc m) || includes (map service_of rs) svc))
  unfolding add_rates includes
  add_rates_lem svc [] m = ground arith
  add_rates_lem svc (r ∷ rs) m =
      let s = service_of r in
      let c = add_rate parse number r (or_new s (get s m)) in
      let ih = add_rates_lem svc rs (put s c m) in
      ground (
        arith,
        ih,
        get-put s svc c m,
        text_beq_iff s svc,
        add-plus (rate_in (get s m)) (value_of parse number r),
      )

  set_latencies_lem :
      (svc : Text) (rs : List PrometheusResult) (m : ServiceMap)
      → (rate_in (get svc (set_latencies parse number rs m)) ≡ rate_in (get svc m))
        × (latency_in (get svc (set_latencies parse number rs m))
            ≡ last_of svc (latency_in (get svc m)) rs)
        × (is_some (get svc (set_latencies parse number rs m))
            ≡ (is_some (get svc m) || includes (map service_of rs) svc))
  unfolding set_latencies includes
  set_latencies_lem svc [] m = ground arith
  set_latencies_lem svc (r ∷ rs) m =
      let s = service_of r in
      let c = set_latency parse number r (or_new s (get s m)) in
      let ih = set_latencies_lem svc rs (put s c m) in
      ground (arith, ih, get-put s svc c m, text_beq_iff s svc)

  -- The map holds exactly the services that have a series of rates or of latencies: of each, the sum
  -- of the rates of all its series, which is NaN if one of them is, and the latency of its last series,
  -- 0 where it has none.
  pub service_map_lem :
      (rates latencies : List PrometheusResult) (svc : Text)
      → (rate_in (get svc (service_map parse number rates latencies))
          ≡ total_of svc (some (positive 0)) rates)
        × (latency_in (get svc (service_map parse number rates latencies))
            ≡ last_of svc (some (positive 0)) latencies)
        × (is_some (get svc (service_map parse number rates latencies))
            ≡ (includes (map service_of rates) svc || includes (map service_of latencies) svc))
  unfolding service_map get
  service_map_lem rates latencies svc =
      let (r, l, k) = add_rates_lem svc rates [] in
      let (r', l', k') = set_latencies_lem svc latencies (add_rates parse number rates []) in
      (
        r' ∙ r,
        l' ∙ ap (λ n. last_of svc n latencies) l,
        k' ∙ ap (λ b. b || includes (map service_of latencies) svc) k,
      )

  module _ (P : ServiceMetric → Type 0) (fresh : (svc : Text) → P (or_new svc none)) where
    -- What every entry of a map has.
    abbrev pub HasAll : ServiceMap → Type 0
    HasAll = All (λ e. P e.1)

    put-HasAll :
        (svc : Text) (c : ServiceMetric) (m : ServiceMap) → P c → HasAll m → HasAll (put svc c m)
    unfolding put
    put-HasAll svc c [] h all = (h, tt)
    put-HasAll svc c ((j, d) ∷ m) h (k, all) = elim (Bool-cases (j == svc)) [
      | inl e ↦ rw e (h, all)
      | inr e ↦ rw e (k, put-HasAll svc c m h all)
    ]

    or_new-P : (svc s : Text) (m : ServiceMap) → HasAll m → P (or_new s (get svc m))
    unfolding get
    or_new-P svc s [] all = fresh s
    or_new-P svc s ((j, d) ∷ m) (k, all) = elim (Bool-cases (j == svc)) [
      | inl e ↦ rw e k
      | inr e ↦ rw e (or_new-P svc s m all)
    ]

    pub add_rates-HasAll :
        (rs : List PrometheusResult) (m : ServiceMap)
        → All (λ r. (c : ServiceMetric) → P c → P (add_rate parse number r c)) rs
        → HasAll m
        → HasAll (add_rates parse number rs m)
    unfolding add_rates
    add_rates-HasAll [] m keeps all = all
    add_rates-HasAll (r ∷ rs) m (k, keeps) all =
        let s = service_of r in
        let c = or_new s (get s m) in
        add_rates-HasAll rs (put s (add_rate parse number r c) m) keeps
          (put-HasAll s (add_rate parse number r c) m (k c (or_new-P s s m all)) all)

    pub set_latencies-HasAll :
        (rs : List PrometheusResult) (m : ServiceMap)
        → ((r : PrometheusResult) (c : ServiceMetric) → P c → P (set_latency parse number r c))
        → HasAll m
        → HasAll (set_latencies parse number rs m)
    unfolding set_latencies
    set_latencies-HasAll [] m keeps all = all
    set_latencies-HasAll (r ∷ rs) m keeps all =
        let s = service_of r in
        let c = or_new s (get s m) in
        set_latencies-HasAll rs (put s (set_latency parse number r c) m) keeps
          (put-HasAll s (set_latency parse number r c) m (keeps r c (or_new-P s s m all)) all)

  abbrev HasNoErrors : ServiceMetric → Type 0
  HasNoErrors m = m.error_rate ≡ some (positive 0)

  keeps_errors :
      (rs : List PrometheusResult)
      → All (λ r. (c : ServiceMetric) → HasNoErrors c → HasNoErrors (add_rate parse number r c)) rs
  keeps_errors [] = tt
  keeps_errors (r ∷ rs) = ((λ c h. h), keeps_errors rs)

  health_of-health_by_latency : (n : Float) → health_of (some (positive 0)) n ≡ health_by_latency n
  unfolding health_of
  health_of-health_by_latency none = refl
  health_of-health_by_latency (some (negative n)) = refl
  health_of-health_by_latency (some (positive n)) = ground arith

  judge-IsJudged : (m : ServiceMap) → All (λ e. HasNoErrors e.1) m → All IsJudged (map judge m)
  judge-IsJudged [] all = tt
  judge-IsJudged ((j, c) ∷ m) (h, all) = (
    (h, ap (λ x. health_of x c.p99_latency) h ∙ health_of-health_by_latency c.p99_latency),
    judge-IsJudged m all,
  )

  -- Whatever the requests bring, each service of the table has the error rate 0, so that its health is
  -- decided by its latency alone, and the thresholds of the error rate are never met.
  pub services_of-IsJudged :
      (rate_res latency_res : RawAnswer)
      → All IsJudged (services_of parse number rate_res latency_res)
  unfolding services_of service_map
  services_of-IsJudged rate_res latency_res =
      let rates = parse_raw parse number rate_res in
      let latencies = parse_raw parse number latency_res in
      let added = add_rates parse number rates [] in
      All-sort_by is_busier IsJudged (map judge (set_latencies parse number latencies added)) (
        judge-IsJudged (set_latencies parse number latencies added) (
          set_latencies-HasAll HasNoErrors (λ svc. refl) latencies added (λ r c h. h)
            (add_rates-HasAll HasNoErrors (λ svc. refl) rates [] (keeps_errors rates) tt)))
