-- ===== src/Metrics/Chart/Laws.antt =====
-- The chart has a point for each time of a sample, in order
-- (frontend/src/pages/monitor/PrometheusMetrics.tsx).
use mrboard.Shared.{
  ◌≡◌, ◌∙◌, refl, ap, sym, subst, ℕ, Bool, false, ◌||◌, List, [], ◌∷◌, map, arith, leb, nat_eq,
  Text, is_some,
}
use mrboard.Shared.Assoc.{get}
use mrboard.Shared.Members.{includes, add_member, includes-add_member}
use mrboard.Shared.Sort.{sort_by, IsSortedBy, sort_by-IsSortedBy, includes-sort_by}
use mrboard.Metrics.Chart.{
  MetricSeries, Point, add_times, all_times, timestamps, values_at, chart_data,
}

abbrev is_sampled : List MetricSeries → ℕ → Bool
is_sampled [] t = false
is_sampled (s ∷ series) t = is_some (get t s.samples) || is_sampled series t

includes-add_times :
    (samples : List (ℕ × Text)) (times : List ℕ) (t : ℕ)
    → includes (add_times samples times) t ≡ (includes times t || is_some (get t samples))
unfolding add_times get
includes-add_times [] times t = ground arith
includes-add_times ((u, v) ∷ samples) times t =
    ground (arith, includes-add_times samples (add_member u times) t, includes-add_member times u t)

includes-all_times :
    (series : List MetricSeries) (times : List ℕ) (t : ℕ)
    → includes (all_times series times) t ≡ (includes times t || is_sampled series t)
unfolding all_times
includes-all_times [] times t = ground arith
includes-all_times (s ∷ series) times t = ground (
  arith,
  includes-all_times series (add_times s.samples times) t,
  includes-add_times s.samples times t,
)

time_of-points :
    (series : List MetricSeries) (times : List ℕ)
    → map
        (λ (p : Point). p.time)
        (map (λ t. record { time = t; values = values_at t series }) times)
      ≡ times
time_of-points series [] = refl
time_of-points series (t ∷ times) = ap (λ l. t ∷ l) (time_of-points series times)

abbrev times : List Point → List ℕ
times points = map (λ p. p.time) points

-- The points of the chart stand in the order of their times, and a time has a point exactly if some
-- series has a sample at it.
chart_data_lem :
    (series : List MetricSeries) (t : ℕ)
    → IsSortedBy leb (times (chart_data series))
      × (includes (times (chart_data series)) t ≡ is_sampled series t)
unfolding chart_data timestamps includes
chart_data_lem series t =
    let all = all_times series [] in
    let same = time_of-points series (sort_by leb all) in
    (
      subst (IsSortedBy leb) (sym same)
          (sort_by-IsSortedBy leb (λ a b h. ground arith) (λ a b c h k. ground arith) all),
      ap (λ l. includes l t) same ∙ (includes-sort_by leb t all ∙ includes-all_times series [] t),
    )
