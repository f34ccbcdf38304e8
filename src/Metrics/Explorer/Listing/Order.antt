-- ===== src/Metrics/Explorer/Listing/Order.antt =====
-- The order of the list (frontend/src/pages/monitor/PrometheusMetrics.tsx).
use mathlib.Core.Path.{fun_ext}
use mrboard.Shared.{
  ◌≡◌, refl, subst, ℕ, ◌+◌, Bool, true, false, not, ◌&&◌, Option, none, some, is_some, List, [],
  ◌∷◌, List-cases, inl, inr, if◌then◌else◌, ◌==◌, arith, Text, text_eq,
}
use mrboard.Shared.Assoc.{get}
use mrboard.Shared.Sort.{insert_by, sort_by, IsSortedBy, sort_by-IsSortedBy}
use mrboard.Metrics.Chart.{MetricSeries}
use mrboard.Metrics.Explorer.{MetricCard, Cards, Explorer}
use mrboard.Metrics.Explorer.Listing.{
  is_empty_card, is_empty, may_precede, filtered_metrics, sorted_metrics,
}

abbrev is_nonempty : List MetricSeries → Bool
is_nonempty [] = false
is_nonempty (_ ∷ _) = true

-- A metric has data if its card is there, does not wait, has no error, and has a series.
abbrev filled : Option MetricCard → Bool
filled none = false
filled (some c) = not c.loading && (not (is_some c.error) && is_nonempty c.series)

abbrev pub has_data : Cards → Text → Bool
has_data cards name = filled (get name cards)

-- Metrics with data come before those without, and those of one kind as their names collate.
abbrev pub comes_first : (Text → Text → Bool) → Cards → Text → Text → Bool
comes_first collate cards a b =
    if has_data cards a
    then if has_data cards b then collate a b else true
    else if has_data cards b
    then false
    else collate a b

is_empty_card-filled : (c : MetricCard) → is_empty_card (some c) ≡ not (filled (some c))
is_empty_card-filled c = elim (List-cases c.series) [
  | inl e ↦ ground (arith, e)
  | inr (x, xs, e) ↦ ground (arith, e)
]

filled_lem : (o : Option MetricCard) → is_empty_card o ≡ not (filled o)
filled_lem none = refl
filled_lem (some c) = is_empty_card-filled c

is_empty-has_data : (cards : Cards) (name : Text) → is_empty cards name ≡ not (has_data cards name)
unfolding is_empty
is_empty-has_data cards name = filled_lem (get name cards)

may_precede-comes_first :
    (collate : Text → Text → Bool) (cards : Cards) (a b : Text)
    → may_precede collate cards a b ≡ comes_first collate cards a b
unfolding may_precede
may_precede-comes_first collate cards a b =
    ground (arith, is_empty-has_data cards a, is_empty-has_data cards b)

-- How often a name is in a list.
abbrev pub times : Text → List Text → ℕ
times name [] = 0
times name (x ∷ xs) = (if x == name then 1 else 0) + times name xs

times-insert_by :
    (le : Text → Text → Bool) (name x : Text) (xs : List Text)
    → times name (insert_by le x xs) ≡ (if x == name then 1 else 0) + times name xs
unfolding insert_by
times-insert_by le name x [] = refl
times-insert_by le name x (y ∷ ys) = ground (arith, times-insert_by le name x ys)

times-sort_by :
    (le : Text → Text → Bool) (name : Text) (xs : List Text)
    → times name (sort_by le xs) ≡ times name xs
unfolding sort_by
times-sort_by le name [] = refl
times-sort_by le name (x ∷ xs) =
    omega (arith, times-insert_by le name x (sort_by le xs), times-sort_by le name xs)

module _ (collate : Text → Text → Bool)
    (total : (a b : Text) → collate a b ≡ false → collate b a ≡ true)
    (trans : (a b c : Text) → collate a b ≡ true → collate b c ≡ true → collate a c ≡ true) where
  may_precede_total :
      (cards : Cards) (a b : Text)
      → may_precede collate cards a b ≡ false
      → may_precede collate cards b a ≡ true
  unfolding may_precede
  may_precede_total cards a b h = ground (arith, h, total a b)

  may_precede_trans :
      (cards : Cards) (a b c : Text)
      → may_precede collate cards a b ≡ true
      → may_precede collate cards b c ≡ true
      → may_precede collate cards a c ≡ true
  unfolding may_precede
  may_precede_trans cards a b c h k = ground (arith, h, k, trans a b c)

  -- If localeCompare is an order of the names, the list shows the filtered metrics, each as often as
  -- it is there and no other, sorted: those with data before those without, and by name within both.
  pub sorted_metrics_lem :
      (lower : Text → Text) (s : Explorer) (name : Text)
      → IsSortedBy (comes_first collate s.metric_cards) (sorted_metrics collate lower s)
        × (times name (sorted_metrics collate lower s) ≡ times name (filtered_metrics lower s))
  unfolding sorted_metrics
  sorted_metrics_lem lower s name = (
    subst
        (λ le.
          IsSortedBy le (sort_by (may_precede collate s.metric_cards) (filtered_metrics lower s)))
        (fun_ext (λ a. fun_ext (λ b. may_precede-comes_first collate s.metric_cards a b)))
        (sort_by-IsSortedBy (may_precede collate s.metric_cards) (may_precede_total s.metric_cards)
          (may_precede_trans s.metric_cards) (filtered_metrics lower s)),
    times-sort_by (may_precede collate s.metric_cards) name (filtered_metrics lower s),
  )
