-- ===== src/Metrics/Explorer/Listing/Laws.antt =====
-- The badges of the types (frontend/src/pages/monitor/PrometheusMetrics.tsx).
use mrboard.Shared.{
  ◌≡◌, ◌∙◌, refl, ◌+◌, Option, none, some, List, [], ◌∷◌, if◌then◌else◌, arith, Text, keep, length,
}
use mrboard.Metrics.AutoQuery.{MetricType, detect_metric_info}
use mrboard.Metrics.Explorer.{Explorer}
use mrboard.Metrics.Explorer.Listing.{
  has_type, same_type, filtered_metrics, TypeCounts, no_counts, count_one, count_types, type_counts,
  count_of, set_type_filter, set_metric_search,
}

count_one_lem :
    (t u : MetricType) (c : TypeCounts)
    → count_of (some t) (count_one u c) ≡ count_of (some t) c + (if same_type u t then 1 else 0)
count_one_lem t u c = ground arith

all-count_one : (u : MetricType) (c : TypeCounts) → (count_one u c).all ≡ c.all
all-count_one u c = ground arith

count_types_lem :
    (t : MetricType) (names : List Text) (c : TypeCounts)
    → count_of (some t) (count_types names c)
      ≡ count_of (some t) c + length (keep (has_type t) names)
unfolding count_types keep
count_types_lem t [] c = omega arith
count_types_lem t (n ∷ names) c =
    let u = (detect_metric_info n).type in
    ground (arith, count_types_lem t names (count_one u c), count_one_lem t u c)

all-count_types : (names : List Text) (c : TypeCounts) → (count_types names c).all ≡ c.all
unfolding count_types
all-count_types [] c = refl
all-count_types (n ∷ names) c =
    let u = (detect_metric_info n).type in all-count_types names (count_one u c) ∙ all-count_one u c

no_count : (t : MetricType) (names : List Text) → count_of (some t) (no_counts names) ≡ 0
no_count t names = ground arith

-- The number on the button of a type, or of all, is that of the metrics that the button shows when
-- the search box is empty.
pub type_counts_lem :
    (lower : Text → Text) (t : Option MetricType) (s : Explorer)
    → count_of t (type_counts s)
      ≡ length (filtered_metrics lower (set_type_filter t (set_metric_search [] s)))
unfolding type_counts filtered_metrics set_type_filter set_metric_search
type_counts_lem lower none s = all-count_types s.all_metric_names (no_counts s.all_metric_names)
type_counts_lem lower (some t) s = omega (
  arith,
  count_types_lem t s.all_metric_names (no_counts s.all_metric_names),
  no_count t s.all_metric_names,
)
