-- ===== src/Metrics/AutoQuery/Laws.antt =====
-- Which function the query of a metric applies (frontend/src/pages/monitor/PrometheusMetrics.tsx).
use mrboard.Shared.{
  ◌≡◌, Bool, not, ◌||◌, ◌&&◌, arith, ◌==◌, Text, text_eq, lit, starts_with, split, length, ◌-◌,
}
use mrboard.Metrics.AutoQuery.{part, detect_parts, detect_metric_info, query_of, auto_query}

-- The last part of a metric's name.
abbrev suffix : Text → Text
suffix metric = part (split b'_' metric) (length (split b'_' metric) - 1)

abbrev counts : Text → Bool
counts s =
    not (s == lit "bucket")
    && (s == lit "sum" || (s == lit "count" || (s == lit "total" || s == lit "created")))

-- Whatever the filters and the grouping: the query of a metric starts as a quantile exactly if the last
-- part of its name is "bucket", as a sum of rates exactly if that is another of "sum", "count",
-- "total" and "created", and as an average exactly in all other cases.
auto_query_lem :
    (metric filters group_by : Text)
    → let query = auto_query metric filters group_by in
      (starts_with (lit "histogram_quantile(0.99, sum(rate(") query
        ≡ (suffix metric == lit "bucket"))
      × (starts_with (lit "sum(rate(") query ≡ counts (suffix metric))
      × (starts_with (lit "avg(") query
          ≡ not (suffix metric == lit "bucket" || counts (suffix metric)))
unfolding auto_query detect_metric_info detect_parts query_of
auto_query_lem metric filters group_by = (ground arith, ground arith, ground arith)
