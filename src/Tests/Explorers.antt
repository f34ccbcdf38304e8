-- ===== src/Tests/Explorers.antt =====
-- The metrics explorer at concrete inputs (frontend/src/pages/monitor/PrometheusMetrics.tsx).
use mrboard.Shared.{
  is_space, ◌≡◌, refl, true, [], nat_eq, Text, text_eq, lit, split, split_from, contains, keep,
}
use mrboard.Metrics.AutoQuery.{auto_query, query_of, detect_metric_info, detect_parts, infer_unit}
use mrboard.Metrics.SearchBox.{matches_search, words, words_from, has_all}

abbrev metric : Text
metric = lit "http_requests_total"

query_test : auto_query metric [] (lit "pod") ≡ lit "sum(rate(http_requests_total[5m])) by (pod)"
unfolding auto_query query_of detect_metric_info detect_parts infer_unit split split_from
query_test = refl

abbrev same : Text → Text
same s = s

search_test : matches_search same metric (lit "total http") ≡ true
unfolding matches_search words words_from is_space has_all contains keep
search_test = refl
