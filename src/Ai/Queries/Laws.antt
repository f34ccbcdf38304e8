-- ===== src/Ai/Queries/Laws.antt =====
-- The announced queries and the namespace (frontend/src/pages/ai/AIAnalysis.tsx).
use mrboard.Shared.{
  ◌≡◌, ◌∙◌, ap, ◌++◌, append-nil, append_assoc, sym, true, [], Text, lit, contains, All,
  contains-append, Bool, false, if◌then◌else◌,
}
use mrboard.Ai.Stream.{or_text}
use mrboard.Ai.Analysis.{SelectedAlert}
use mrboard.Ai.Queries.{Query, loki, prometheus, names_one, build_queries}

abbrev Names : Text → Query → Type 0
Names ns q = contains ns q.query ≡ true

loki-Names : (ns words : Text) → Names ns (loki ns words)
loki-Names ns words =
    contains-append ns (lit "{namespace=\"") (lit "\", container!=\"\"} |= " ++ words)

prometheus-Names : (before ns after : Text) → Names ns (prometheus before ns after)
prometheus-Names before ns after =
    ap (contains ns) (sym (append_assoc before (lit "{namespace=\"") (ns ++ (lit "\"}" ++ after))))
    ∙ contains-append ns (before ++ lit "{namespace=\"") (lit "\"}" ++ after)

if-Names :
    (b : Bool) (ns : Text) (p q : Query) → Names ns p → Names ns q → Names ns (if b then p else q)
if-Names true ns p q h k = h
if-Names false ns p q h k = k

-- Each query that the page announces names the namespace of the alert, or "default" where the alert
-- has none.
build_queries_lem :
    (lower : Text → Text) (alert : SelectedAlert)
    → All (Names (or_text alert.namespace (lit "default"))) (build_queries lower alert)
unfolding build_queries
build_queries_lem lower alert =
    let ns = or_text alert.namespace (lit "default") in
    let name = lower alert.name in
    let memory = names_one name (lit "oom") (lit "memory") in
    let is_cpu = names_one name (lit "cpu") (lit "throttl") in
    let memory_query = prometheus (lit "container_memory_working_set_bytes") ns [] in
    let cpu_query = prometheus (lit "rate(container_cpu_usage_seconds_total") ns (lit "[5m])") in
    let http_query = prometheus (lit "rate(http_requests_total") ns (lit "[5m])") in
    (
      if-Names memory ns _ _ (loki-Names ns _) (
          if-Names (names_one name (lit "crash") (lit "restart")) ns _ _ (loki-Names ns _)
            (loki-Names ns _)),
      (
        if-Names memory ns memory_query (if is_cpu then cpu_query else http_query)
            (prometheus-Names (lit "container_memory_working_set_bytes") ns [])
            (if-Names is_cpu ns cpu_query http_query
              (prometheus-Names (lit "rate(container_cpu_usage_seconds_total") ns (lit "[5m])"))
              (prometheus-Names (lit "rate(http_requests_total") ns (lit "[5m])"))),
        (
          contains-append ns (lit "service=\"") (lit "\""),
          (
            ap (λ t. contains ns (lit "kubectl get pods -n " ++ t)) (sym (append-nil ns))
                ∙ contains-append ns (lit "kubectl get pods -n ") [],
            tt,
          ),
        ),
      ),
    )
