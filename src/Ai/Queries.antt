-- ===== src/Ai/Queries.antt =====
-- The queries that the analysis page announces for an alert, `buildQueries` of
-- frontend/src/pages/ai/AIAnalysis.tsx; icons and colours are left out. `lower` is toLowerCase.
pub mod Laws
use mrboard.Shared.{◌++◌, Bool, ◌||◌, List, [], ◌∷◌, if◌then◌else◌, Text, lit, contains}
use mrboard.Ai.Stream.{or_text}
use mrboard.Ai.Analysis.{SelectedAlert}

pub record Query : Type 0 where
  pub query : Text
  pub label : Text

-- The name holds one of the two words.
abbrev names_one : Text → Text → Text → Bool
names_one name a b = contains a name || contains b name

abbrev loki : Text → Text → Query
loki ns words = record {
  query = lit "{namespace=\"" ++ (ns ++ (lit "\", container!=\"\"} |= " ++ words));
  label = lit "Loki 日志";
}

abbrev prometheus : Text → Text → Text → Query
prometheus before ns after = record {
  query = before ++ (lit "{namespace=\"" ++ (ns ++ (lit "\"}" ++ after)));
  label = lit "Prometheus";
}

build_queries : (Text → Text) → SelectedAlert → List Query
build_queries lower alert =
    let ns = or_text alert.namespace (lit "default") in
    let name = lower alert.name in
    let memory = names_one name (lit "oom") (lit "memory") in
    (if memory
      then loki ns (lit "\"OOMKilled\" or |= \"memory\"")
      else if names_one name (lit "crash") (lit "restart")
      then loki ns (lit "\"Error\" or |= \"panic\" or |= \"fatal\"")
      else loki ns (lit "\"error\""))
    ∷ (if memory
        then prometheus (lit "container_memory_working_set_bytes") ns []
        else if names_one name (lit "cpu") (lit "throttl")
        then prometheus (lit "rate(container_cpu_usage_seconds_total") ns (lit "[5m])")
        else prometheus (lit "rate(http_requests_total") ns (lit "[5m])"))
    ∷ record { query = lit "service=\"" ++ (ns ++ lit "\""); label = lit "Tempo 链路" }
    ∷ record { query = lit "kubectl get pods -n " ++ ns; label = lit "K8S Pod" }
    ∷ []
