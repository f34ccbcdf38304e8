-- ===== src/Log/Viewer/Query.antt =====
-- The texts that the log viewer makes of its state: the LogQL that it shows and the query strings of
-- its requests (frontend/src/pages/log/LogViewer.tsx).
use mrboard.Shared.{
  ℕ, ◌+◌, ◌-◌, ◌*◌, ◌++◌, ◌&&◌, List, [], ◌∷◌, if◌then◌else◌, ltb, Text, lit, is_truthy, length,
  or_else, join, text_eq, Bool,
}
use mrboard.Shared.Assoc.{get}
use mrboard.Log.Viewer.{Viewer}

abbrev time_ranges : List (Text × ℕ)
time_ranges =
    (lit "5m", 5 * 60 * 1000)
    ∷ (lit "15m", 15 * 60 * 1000)
    ∷ (lit "1h", 60 * 60 * 1000)
    ∷ (lit "3h", 3 * 60 * 60 * 1000)
    ∷ (lit "6h", 6 * 60 * 60 * 1000)
    ∷ (lit "12h", 12 * 60 * 60 * 1000)
    ∷ (lit "24h", 24 * 60 * 60 * 1000)
    ∷ []

-- `computeTimeWindow`: nanoseconds, exact where JavaScript rounds them.
unfoldable window_start : ℕ → Text → ℕ
window_start now range = (now - or_else (get range time_ranges) 3600000) * 1000000

abbrev joined : Text → List Text → Text
joined sep [] = []
joined sep (s ∷ []) = s
joined sep (s ∷ t ∷ ss) = s ++ (sep ++ joined sep (t ∷ ss))

abbrev service_selector : List Text → List Text
service_selector [] = []
service_selector (s ∷ []) = (lit "service_name=\"" ++ (s ++ lit "\"")) ∷ []
service_selector (s ∷ t ∷ ss) =
    (lit "service_name=~\"" ++ (join b'|' (s ∷ t ∷ ss) ++ lit "\"")) ∷ []

unfoldable build_logql : Text → List Text → Text → Text
build_logql namespace services search_text =
    let own =
      if is_truthy namespace then (lit "namespace=\"" ++ (namespace ++ lit "\"")) ∷ [] else [] in
    (lit "{" ++ (joined (lit ", ") (own ++ service_selector services) ++ lit "}"))
    ++ (if is_truthy search_text then lit " |= `" ++ (search_text ++ lit "`") else [])

-- The effect that keeps the LogQL.
unfoldable logql_effect : Viewer → Viewer
logql_effect s = record s { logql = build_logql s.namespace s.selected_services s.search_text }

abbrev when : Bool → Text → Text → List (Text × Text)
when b k v = if b then (k, v) ∷ [] else []

unfoldable service_params : List Text → List (Text × Text)
service_params services = when (ltb 0 (length services)) (lit "services") (join b',' services)

-- Some levels, but not all four.
unfoldable pub level_params : List Text → List (Text × Text)
level_params levels =
    when (ltb 0 (length levels) && ltb (length levels) 4) (lit "levels") (join b',' levels)

unfoldable pub build_params : (ℕ → Text) → ℕ → Viewer → List (Text × Text)
unfolding service_params window_start
build_params print now s =
    (lit "clusterId", s.cluster_id) ∷ when (is_truthy s.namespace) (lit "namespace") s.namespace
    ++ (service_params s.selected_services
        ++ (level_params s.active_levels
            ++ (when (is_truthy s.search_text) (lit "search") s.search_text
                ++ ((lit "start", print (window_start now s.time_range))
                    ∷ (lit "end", print (now * 1000000))
                    ∷ []))))

-- The query string of the logs.
unfoldable query_params : (ℕ → Text) → ℕ → Viewer → List (Text × Text)
query_params print now s =
    build_params print now s ++ (lit "limit", lit "500") ∷ (lit "direction", lit "backward") ∷ []

-- A click on a bar of the histogram, at the time of its bucket.
unfoldable bucket_params : (ℕ → Text) → ℕ → Viewer → List (Text × Text)
bucket_params print time s =
    (lit "clusterId", s.cluster_id)
      ∷ (lit "namespace", s.namespace)
      ∷ service_params s.selected_services
    ++ ((lit "start", print ((time - 30) * 1000000))
        ∷ (lit "end", print ((time + 30) * 1000000))
        ∷ (lit "limit", lit "200")
        ∷ (lit "direction", lit "backward")
        ∷ [])
