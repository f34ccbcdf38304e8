-- ===== src/Trace/Services.antt =====
-- The services and their depths in the service graph, `buildLayout` of
-- frontend/src/pages/log/ServiceGraph.tsx. Rates and latencies are counted in hundredths.
pub mod Search
pub mod Reached
pub mod Least
pub mod Depths
pub mod Once
pub mod Drawn
pub mod Layout
pub mod Page
use mrboard.Shared.{
  ℕ, zero, suc, ◌+◌, ◌++◌, Bool, true, false, not, Option, none, some, List, [], ◌∷◌, if◌then◌else◌,
  Text, text_eq, is_some, length, keep,
}
use mrboard.Shared.Assoc.{get, put}
use mrboard.Shared.Members.{includes, add_member}

pub record Dependency : Type 0 where
  pub parent : Text
  pub child : Text
  pub call_count : ℕ
  pub rpm : ℕ
  pub avg_latency_ms : ℕ
  pub error_rate : ℕ

unfoldable pub service_names : List Dependency → List Text → List Text
service_names [] names = names
service_names (d ∷ deps) names = service_names deps (add_member d.child (add_member d.parent names))

-- What is summed over the calls that a service makes.
pub record Metrics : Type 0 where
  pub total_calls : ℕ
  pub total_rpm : ℕ
  pub total_latency : ℕ
  pub total_errors : ℕ
  pub count : ℕ

abbrev no_metrics : Metrics
no_metrics = record {
  total_calls = 0;
  total_rpm = 0;
  total_latency = 0;
  total_errors = 0;
  count = 0;
}

abbrev metrics_of : Text → List (Text × Metrics) → Metrics
metrics_of name m = elim (get name m) [ some x ↦ x | none ↦ no_metrics ]

-- `if (!metrics.has(name)) metrics.set(name, ...)`.
abbrev ensure : Text → List (Text × Metrics) → List (Text × Metrics)
ensure name m = if is_some (get name m) then m else put name no_metrics m

abbrev add_call : Dependency → Metrics → Metrics
add_call d m = record {
  total_calls = m.total_calls + d.call_count;
  total_rpm = m.total_rpm + d.rpm;
  total_latency = m.total_latency + d.avg_latency_ms;
  total_errors = m.total_errors + d.error_rate;
  count = m.count + 1;
}

unfoldable collect_metrics : List Dependency → List (Text × Metrics) → List (Text × Metrics)
collect_metrics [] m = m
collect_metrics (d ∷ deps) m =
    let known = ensure d.child (ensure d.parent m) in
    collect_metrics deps (put d.parent (add_call d (metrics_of d.parent known)) known)

-- `new Set(deps.map(d => d.child))`.
unfoldable pub child_names : List Dependency → List Text → List Text
child_names [] names = names
child_names (d ∷ deps) names = child_names deps (add_member d.child names)

unfoldable pub root_names : List Dependency → List Text
root_names deps = keep (λ s. not (includes (child_names deps []) s)) (service_names deps [])

-- `adj.get(name) || []`.
abbrev adj_of : Text → List (Text × List Text) → List Text
adj_of name adj = elim (get name adj) [ some cs ↦ cs | none ↦ [] ]

unfoldable pub add_edges : List Dependency → List (Text × List Text) → List (Text × List Text)
add_edges [] adj = adj
add_edges (d ∷ deps) adj = add_edges deps (put d.parent (adj_of d.parent adj ++ d.child ∷ []) adj)

abbrev pub Depths : Type 0
Depths = List (Text × ℕ)

-- The inner loop, which pushes the children that have no depth yet.
unfoldable pub push_children : Depths → ℕ → List Text → Depths → Depths
push_children depth_map depth [] queue = queue
push_children depth_map depth (c ∷ cs) queue =
    push_children depth_map depth cs
      (if is_some (get c depth_map) then queue else queue ++ (c, depth + 1) ∷ [])

-- One round of the outer loop: the next queue and the next map.
unfoldable pub visit : List (Text × List Text) → Text → ℕ → Depths → Depths → Depths × Depths
visit adj name depth queue depth_map =
    if is_some (get name depth_map) then (queue, depth_map) else (
      push_children (put name depth depth_map) depth (adj_of name adj) queue,
      put name depth depth_map,
    )

-- The outer loop: the fuel bounds its rounds, and `none` means that it ran out.
unfoldable pub search_depths : List (Text × List Text) → ℕ → Depths → Depths → Option Depths
search_depths adj fuel [] depth_map = some depth_map
search_depths adj zero (q ∷ queue) depth_map = none
search_depths adj (suc fuel) ((name, depth) ∷ queue) depth_map =
    let next = visit adj name depth queue depth_map in search_depths adj fuel next.0 next.1

-- `roots.map(r => [r, 0])`.
unfoldable pub start_queue : List Text → Depths
start_queue [] = []
start_queue (r ∷ roots) = (r, 0) ∷ start_queue roots

unfoldable pub add_orphans : List Text → Depths → Depths
add_orphans [] depth_map = depth_map
add_orphans (s ∷ names) depth_map =
    add_orphans names (if is_some (get s depth_map) then depth_map else put s 1 depth_map)

-- Enough rounds: one for each root and one for each dependency.
abbrev rounds : List Dependency → ℕ
rounds deps = length (root_names deps) + length deps

-- The depths that the search finds, and those of all services.
unfoldable pub reached_depths : List Dependency → Option Depths
reached_depths deps =
    search_depths (add_edges deps []) (rounds deps) (start_queue (root_names deps)) []

unfoldable pub depth_map : List Dependency → Option Depths
depth_map deps = elim (reached_depths deps) [
  | some found ↦ some (add_orphans (service_names deps []) found)
  | none ↦ none
]
