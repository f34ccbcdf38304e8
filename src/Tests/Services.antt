-- ===== src/Tests/Services.antt =====
-- The service graph at concrete dependencies (frontend/src/pages/log/ServiceGraph.tsx).
use mrboard.Shared.{◌≡◌, ◌↔◌, refl, ℕ, some, List, [], ◌∷◌, if◌then◌else◌, Text, text_eq, lit, keep}
use mrboard.Shared.Assoc.{get, put}
use mrboard.Shared.Members.{includes, add_member}
use mrboard.Trace.Services.{
  Dependency, Depths, service_names, child_names, root_names, add_edges, push_children, visit,
  search_depths, start_queue, add_orphans, reached_depths, depth_map,
}
use mrboard.Trace.Services.Layout.{
  FlowNode, FlowEdge, build_layout, compute_status, error, degraded, healthy,
}
use mrboard.Trace.Services.Depths.{IsLeast, reached_depths_lem}
use mrboard.Trace.Services.Once.{times_drawn}
use mrboard.Trace.Services.Drawn.{is_service, build_layout_lem}

abbrev call : Text → Text → Dependency
call parent child = record {
  parent = parent;
  child = child;
  call_count = 7;
  rpm = 120;
  avg_latency_ms = 350;
  error_rate = 600;
}

-- A cycle below the root, and one that no root leads to.
abbrev deps : List Dependency
deps =
    call (lit "web") (lit "cart")
    ∷ call (lit "cart") (lit "db")
    ∷ call (lit "db") (lit "cart")
    ∷ call (lit "web") (lit "db")
    ∷ call (lit "x") (lit "y")
    ∷ call (lit "y") (lit "x")
    ∷ []

depths_test :
    depth_map deps
    ≡ some ((lit "web", 0) ∷ (lit "cart", 1) ∷ (lit "db", 1) ∷ (lit "x", 1) ∷ (lit "y", 1) ∷ [])
unfolding depth_map reached_depths search_depths visit push_children start_queue add_orphans
    root_names service_names child_names add_edges get put includes add_member keep
depths_test = refl

status_test :
    (compute_status 600 1 ≡ error)
    × (compute_status 200 2 ≡ degraded)
    × (compute_status 0 0 ≡ healthy)
unfolding compute_status
status_test = (refl, refl, refl)

reached_depths_lem_example :
    (found : Depths) × (reached_depths deps ≡ some found)
    × ((s : Text) (k : ℕ) → (get s found ≡ some k) ↔ IsLeast deps s k)
reached_depths_lem_example = reached_depths_lem deps

abbrev print : ℕ → Text
print n = n ∷ []

abbrev to_fixed : ℕ → ℕ → Text
to_fixed n d = n ∷ d ∷ []

build_layout_lem_example :
    (nodes : List FlowNode) × (edges : List FlowEdge) × (build_layout print to_fixed deps
      ≡ some (nodes, edges))
    × ((s : Text) → times_drawn s nodes ≡ (if is_service deps s then 1 else 0))
build_layout_lem_example = build_layout_lem print to_fixed deps
