-- ===== src/Trace/Services/Drawn.antt =====
-- Which services the graph draws (frontend/src/pages/log/ServiceGraph.tsx).
use mrboard.Shared.{
  ◌≡◌, refl, ℕ, Bool, true, false, not, ◌||◌, some, List, [], ◌∷◌, arith, if◌then◌else◌, ◌==◌, Text,
  text_eq, is_some, Option-cases, inl, inr, keep,
}
use mrboard.Shared.Assoc.{get}
use mrboard.Shared.Members.{includes, add_member, includes-add_member}
use mrboard.Trace.Services.{
  Dependency, Depths, root_names, service_names, child_names, add_orphans, reached_depths,
  depth_map, collect_metrics, start_queue, rounds, add_edges,
}
use mrboard.Trace.Services.Search.{callees}
use mrboard.Trace.Services.Reached.{Chain, start, call}
use mrboard.Trace.Services.Depths.{reached_depths_lem, found-Chain}
use mrboard.Trace.Services.Layout.{
  FlowNode, FlowEdge, place_groups, group_by_depth, build_layout, flow_edges, format_call_count,
  max_calls,
}
use mrboard.Trace.Services.Once.{
  one_if, times_drawn, IsMap, times_drawn-place_groups, times_grouped-group_by_depth,
  search_depths-IsMap, add_orphans-IsMap, has-add_orphans,
}

-- The service is an end of some dependency.
abbrev pub is_service : List Dependency → Text → Bool
is_service [] s = false
is_service (d ∷ deps) s = d.parent == s || (d.child == s || is_service deps s)

includes-service_names :
    (deps : List Dependency) (names : List Text) (s : Text)
    → includes (service_names deps names) s ≡ (includes names s || is_service deps s)
unfolding service_names
includes-service_names [] names s = ground arith
includes-service_names (d ∷ deps) names s = ground (
  arith,
  includes-service_names deps (add_member d.child (add_member d.parent names)) s,
  includes-add_member (add_member d.parent names) d.child s,
  includes-add_member names d.parent s,
)

includes-keep :
    (f : Text → Bool) (xs : List Text) (s : Text)
    → includes (keep f xs) s ≡ true
    → includes xs s ≡ true
unfolding keep includes
includes-keep f [] s h = h
includes-keep f (x ∷ xs) s h = ground (arith, includes-keep f xs s)

includes-callees :
    (deps : List Dependency) (p c : Text)
    → includes (callees deps p) c ≡ true
    → is_service deps c ≡ true
unfolding includes
includes-callees [] p c h = cc
includes-callees (d ∷ deps) p c h = ground (arith, includes-callees deps p c)

Chain-is_service :
    (deps : List Dependency) (s : Text) (k : ℕ) → Chain deps s k → is_service deps s ≡ true
unfolding root_names includes
Chain-is_service deps s k (start h) = ground (
  arith,
  includes-service_names deps [] s,
  includes-keep (λ t. not (includes (child_names deps []) t)) (service_names deps []) s h,
)
Chain-is_service deps s k (call p ch i) = includes-callees deps p s i

found_is_service :
    (deps : List Dependency) (found : Depths) (s : Text)
    → reached_depths deps ≡ some found
    → is_some (get s found) ≡ true
    → is_service deps s ≡ true
found_is_service deps found s h i = elim (Option-cases (get s found)) [
  | inl e ↦ ground (arith, i)
  | inr (k, e) ↦ Chain-is_service deps s k (found-Chain deps found s k h e)
]

found-IsMap :
    (deps : List Dependency) (found : Depths) → reached_depths deps ≡ some found → IsMap found
unfolding reached_depths get
found-IsMap deps found h =
    search_depths-IsMap (add_edges deps []) (rounds deps) (start_queue (root_names deps)) [] found
      (λ s. refl) h

times_in_layout :
    (deps : List Dependency) (found : Depths) (s : Text)
    → reached_depths deps ≡ some found
    → one_if (is_some (get s (add_orphans (service_names deps []) found)))
      ≡ one_if (is_service deps s)
unfolding includes
times_in_layout deps found s h = ground (
  arith,
  has-add_orphans (service_names deps []) found s,
  includes-service_names deps [] s,
  found_is_service deps found s h,
)

build_layout_found :
    (print : ℕ → Text) (to_fixed : ℕ → ℕ → Text) (deps : List Dependency) (found : Depths)
    → reached_depths deps ≡ some found
    → build_layout print to_fixed deps
      ≡ some (
        place_groups
            (collect_metrics deps [])
            (group_by_depth (add_orphans (service_names deps []) found) []),
        flow_edges (format_call_count print to_fixed) (max_calls deps) 0 deps,
      )
unfolding build_layout depth_map
build_layout_found print to_fixed deps found h = cc

-- For any dependencies, cycles included, the layout is made; it draws each service that is an end of some dependency
-- exactly once, and nothing else.
pub build_layout_lem :
    (print : ℕ → Text) (to_fixed : ℕ → ℕ → Text) (deps : List Dependency)
    → (nodes : List FlowNode) × (edges : List FlowEdge) × (build_layout print to_fixed deps
        ≡ some (nodes, edges))
      × ((s : Text) → times_drawn s nodes ≡ (if is_service deps s then 1 else 0))
build_layout_lem print to_fixed deps =
    let (found, e, _) = reached_depths_lem deps in
    let depths = add_orphans (service_names deps []) found in
    (
      place_groups (collect_metrics deps []) (group_by_depth depths []),
      flow_edges (format_call_count print to_fixed) (max_calls deps) 0 deps,
      build_layout_found print to_fixed deps found e,
      λ s. ground (
        arith,
        times_drawn-place_groups s (collect_metrics deps []) (group_by_depth depths []),
        times_grouped-group_by_depth s depths [],
        add_orphans-IsMap (service_names deps []) found (found-IsMap deps found e) s,
        times_in_layout deps found s e,
      ),
    )
