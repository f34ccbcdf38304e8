-- ===== src/Trace/Services/Page.antt =====
-- The state of the service graph's page, frontend/src/pages/log/ServiceGraph.tsx.
use mrboard.Shared.{
  ℕ, Bool, true, false, Option, none, some, List, [], ◌∷◌, if◌then◌else◌, ◌==◌, Text, text_eq, lit,
  is_truthy,
}
use mrboard.Session.Api.{Outcome, resolved, thrown}
use mrboard.Trace.Services.{Dependency}
use mrboard.Trace.Services.Layout.{FlowNode, FlowEdge, build_layout}

pub record GraphPage : Type 0 where
  pub cluster_id : Text
  pub deps : List Dependency
  pub loading : Bool
  pub selected_service : Option Text
  pub error : Text
  pub nodes : List FlowNode
  pub edges : List FlowEdge

-- The timer that waits for the item 'clusterId' of the local storage.
unfoldable poll_cluster : Option Text → GraphPage → GraphPage
poll_cluster none p = p
poll_cluster (some id) p =
    if is_truthy p.cluster_id then p else if is_truthy id then record p { cluster_id = id } else p

-- `fetchDeps`: whether the request is sent is the second value.
unfoldable fetch_deps : GraphPage → GraphPage × Bool
fetch_deps p =
    if is_truthy p.cluster_id then (record p { loading = true; error = [] }, true) else (p, false)

abbrev no_dependencies : Text
no_dependencies = lit "暂无服务依赖数据，请确认 Tempo metrics-generator 已启用"

module _ (print : ℕ → Text) (to_fixed : ℕ → ℕ → Text) where
  -- The effect on `deps` draws the layout; without dependencies it leaves nodes and edges.
  unfoldable draw : List Dependency → GraphPage → GraphPage
  draw [] p = p
  draw (d ∷ deps) p = elim (build_layout print to_fixed (d ∷ deps)) [
    | some layout ↦ record p { nodes = layout.0; edges = layout.1 }
    | none ↦ p
  ]

  unfoldable deps_arrived : Outcome (Option (List Dependency)) → GraphPage → GraphPage
  deps_arrived (resolved (some (d ∷ deps))) p =
      draw (d ∷ deps) (record p { deps = d ∷ deps; loading = false })
  deps_arrived (resolved _) p = record p { deps = []; error = no_dependencies; loading = false }
  deps_arrived (thrown message) p = record p { error = message; loading = false }

unfoldable select_service : Text → GraphPage → GraphPage
select_service id p = record p {
  selected_service = elim p.selected_service [
    | some prev ↦ if prev == id then none else some id
    | none ↦ some id
  ];
}

unfoldable on_pane_click : GraphPage → GraphPage
on_pane_click p = record p { selected_service = none }
