-- ===== src/Deploy/Rollout.antt =====
-- A restart and the poll that waits for its end, `handleRestart` of
-- frontend/src/pages/deploy/DeployList.tsx. The interval ticks and the requests answer in any order;
-- clearInterval stops the ticks, not the requests that are under way.
pub mod Laws
use mrboard.Shared.{
  ℕ, ◌+◌, ◌-◌, ◌++◌, Bool, true, false, Option, none, some, List, [], ◌∷◌, if◌then◌else◌, ◌==◌,
  nat_eq, leb, ltb, Text, text_eq, lit,
}
use mrboard.Session.Api.{Outcome, resolved, thrown}
use mrboard.Deploy.Item.{DeployListItem}

-- What the handler and its timers keep: the target, the marks in the table, the interval and its
-- count, the requests of the poll that have no answer, and the timeouts set to remove the marks.
pub record Rollout : Type 0 where
  pub restart_target : Option DeployListItem
  pub operating_deploy : Option Text
  pub operation_progress : Text
  pub polling : Bool
  pub retries : ℕ
  pub asked : ℕ
  pub timeouts : ℕ
  pub toasts : List Text

-- `setOperatingDeploy(null); setOperationProgress('')`.
abbrev unmark : Rollout → Rollout
unmark s = record s { operating_deploy = none; operation_progress = [] }

-- Up to the request.
unfoldable handle_restart : Rollout → Rollout
handle_restart s = elim s.restart_target [
  | none ↦ s
  | some target ↦ record s {
    restart_target = none;
    operating_deploy = some target.deploy_name;
    operation_progress = lit "正在重启...";
  }
]

-- The restart is answered: the poll begins, or the marks go.
unfoldable restart_answered : Outcome {0} Unit → Rollout → Rollout
restart_answered (resolved _) s = record s {
  operation_progress = lit "等待 Pod 就绪...";
  polling = true;
  retries = 0;
}
restart_answered (thrown message) s = unmark (record s { toasts = s.toasts ++ message ∷ [] })

-- The interval, each 2 s.
pub tick : Rollout → Rollout
tick s = if s.polling then record s { retries = s.retries + 1; asked = s.asked + 1 } else s

-- `(res.data || []).find(d => d.deployName === name)`, with missing data as [].
unfoldable find_deploy : Text → List DeployListItem → Option DeployListItem
find_deploy name [] = none
find_deploy name (d ∷ ds) = if d.deploy_name == name then some d else find_deploy name ds

abbrev has_all_replicas : Option DeployListItem → Bool
has_all_replicas none = false
has_all_replicas (some d) = d.replicas == d.available_replicas

unfoldable is_ready : Text → List DeployListItem → Bool
is_ready name ds = has_all_replicas (find_deploy name ds)

-- The poll ends, and a timeout is set.
abbrev stop_polling : Text → Rollout → Rollout
stop_polling progress s = record s {
  polling = false;
  operation_progress = progress;
  timeouts = s.timeouts + 1;
}

-- A request of the poll is answered.
pub poll_answered : Text → Outcome (List DeployListItem) → Rollout → Rollout
poll_answered name outcome s =
    let t = record s { asked = s.asked - 1 } in
    elim outcome [
      | resolved ds ↦
          if is_ready name ds
          then stop_polling (lit "重启完成 ✓") t
          else if ltb 30 t.retries
          then stop_polling (lit "滚动更新中...") t
          else t
      | thrown message ↦ if ltb 30 t.retries then unmark (record t { polling = false }) else t
    ]

-- A timeout of 1.5 or 2 s, if one is set.
pub time_out : Rollout → Rollout
time_out s = if leb 1 s.timeouts then unmark (record s { timeouts = s.timeouts - 1 }) else s
