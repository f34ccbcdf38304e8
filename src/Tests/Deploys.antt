-- ===== src/Tests/Deploys.antt =====
-- Deployments, routes and pipelines at concrete states (frontend/src/pages/deploy,
-- frontend/src/App.tsx, frontend/src/pages/cicd).
use mrboard.Shared.{
  ◌≡◌, refl, ℕ, zero, suc, true, false, some, none, List, [], ◌∷◌, ◌++◌, text_eq, lit, arith,
}
use mathlib.Core.Option
use mrboard.Shared.Assoc.{get}
use mrboard.Session.Api.{resolved, thrown}
use mrboard.Session.Auth.{Session, User}
use mrboard.Deploy.Item.{DeployListItem}
use mrboard.Deploy.Rollout.{Rollout, time_out}
use mrboard.Deploy.Rollout.Laws.{Event, ticks, answers, after, poll_answered-ends}
use mrboard.Deploy.Page.{DeployPage, Request, open_scale, handle_scale}
use mrboard.Deploy.Page.Laws.{open_scale-handle_scale}
use mrboard.Deploy.Create.{Pair}
use mrboard.App.Element.{render, protected_route, main_layout, page}
use mrboard.App.Routes.Laws.{render-guarded}
use mrboard.Cicd.Pipelines.{PipelineJob, PipelineRun, get_job_blocks}
use mrboard.Cicd.Pipelines.Laws.{Drawn, get_job_blocks_lem}

abbrev item : DeployListItem
item = record {
  deploy_name = lit "web";
  name_space = lit "shop";
  pod_number = 2;
  image_url = lit "nginx";
  labels = [];
  create_time = [];
  update_time = [];
  replicas = 12;
  available_replicas = 1;
}

abbrev waiting : Rollout
waiting = record {
  restart_target = none;
  operating_deploy = some (lit "web");
  operation_progress = [];
  polling = true;
  retries = 0;
  asked = 0;
  timeouts = 0;
  toasts = [];
}

abbrev tick_times : ℕ → List Event → List Event
tick_times zero es = es
tick_times (suc n) es = ticks ∷ tick_times n es

abbrev long_wait : List Event
long_wait = answers (thrown (lit "502")) ∷ tick_times 31 (answers (resolved (item ∷ [])) ∷ [])

poll_answered-ends_example :
    let t = after (lit "web") (long_wait ++ answers (resolved (item ∷ [])) ∷ []) waiting in
    (t.polling ≡ false) × ((time_out t).operating_deploy ≡ none)
poll_answered-ends_example =
    poll_answered-ends (lit "web") long_wait (resolved (item ∷ [])) waiting refl (omega arith)

abbrev deploy_page : DeployPage
deploy_page = record {
  deploys = item ∷ [];
  filtered = item ∷ [];
  loading = false;
  search_name = [];
  namespace = [];
  page = 1;
  cluster_id = lit "c1";
  delete_target = none;
  scale_target = none;
  scale_value = [];
  operating_deploy = none;
  operation_progress = [];
  toasts = [];
}

open_scale-handle_scale_example :
    Option.map (λ (r : Request). r.pod_number) (handle_scale (open_scale item deploy_page)).1
    ≡ some (some 12)
open_scale-handle_scale_example = open_scale-handle_scale item deploy_page

abbrev labels : List Pair
labels =
    record { key = lit "a"; value = lit "1" }
    ∷ record { key = []; value = lit "x" }
    ∷ record { key = lit "b"; value = [] }
    ∷ []

abbrev admin : User
admin = record { username = lit "admin"; role = lit "admin"; permissions = [] }

abbrev session : Session
session = record {
  user = some admin;
  loading = false;
  browser = record { stored = some admin; path = lit "/" };
}

render-guarded_example : (true ≡ true) × (false ≡ false)
unfolding get render
render-guarded_example =
    render-guarded session (lit "/cluster/list")
      (protected_route (main_layout (page (lit "ClusterList")))) refl refl

abbrev job : ℕ → PipelineJob
job n = record {
  id = n;
  name = lit "build";
  status = lit "RUNNING";
  start_time = 0;
  end_time = 1500;
  actions = [];
}

abbrev run : PipelineRun
run = record {
  pipeline_run_id = lit "r";
  status = lit "RUNNING";
  create_time = 0;
  sources = 1;
  stages =
      record { status = []; jobs = job 1 ∷ [] }
      ∷ record { status = []; jobs = job 2 ∷ job 3 ∷ [] }
      ∷ [];
}

get_job_blocks_lem_example : Drawn run (get_job_blocks run)
get_job_blocks_lem_example = get_job_blocks_lem run
