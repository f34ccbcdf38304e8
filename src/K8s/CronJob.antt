-- ===== src/K8s/CronJob.antt =====
-- What the list of cron jobs, frontend/src/pages/k8s/CronJobList.tsx, says of its items, its form and
-- the run of a job.
use mrboard.Shared.{ℕ, ◌++◌, Bool, Option, none, some, List, [], ◌∷◌, Text, lit, join}
use mrboard.Session.Api.{Outcome, resolved, thrown}
use mrboard.Deploy.Create.{Pair, remove_at, change_at, set_pair}
use mrboard.K8s.ListPage.{Kind, ListPage, Event, on_event}
use mrboard.K8s.CreateDialog.{FormKind, Dialog, CreateRequest, handle_create, create_answered}

pub record CronJobItem : Type 0 where
  pub cronjob_name : Text
  pub name_space : Text
  pub schedule : Text
  pub suspend : Bool
  pub active : ℕ
  pub last_schedule : Text
  pub image_url : Text
  pub labels : Text
  pub create_time : Text

abbrev cron_jobs : Kind CronJobItem
cron_jobs = record {
  name_of = λ (i : CronJobItem). i.cronjob_name;
  namespace_of = λ (i : CronJobItem). i.name_space;
  list_path = lit "/mrboard/cronjob/v1/List?clusterId=";
  delete_path = lit "/mrboard/cronjob/v1/Del?clusterId=";
  name_param = lit "&cronjobName=";
}

-- The job that the dialog asks about, and the messages.
pub record RunDialog : Type 0 where
  pub run_target : Option CronJobItem
  pub toasts : List Text

-- `handleRun`, up to the request.
unfoldable handle_run : Text → RunDialog → Option Text
handle_run cluster_id s = elim s.run_target [
  | none ↦ none
  | some j ↦ some (
      lit "/mrboard/cronjob/v1/Run?clusterId="
      ++ (cluster_id
          ++ (lit "&nameSpace=" ++ (j.name_space ++ (lit "&cronjobName=" ++ j.cronjob_name)))))
]

-- `handleRun`, from the answer on; the dialog stays open after a failure.
unfoldable run_answered : Outcome {0} Unit → RunDialog → RunDialog
run_answered (resolved _) s = record { run_target = none; toasts = s.toasts ++ lit "运行成功" ∷ [] }
run_answered (thrown message) s = record s { toasts = s.toasts ++ message ∷ [] }

pub record CronJobForm : Type 0 where
  pub form_namespace : Text
  pub form_name : Text
  pub form_schedule : Text
  pub form_image : Text
  pub form_command : Text
  pub form_restart_policy : Text
  pub form_success_history : Text
  pub form_failed_history : Text
  pub form_env_vars : List Pair

unfoldable add_env_var : CronJobForm → CronJobForm
add_env_var s = record s { form_env_vars = s.form_env_vars ++ record { key = []; value = [] } ∷ [] }

unfoldable remove_env_var : ℕ → CronJobForm → CronJobForm
remove_env_var i s = record s { form_env_vars = remove_at i s.form_env_vars }

unfoldable update_env_var : ℕ → Bool → Text → CronJobForm → CronJobForm
update_env_var i is_key text s = record s {
  form_env_vars = change_at i (set_pair is_key text) s.form_env_vars;
}

-- `defaultYaml`.
abbrev default_yaml : Text
default_yaml = join 10 (
    lit "apiVersion: batch/v1"
    ∷ lit "kind: CronJob"
    ∷ lit "metadata:"
    ∷ lit "  name: my-cronjob"
    ∷ lit "  namespace: default"
    ∷ lit "spec:"
    ∷ lit "  schedule: \"*/5 * * * *\""
    ∷ lit "  jobTemplate:"
    ∷ lit "    spec:"
    ∷ lit "      template:"
    ∷ lit "        spec:"
    ∷ lit "          containers:"
    ∷ lit "            - name: my-cronjob"
    ∷ lit "              image: busybox:latest"
    ∷ lit "              command: [\"echo\", \"hello\"]"
    ∷ lit "          restartPolicy: Never"
    ∷ [])

pub record CronJobBody : Type 0 where
  pub name_space : Text
  pub cronjob_name : Text
  pub image_url : Text
  pub schedule : Text
  pub command : Text

abbrev cron_job_form : FormKind CronJobForm CronJobBody
cron_job_form = record {
  required_name = λ (s : CronJobForm). s.form_name;
  body_of = λ (s : CronJobForm). record {
    name_space = s.form_namespace;
    cronjob_name = s.form_name;
    image_url = s.form_image;
    schedule = s.form_schedule;
    command = s.form_command;
  };
  reset_form = λ (s : CronJobForm). record {
    form_namespace = [];
    form_name = [];
    form_schedule = [];
    form_image = [];
    form_command = [];
    form_restart_policy = lit "OnFailure";
    form_success_history = lit "3";
    form_failed_history = lit "1";
    form_env_vars = record { key = []; value = [] } ∷ [];
  };
  reset_yaml = some default_yaml;
}

-- The handlers of the list and of the dialog on this page.
unfoldable list_event :
    (Text → Text) → Event CronJobItem → ListPage CronJobItem → ListPage CronJobItem
list_event lower e s = on_event cron_jobs lower e s

unfoldable create : Dialog CronJobForm → Dialog CronJobForm × Option (CreateRequest CronJobBody)
create s = handle_create cron_job_form s

unfoldable created : Outcome {0} Unit → Dialog CronJobForm → Dialog CronJobForm
created outcome s = create_answered cron_job_form outcome s
