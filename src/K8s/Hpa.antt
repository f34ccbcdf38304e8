-- ===== src/K8s/Hpa.antt =====
-- What the list of autoscalers, frontend/src/pages/k8s/HpaList.tsx, says of its items, and its form.
use mrboard.Shared.{ℕ, Option, some, [], ◌∷◌, Text, lit, join}
use mrboard.Session.Api.{Outcome}
use mrboard.K8s.ListPage.{Kind, ListPage, Event, on_event}
use mrboard.K8s.CreateDialog.{FormKind, Dialog, CreateRequest, handle_create, create_answered}

pub record HpaItem : Type 0 where
  pub hpa_name : Text
  pub name_space : Text
  pub target_ref : Text
  pub min_replicas : ℕ
  pub max_replicas : ℕ
  pub current_replicas : ℕ
  pub target_cpu : Text
  pub current_cpu : Text
  pub create_time : Text

abbrev autoscalers : Kind HpaItem
autoscalers = record {
  name_of = λ (i : HpaItem). i.hpa_name;
  namespace_of = λ (i : HpaItem). i.name_space;
  list_path = lit "/mrboard/hpa/v1/List?clusterId=";
  delete_path = lit "/mrboard/hpa/v1/Del?clusterId=";
  name_param = lit "&hpaName=";
}

pub record HpaForm : Type 0 where
  pub form_namespace : Text
  pub form_name : Text
  pub form_target_ref : Text
  pub form_min_replicas : Text
  pub form_max_replicas : Text
  pub form_target_cpu : Text
  pub form_target_memory : Text
  pub form_scale_up_stabilization : Text
  pub form_scale_down_stabilization : Text

-- `defaultYaml`.
abbrev default_yaml : Text
default_yaml = join 10 (
    lit "apiVersion: autoscaling/v2"
    ∷ lit "kind: HorizontalPodAutoscaler"
    ∷ lit "metadata:"
    ∷ lit "  name: my-hpa"
    ∷ lit "  namespace: default"
    ∷ lit "spec:"
    ∷ lit "  scaleTargetRef:"
    ∷ lit "    apiVersion: apps/v1"
    ∷ lit "    kind: Deployment"
    ∷ lit "    name: my-app"
    ∷ lit "  minReplicas: 1"
    ∷ lit "  maxReplicas: 10"
    ∷ lit "  metrics:"
    ∷ lit "    - type: Resource"
    ∷ lit "      resource:"
    ∷ lit "        name: cpu"
    ∷ lit "        target:"
    ∷ lit "          type: Utilization"
    ∷ lit "          averageUtilization: 80"
    ∷ [])

-- The numbers are kept as the texts that `Number` reads.
pub record HpaBody : Type 0 where
  pub name_space : Text
  pub hpa_name : Text
  pub target_ref : Text
  pub min_replicas : Text
  pub max_replicas : Text
  pub target_cpu : Text

abbrev hpa_form : FormKind HpaForm HpaBody
hpa_form = record {
  required_name = λ (s : HpaForm). s.form_name;
  body_of = λ (s : HpaForm). record {
    name_space = s.form_namespace;
    hpa_name = s.form_name;
    target_ref = s.form_target_ref;
    min_replicas = s.form_min_replicas;
    max_replicas = s.form_max_replicas;
    target_cpu = s.form_target_cpu;
  };
  reset_form = λ (s : HpaForm). record {
    form_namespace = [];
    form_name = [];
    form_target_ref = [];
    form_min_replicas = lit "1";
    form_max_replicas = lit "10";
    form_target_cpu = lit "80";
    form_target_memory = [];
    form_scale_up_stabilization = lit "0";
    form_scale_down_stabilization = lit "300";
  };
  reset_yaml = some default_yaml;
}

-- The handlers of the list and of the dialog on this page.
unfoldable list_event : (Text → Text) → Event HpaItem → ListPage HpaItem → ListPage HpaItem
list_event lower e s = on_event autoscalers lower e s

unfoldable create : Dialog HpaForm → Dialog HpaForm × Option (CreateRequest HpaBody)
create s = handle_create hpa_form s

unfoldable created : Outcome {0} Unit → Dialog HpaForm → Dialog HpaForm
created outcome s = create_answered hpa_form outcome s
