-- ===== src/K8s/StatefulSet.antt =====
-- What the list of stateful sets, frontend/src/pages/k8s/StatefulSetList.tsx, says of its items, and
-- its form.
use mrboard.Shared.{
  ℕ, ◌++◌, Bool, Option, some, List, [], ◌∷◌, if◌then◌else◌, Text, lit, is_truthy, join,
}
use mrboard.Session.Api.{Outcome}
use mrboard.Deploy.Create.{Pair, remove_at, change_at, set_pair}
use mrboard.K8s.ListPage.{Kind, ListPage, Event, on_event}
use mrboard.K8s.CreateDialog.{FormKind, Dialog, CreateRequest, handle_create, create_answered}

pub record StsItem : Type 0 where
  pub statefulset_name : Text
  pub name_space : Text
  pub pod_number : ℕ
  pub img_url : Text
  pub labels : Text
  pub create_time : Text
  pub replicas : ℕ
  pub available_replicas : ℕ

abbrev stateful_sets : Kind StsItem
stateful_sets = record {
  name_of = λ (i : StsItem). i.statefulset_name;
  namespace_of = λ (i : StsItem). i.name_space;
  list_path = lit "/mrboard/sts/v1/List?clusterId=";
  delete_path = lit "/mrboard/sts/v1/Del?clusterId=";
  name_param = lit "&stsName=";
}

pub record VolumeMount : Type 0 where
  pub type : Text
  pub name : Text
  pub mount_path : Text

pub record StsForm : Type 0 where
  pub form_namespace : Text
  pub form_name : Text
  pub form_image : Text
  pub form_replicas : Text
  pub form_labels : Text
  pub form_image_pull_policy : Text
  pub form_container_port : Text
  pub form_cpu_request : Text
  pub form_cpu_limit : Text
  pub form_memory_request : Text
  pub form_memory_limit : Text
  pub form_env_vars : List Pair
  pub form_volume_mounts : List VolumeMount

unfoldable add_env_var : StsForm → StsForm
add_env_var s = record s { form_env_vars = s.form_env_vars ++ record { key = []; value = [] } ∷ [] }

unfoldable remove_env_var : ℕ → StsForm → StsForm
remove_env_var i s = record s { form_env_vars = remove_at i s.form_env_vars }

unfoldable update_env_var : ℕ → Bool → Text → StsForm → StsForm
update_env_var i is_key text s = record s {
  form_env_vars = change_at i (set_pair is_key text) s.form_env_vars;
}

abbrev first_mount : VolumeMount
first_mount = record { type = lit "ConfigMap"; name = []; mount_path = [] }

unfoldable add_volume_mount : StsForm → StsForm
add_volume_mount s = record s { form_volume_mounts = s.form_volume_mounts ++ first_mount ∷ [] }

unfoldable remove_volume_mount : ℕ → StsForm → StsForm
remove_volume_mount i s = record s { form_volume_mounts = remove_at i s.form_volume_mounts }

pub data MountField : Type 0 where
  type name mount_path : MountField

abbrev set_mount : MountField → Text → VolumeMount → VolumeMount
set_mount type text m = record m { type = text }
set_mount name text m = record m { name = text }
set_mount mount_path text m = record m { mount_path = text }

-- The type is never emptied; null stands for no text.
unfoldable update_volume_mount : ℕ → MountField → Text → StsForm → StsForm
update_volume_mount i type text s =
    if is_truthy text
    then record s { form_volume_mounts = change_at i (set_mount type text) s.form_volume_mounts }
    else s
update_volume_mount i field text s = record s {
  form_volume_mounts = change_at i (set_mount field text) s.form_volume_mounts;
}

-- `defaultYaml`.
abbrev default_yaml : Text
default_yaml = join 10 (
    lit "apiVersion: apps/v1"
    ∷ lit "kind: StatefulSet"
    ∷ lit "metadata:"
    ∷ lit "  name: my-sts"
    ∷ lit "  namespace: default"
    ∷ lit "spec:"
    ∷ lit "  replicas: 1"
    ∷ lit "  selector:"
    ∷ lit "    matchLabels:"
    ∷ lit "      app: nginx"
    ∷ lit "  template:"
    ∷ lit "    metadata:"
    ∷ lit "      labels:"
    ∷ lit "        app: nginx"
    ∷ lit "    spec:"
    ∷ lit "      containers:"
    ∷ lit "        - name: my-sts"
    ∷ lit "          image: nginx:latest"
    ∷ lit "          ports:"
    ∷ lit "            - containerPort: 80"
    ∷ lit "  serviceName: \"\""
    ∷ [])

-- The replicas go out as `Number(formReplicas)`, kept as their text.
pub record StsBody : Type 0 where
  pub name_space : Text
  pub sts_name : Text
  pub image_url : Text
  pub replicas : Text
  pub labels : Text

abbrev sts_form : FormKind StsForm StsBody
sts_form = record {
  required_name = λ (s : StsForm). s.form_name;
  body_of = λ (s : StsForm). record {
    name_space = s.form_namespace;
    sts_name = s.form_name;
    image_url = s.form_image;
    replicas = s.form_replicas;
    labels = s.form_labels;
  };
  reset_form = λ (s : StsForm). record {
    form_namespace = [];
    form_name = [];
    form_image = [];
    form_replicas = lit "1";
    form_labels = [];
    form_image_pull_policy = lit "IfNotPresent";
    form_container_port = [];
    form_cpu_request = [];
    form_cpu_limit = [];
    form_memory_request = [];
    form_memory_limit = [];
    form_env_vars = record { key = []; value = [] } ∷ [];
    form_volume_mounts = first_mount ∷ [];
  };
  reset_yaml = some default_yaml;
}

-- The handlers of the list and of the dialog on this page.
unfoldable list_event : (Text → Text) → Event StsItem → ListPage StsItem → ListPage StsItem
list_event lower e s = on_event stateful_sets lower e s

unfoldable create : Dialog StsForm → Dialog StsForm × Option (CreateRequest StsBody)
create s = handle_create sts_form s

unfoldable created : Outcome {0} Unit → Dialog StsForm → Dialog StsForm
created outcome s = create_answered sts_form outcome s
