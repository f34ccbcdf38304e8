-- ===== src/Deploy/Create.antt =====
-- The dialog that creates a deployment, by a form or as YAML: the second half of `DeployList`,
-- frontend/src/pages/deploy/DeployList.tsx. The request is sent by `api`; its answer is an argument.
pub mod Laws
use mrboard.Shared.{
  ℕ, zero, suc, ◌++◌, Bool, true, false, Option, none, some, List, [], ◌∷◌, map, if◌then◌else◌,
  Text, lit, is_truthy, keep, join,
}
use mrboard.Session.Api.{Outcome, resolved, thrown}
use mrboard.Ai.Stream.{or_text}

-- A row of the labels and of the environment.
pub record Pair : Type 0 where
  pub key : Text
  pub value : Text

pub record Port : Type 0 where
  pub container_port : Text
  pub protocol : Text

pub data CreateTab : Type 0 where
  form yaml : CreateTab

pub record CreateDialog : Type 0 where
  pub create_open : Bool
  pub create_tab : CreateTab
  pub yaml_content : Text
  pub submitting : Bool
  pub form_namespace : Text
  pub form_name : Text
  pub form_image : Text
  pub form_replicas : Text
  pub form_image_pull_policy : Text
  pub form_labels : List Pair
  pub form_ports : List Port
  pub form_env : List Pair
  pub toasts : List Text

-- `rows.filter((_, idx) => idx !== i)`.
unfoldable pub remove_at {ℓ} : {A : Type ℓ} → ℕ → List A → List A
remove_at i [] = []
remove_at zero (x ∷ xs) = xs
remove_at (suc i) (x ∷ xs) = x ∷ remove_at i xs

-- `next[i] = { ...next[i], [field]: val }`, at a position of the list.
unfoldable pub change_at {ℓ} : {A : Type ℓ} → ℕ → (A → A) → List A → List A
change_at i f [] = []
change_at zero f (x ∷ xs) = f x ∷ xs
change_at (suc i) f (x ∷ xs) = x ∷ change_at i f xs

unfoldable add_label : CreateDialog → CreateDialog
add_label s = record s { form_labels = s.form_labels ++ record { key = []; value = [] } ∷ [] }

unfoldable remove_label : ℕ → CreateDialog → CreateDialog
remove_label i s = record s { form_labels = remove_at i s.form_labels }

-- `is_key` says which of the two fields changes.
abbrev pub set_pair : Bool → Text → Pair → Pair
set_pair true text p = record p { key = text }
set_pair false text p = record p { value = text }

unfoldable update_label : ℕ → Bool → Text → CreateDialog → CreateDialog
update_label i is_key text s = record s {
  form_labels = change_at i (set_pair is_key text) s.form_labels;
}

unfoldable add_port : CreateDialog → CreateDialog
add_port s = record s {
  form_ports = s.form_ports ++ record { container_port = []; protocol = lit "TCP" } ∷ [];
}

unfoldable remove_port : ℕ → CreateDialog → CreateDialog
remove_port i s = record s { form_ports = remove_at i s.form_ports }

abbrev set_port : Bool → Text → Port → Port
set_port true text p = record p { container_port = text }
set_port false text p = record p { protocol = text }

unfoldable update_port : ℕ → Bool → Text → CreateDialog → CreateDialog
update_port i is_port text s = record s {
  form_ports = change_at i (set_port is_port text) s.form_ports;
}

unfoldable add_env : CreateDialog → CreateDialog
add_env s = record s { form_env = s.form_env ++ record { key = []; value = [] } ∷ [] }

unfoldable remove_env : ℕ → CreateDialog → CreateDialog
remove_env i s = record s { form_env = remove_at i s.form_env }

unfoldable update_env : ℕ → Bool → Text → CreateDialog → CreateDialog
update_env i is_key text s = record s { form_env = change_at i (set_pair is_key text) s.form_env }

-- `defaultYaml`.
abbrev default_yaml : Text
default_yaml = join 10 (
    lit "apiVersion: apps/v1"
    ∷ lit "kind: Deployment"
    ∷ lit "metadata:"
    ∷ lit "  name: my-deploy"
    ∷ lit "  namespace: default"
    ∷ lit "spec:"
    ∷ lit "  replicas: 1"
    ∷ lit "  selector:"
    ∷ lit "    matchLabels:"
    ∷ lit "      app: my-app"
    ∷ lit "  template:"
    ∷ lit "    metadata:"
    ∷ lit "      labels:"
    ∷ lit "        app: my-app"
    ∷ lit "    spec:"
    ∷ lit "      containers:"
    ∷ lit "      - name: my-container"
    ∷ lit "        image: nginx:latest"
    ∷ [])

unfoldable reset_create_form : CreateDialog → CreateDialog
reset_create_form s = record s {
  form_namespace = lit "default";
  form_name = [];
  form_image = [];
  form_replicas = lit "1";
  form_image_pull_policy = lit "IfNotPresent";
  form_labels = [];
  form_ports = [];
  form_env = [];
  yaml_content = default_yaml;
}

abbrev label_line : Pair → Text
label_line p = lit "        " ++ (p.key ++ (lit ": \"" ++ (p.value ++ lit "\"")))

abbrev port_lines : Port → Text
port_lines p =
    lit "          - containerPort: "
    ++ (p.container_port ++ (10 ∷ (lit "            protocol: " ++ p.protocol)))

abbrev env_lines : Pair → Text
env_lines p =
    lit "            - name: "
    ++ (p.key ++ (10 ∷ (lit "              value: \"" ++ (p.value ++ lit "\""))))

abbrev pub has_key : Pair → Bool
has_key p = is_truthy p.key

abbrev has_port : Port → Bool
has_port p = is_truthy p.container_port

unfoldable labels_yaml : List Pair → Text
labels_yaml labels =
    or_text (join 10 (map label_line (keep has_key labels))) (lit "        app: \"my-app\"")

-- A heading and its rows, or '' where there are none.
abbrev section : Text → Text → Text
section heading rows = if is_truthy rows then heading ++ (10 ∷ rows) else []

unfoldable build_yaml : CreateDialog → Text
build_yaml s =
    let labels = labels_yaml s.form_labels in
    let ports = join 10 (map port_lines (keep has_port s.form_ports)) in
    let env = join 10 (map env_lines (keep has_key s.form_env)) in
    join 10 (
      lit "apiVersion: apps/v1"
      ∷ lit "kind: Deployment"
      ∷ lit "metadata:"
      ∷ (lit "  name: " ++ or_text s.form_name (lit "my-deploy"))
      ∷ (lit "  namespace: " ++ or_text s.form_namespace (lit "default"))
      ∷ lit "spec:"
      ∷ (lit "  replicas: " ++ or_text s.form_replicas (lit "1"))
      ∷ lit "  selector:"
      ∷ lit "    matchLabels:"
      ∷ labels
      ∷ lit "  template:"
      ∷ lit "    metadata:"
      ∷ lit "      labels:"
      ∷ labels
      ∷ lit "    spec:"
      ∷ lit "      containers:"
      ∷ (lit "      - name: " ++ or_text s.form_name (lit "my-container"))
      ∷ (lit "        image: " ++ or_text s.form_image (lit "nginx:latest"))
      ∷ (lit "        imagePullPolicy: " ++ s.form_image_pull_policy)
      ∷ section (lit "        ports:") ports
      ∷ section (lit "        env:") env
      ∷ [])

unfoldable handle_tab_switch : CreateTab → CreateDialog → CreateDialog
handle_tab_switch yaml s = record s { yaml_content = build_yaml s; create_tab = yaml }
handle_tab_switch form s = record s { create_tab = form }

-- The two requests; the replicas go out as `Number(formReplicas)`, kept as their text.
pub data CreateRequest : Type 0 where
  by_form : (name_space deploy_name image_url replicas labels : Text) → CreateRequest
  by_yaml : (content : Text) → CreateRequest

abbrev pub label_pair : Pair → Text
label_pair p = p.key ++ (lit "=" ++ p.value)

-- `labels` of the request.
label_list : List Pair → Text
label_list labels = join b',' (map label_pair (keep has_key labels))

abbrev refuse : Text → CreateDialog → CreateDialog × Option CreateRequest
refuse message s = (record s { toasts = s.toasts ++ message ∷ []; submitting = false }, none)

create_by : CreateTab → CreateDialog → CreateDialog × Option CreateRequest
create_by form s =
    if is_truthy s.form_name
    then (if is_truthy s.form_image
        then (
          record s { submitting = true },
          some (
              by_form s.form_namespace s.form_name s.form_image s.form_replicas
                (label_list s.form_labels)),
        )
        else refuse (lit "请输入镜像地址") s)
    else refuse (lit "请输入名称") s
create_by yaml s = (record s { submitting = true }, some (by_yaml s.yaml_content))

-- `handleCreate`, up to the request.
handle_create : CreateDialog → CreateDialog × Option CreateRequest
handle_create s = create_by s.create_tab s

-- The request is answered; the list is then fetched again.
unfoldable create_answered : Outcome {0} Unit → CreateDialog → CreateDialog
create_answered (resolved _) s = record (reset_create_form s) {
  toasts = s.toasts ++ lit "创建成功" ∷ [];
  create_open = false;
  submitting = false;
}
create_answered (thrown message) s = record s {
  toasts = s.toasts ++ message ∷ [];
  submitting = false;
}
