-- ===== src/K8s/Ingress.antt =====
-- What the list of ingresses, frontend/src/pages/k8s/IngressList.tsx, says of its items, and its form.
-- `port` is the text of `Number(t) || 80`.
use mrboard.Shared.{
  ℕ, ◌++◌, Bool, ◌||◌, Option, none, some, List, [], ◌∷◌, map, if◌then◌else◌, Text, lit, is_truthy,
  keep,
}
use mrboard.Session.Api.{Outcome}
use mrboard.Ai.Stream.{or_text}
use mrboard.Deploy.Create.{remove_at, change_at}
use mrboard.K8s.ListPage.{Kind, ListPage, Event, on_event}
use mrboard.K8s.CreateDialog.{FormKind, Dialog, CreateRequest, handle_create, create_answered}

pub record IngressItem : Type 0 where
  pub ingress_name : Text
  pub name_space : Text
  pub ingress_class : Text
  pub rules : Text
  pub endpoint : Text
  pub labels : Text
  pub create_time : Text

abbrev ingresses : Kind IngressItem
ingresses = record {
  name_of = λ (i : IngressItem). i.ingress_name;
  namespace_of = λ (i : IngressItem). i.name_space;
  list_path = lit "/mrboard/ing/v1/List?clusterId=";
  delete_path = lit "/mrboard/ing/v1/Del?clusterId=";
  name_param = lit "&ingressName=";
}

pub record RuleRow : Type 0 where
  pub host : Text
  pub path : Text
  pub backend_service : Text
  pub backend_port : Text

pub record IngressForm : Type 0 where
  pub form_name_space : Text
  pub form_ingress_name : Text
  pub form_ingress_class_name : Text
  pub form_tls_secret_name : Text
  pub rule_rows : List RuleRow

abbrev new_rule : RuleRow
new_rule = record { host = []; path = lit "/"; backend_service = []; backend_port = lit "80" }

unfoldable add_rule_row : IngressForm → IngressForm
add_rule_row s = record s { rule_rows = s.rule_rows ++ new_rule ∷ [] }

unfoldable remove_rule_row : ℕ → IngressForm → IngressForm
remove_rule_row i s = record s { rule_rows = remove_at i s.rule_rows }

pub data RuleField : Type 0 where
  host path backend_service backend_port : RuleField

abbrev set_rule : RuleField → Text → RuleRow → RuleRow
set_rule host text r = record r { host = text }
set_rule path text r = record r { path = text }
set_rule backend_service text r = record r { backend_service = text }
set_rule backend_port text r = record r { backend_port = text }

unfoldable update_rule_row : ℕ → RuleField → Text → IngressForm → IngressForm
update_rule_row i field text s = record s {
  rule_rows = change_at i (set_rule field text) s.rule_rows;
}

-- A path of the request; its type is always Prefix.
pub record IngressPath : Type 0 where
  pub path : Text
  pub path_type : Text
  pub service_name : Text
  pub service_port : Text

-- A field that is undefined is left out of the request.
pub record IngressBody : Type 0 where
  pub name_space : Text
  pub ingress_name : Text
  pub ingress_class_name : Option Text
  pub tls_cert : Option Text
  pub ingress_host : Text
  pub paths : List IngressPath

-- `t || undefined`.
abbrev or_undefined : Text → Option Text
or_undefined t = if is_truthy t then some t else none

-- `ruleRows[0]`, or a new row.
abbrev first_rule : List RuleRow → RuleRow
first_rule [] = new_rule
first_rule (r ∷ rs) = r

abbrev is_filled : RuleRow → Bool
is_filled r = is_truthy r.host || is_truthy r.backend_service

abbrev path_of : (Text → Text) → RuleRow → IngressPath
path_of port r = record {
  path = or_text r.path (lit "/");
  path_type = lit "Prefix";
  service_name = r.backend_service;
  service_port = port r.backend_port;
}

-- A success leaves the YAML as it is.
abbrev ingress_form : (Text → Text) → FormKind IngressForm IngressBody
ingress_form port = record {
  required_name = λ (s : IngressForm). s.form_ingress_name;
  body_of = λ (s : IngressForm). record {
    name_space = s.form_name_space;
    ingress_name = s.form_ingress_name;
    ingress_class_name = or_undefined s.form_ingress_class_name;
    tls_cert = or_undefined s.form_tls_secret_name;
    ingress_host = (first_rule s.rule_rows).host;
    paths = map (path_of port) (keep is_filled s.rule_rows);
  };
  reset_form = λ (s : IngressForm). record {
    form_name_space = [];
    form_ingress_name = [];
    form_ingress_class_name = [];
    form_tls_secret_name = [];
    rule_rows = new_rule ∷ [];
  };
  reset_yaml = none;
}

-- The handlers of the list and of the dialog on this page.
unfoldable list_event :
    (Text → Text) → Event IngressItem → ListPage IngressItem → ListPage IngressItem
list_event lower e s = on_event ingresses lower e s

unfoldable create :
    (Text → Text) → Dialog IngressForm → Dialog IngressForm × Option (CreateRequest IngressBody)
create port s = handle_create (ingress_form port) s

unfoldable created : (Text → Text) → Outcome {0} Unit → Dialog IngressForm → Dialog IngressForm
created port outcome s = create_answered (ingress_form port) outcome s
