-- ===== src/K8s/Service.antt =====
-- What the list of services, frontend/src/pages/k8s/ServiceList.tsx, says of its items, and its form.
use mrboard.Shared.{
  Option, ℕ, ◌++◌, Bool, none, List, [], ◌∷◌, map, Text, lit, is_truthy, keep, trim,
}
use mrboard.Ai.Stream.{or_text}
use mrboard.Session.Api.{Outcome}
use mrboard.Deploy.Create.{Pair, remove_at, change_at, set_pair}
use mrboard.K8s.ListPage.{Kind, ListPage, Event, on_event}
use mrboard.K8s.CreateDialog.{FormKind, Dialog, CreateRequest, handle_create, create_answered}

pub record SvcItem : Type 0 where
  pub service_name : Text
  pub name_space : Text
  pub svc_type : Text
  pub svc_ip : Text
  pub svc_port : Text
  pub lan_endpoint : Text
  pub wan_endpoint : Text
  pub labels : Text
  pub create_time : Text

abbrev pub services : Kind SvcItem
services = record {
  name_of = λ (i : SvcItem). i.service_name;
  namespace_of = λ (i : SvcItem). i.name_space;
  list_path = lit "/mrboard/svc/v1/List?clusterId=";
  delete_path = lit "/mrboard/svc/v1/Del?clusterId=";
  name_param = lit "&serviceName=";
}

pub record PortRow : Type 0 where
  pub name : Text
  pub port : Text
  pub target_port : Text
  pub protocol : Text

pub record ServiceForm : Type 0 where
  pub form_name_space : Text
  pub form_service_name : Text
  pub form_type : Text
  pub port_rows : List PortRow
  pub selector_rows : List Pair
  pub form_session_affinity : Text

unfoldable add_port_row : ServiceForm → ServiceForm
add_port_row s = record s {
  port_rows =
      s.port_rows ++ record { name = []; port = []; target_port = []; protocol = lit "TCP" } ∷ [];
}

unfoldable remove_port_row : ℕ → ServiceForm → ServiceForm
remove_port_row i s = record s { port_rows = remove_at i s.port_rows }

pub data PortField : Type 0 where
  name port target_port protocol : PortField

abbrev set_port : PortField → Text → PortRow → PortRow
set_port name text r = record r { name = text }
set_port port text r = record r { port = text }
set_port target_port text r = record r { target_port = text }
set_port protocol text r = record r { protocol = text }

unfoldable update_port_row : ℕ → PortField → Text → ServiceForm → ServiceForm
update_port_row i field text s = record s {
  port_rows = change_at i (set_port field text) s.port_rows;
}

unfoldable add_selector_row : ServiceForm → ServiceForm
add_selector_row s = record s {
  selector_rows = s.selector_rows ++ record { key = []; value = [] } ∷ [];
}

unfoldable remove_selector_row : ℕ → ServiceForm → ServiceForm
remove_selector_row i s = record s { selector_rows = remove_at i s.selector_rows }

unfoldable update_selector_row : ℕ → Bool → Text → ServiceForm → ServiceForm
update_selector_row i is_key text s = record s {
  selector_rows = change_at i (set_pair is_key text) s.selector_rows;
}

-- A port of the request; the numbers are kept as the texts that `Number` reads.
pub record ServicePort : Type 0 where
  pub port_name : Text
  pub svc_port : Text
  pub target_port : Text
  pub protocol : Text

pub record ServiceBody : Type 0 where
  pub name_space : Text
  pub service_name : Text
  pub svc_type : Text
  pub ports : List ServicePort
  pub lables : List Pair

abbrev has_port : PortRow → Bool
has_port r = is_truthy r.port

abbrev service_port : PortRow → ServicePort
service_port r = record {
  port_name = r.name;
  svc_port = r.port;
  target_port = or_text r.target_port r.port;
  protocol = r.protocol;
}

abbrev has_trimmed_key : Pair → Bool
has_trimmed_key r = is_truthy (trim r.key)

abbrev trimmed_pair : Pair → Pair
trimmed_pair r = record { key = trim r.key; value = trim r.value }

abbrev first_port_row : PortRow
first_port_row = record { name = []; port = lit "80"; target_port = lit "80"; protocol = lit "TCP" }

-- A success leaves the YAML as it is.
abbrev pub service_form : FormKind ServiceForm ServiceBody
service_form = record {
  required_name = λ (s : ServiceForm). s.form_service_name;
  body_of = λ (s : ServiceForm). record {
    name_space = s.form_name_space;
    service_name = s.form_service_name;
    svc_type = s.form_type;
    ports = map service_port (keep has_port s.port_rows);
    lables = map trimmed_pair (keep has_trimmed_key s.selector_rows);
  };
  reset_form = λ (s : ServiceForm). record {
    form_name_space = [];
    form_service_name = [];
    form_type = lit "ClusterIP";
    port_rows = first_port_row ∷ [];
    selector_rows = record { key = []; value = [] } ∷ [];
    form_session_affinity = lit "None";
  };
  reset_yaml = none;
}

-- The handlers of the list and of the dialog on this page.
unfoldable list_event : (Text → Text) → Event SvcItem → ListPage SvcItem → ListPage SvcItem
list_event lower e s = on_event services lower e s

unfoldable create : Dialog ServiceForm → Dialog ServiceForm × Option (CreateRequest ServiceBody)
create s = handle_create service_form s

unfoldable created : Outcome {0} Unit → Dialog ServiceForm → Dialog ServiceForm
created outcome s = create_answered service_form outcome s
