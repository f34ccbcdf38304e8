-- ===== src/K8s/Gateway.antt =====
-- What the list of gateways, frontend/src/pages/k8s/GatewayList.tsx, says of its items, and its form.
use mrboard.Shared.{Option, some, List, [], ◌∷◌, Text, lit, join}
use mrboard.Session.Api.{Outcome}
use mrboard.K8s.ListPage.{Kind, ListPage, Event, on_event}
use mrboard.K8s.CreateDialog.{FormKind, Dialog, CreateRequest, handle_create, create_answered}

pub record GtwItem : Type 0 where
  pub name : Text
  pub name_space : Text
  pub class_name : Text
  pub addresses : Text
  pub listeners : Text
  pub status : Text
  pub create_time : Text

abbrev gateways : Kind GtwItem
gateways = record {
  name_of = λ (i : GtwItem). i.name;
  namespace_of = λ (i : GtwItem). i.name_space;
  list_path = lit "/mrboard/gateway/v1/List?clusterId=";
  delete_path = lit "/mrboard/gateway/v1/Delete?clusterId=";
  name_param = lit "&gatewayName=";
}

pub record GatewayForm : Type 0 where
  pub form_namespace : Text
  pub form_name : Text
  pub form_gateway_class_name : Text
  pub form_listener_name : Text
  pub form_protocol : Text
  pub form_port : Text
  pub form_hostname : Text
  pub form_allowed_namespaces : Text

-- `defaultYaml`.
abbrev default_yaml : Text
default_yaml = join 10 (
    lit "apiVersion: gateway.networking.k8s.io/v1"
    ∷ lit "kind: Gateway"
    ∷ lit "metadata:"
    ∷ lit "  name: my-gateway"
    ∷ lit "  namespace: default"
    ∷ lit "spec:"
    ∷ lit "  gatewayClassName: \"\""
    ∷ lit "  listeners:"
    ∷ lit "    - name: http"
    ∷ lit "      protocol: HTTP"
    ∷ lit "      port: 80"
    ∷ [])

-- The one listener of the request; its port is kept as the text that `Number` reads.
pub record Listener : Type 0 where
  pub name : Text
  pub protocol : Text
  pub port : Text

pub record GatewayBody : Type 0 where
  pub name_space : Text
  pub gateway_name : Text
  pub gateway_class_name : Text
  pub listeners : List Listener

abbrev listener_of : GatewayForm → Listener
listener_of s = record {
  name = s.form_listener_name;
  protocol = s.form_protocol;
  port = s.form_port;
}

abbrev gateway_form : FormKind GatewayForm GatewayBody
gateway_form = record {
  required_name = λ (s : GatewayForm). s.form_name;
  body_of = λ (s : GatewayForm). record {
    name_space = s.form_namespace;
    gateway_name = s.form_name;
    gateway_class_name = s.form_gateway_class_name;
    listeners = listener_of s ∷ [];
  };
  reset_form = λ (s : GatewayForm). record {
    form_namespace = [];
    form_name = [];
    form_gateway_class_name = [];
    form_listener_name = [];
    form_protocol = lit "HTTP";
    form_port = lit "80";
    form_hostname = [];
    form_allowed_namespaces = lit "Same";
  };
  reset_yaml = some default_yaml;
}

-- The handlers of the list and of the dialog on this page.
unfoldable list_event : (Text → Text) → Event GtwItem → ListPage GtwItem → ListPage GtwItem
list_event lower e s = on_event gateways lower e s

unfoldable create : Dialog GatewayForm → Dialog GatewayForm × Option (CreateRequest GatewayBody)
create s = handle_create gateway_form s

unfoldable created : Outcome {0} Unit → Dialog GatewayForm → Dialog GatewayForm
created outcome s = create_answered gateway_form outcome s
