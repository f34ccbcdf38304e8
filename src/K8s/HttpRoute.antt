-- ===== src/K8s/HttpRoute.antt =====
-- The dialog that creates an HTTPRoute, frontend/src/pages/k8s/HttpRouteList.tsx, and what the list of
-- the routes says of its items. `port` is the text of `Number(t) || 80`.
pub mod Laws
use mrboard.Shared.{
  ℕ, zero, suc, ◌++◌, Bool, true, false, Option, none, some, List, [], ◌∷◌, map, if◌then◌else◌,
  Text, lit, is_truthy, keep, join, split, trim, length, ltb,
}
use mrboard.Ai.Stream.{or_text}
use mrboard.Session.Api.{Outcome}
use mrboard.Deploy.Create.{Pair, CreateTab, form, yaml, remove_at, change_at, set_pair, has_key}
use mrboard.K8s.ListPage.{Kind, ListPage, Event, on_event}
use mrboard.K8s.CreateDialog.{FormKind, Dialog, CreateRequest, handle_create, create_answered}

pub record RouteItem : Type 0 where
  pub httproute_name : Text
  pub name_space : Text
  pub hostnames : Text
  pub parent_refs : Text
  pub rules : ℕ
  pub create_time : Text

abbrev http_routes : Kind RouteItem
http_routes = record {
  name_of = λ (i : RouteItem). i.httproute_name;
  namespace_of = λ (i : RouteItem). i.name_space;
  list_path = lit "/mrboard/httproute/v1/List?clusterId=";
  delete_path = lit "/mrboard/httproute/v1/Delete?clusterId=";
  name_param = lit "&httprouteName=";
}

pub record RuleRow : Type 0 where
  pub path : Text
  pub path_type : Text
  pub backend_service : Text
  pub backend_port : Text

pub record RouteForm : Type 0 where
  pub form_namespace : Text
  pub form_name : Text
  pub form_gateway_name : Text
  pub form_hostnames : Text
  pub form_path : Text
  pub form_backend_service : Text
  pub form_backend_port : Text
  pub form_path_type : Text
  pub rules : List RuleRow
  pub headers : List Pair

abbrev new_rule : RuleRow
new_rule = record {
  path = lit "/";
  path_type = lit "PathPrefix";
  backend_service = [];
  backend_port = lit "80";
}

add_rule : RouteForm → RouteForm
add_rule s = record s { rules = s.rules ++ new_rule ∷ [] }

remove_rule : ℕ → RouteForm → RouteForm
remove_rule i s = if ltb 1 (length s.rules) then record s { rules = remove_at i s.rules } else s

pub data RuleField : Type 0 where
  path path_type backend_service backend_port : RuleField

abbrev set_rule : RuleField → Text → RuleRow → RuleRow
set_rule path text r = record r { path = text }
set_rule path_type text r = record r { path_type = text }
set_rule backend_service text r = record r { backend_service = text }
set_rule backend_port text r = record r { backend_port = text }

update_rule : ℕ → RuleField → Text → RouteForm → RouteForm
update_rule i field text s = record s { rules = change_at i (set_rule field text) s.rules }

unfoldable add_header : RouteForm → RouteForm
add_header s = record s { headers = s.headers ++ record { key = []; value = [] } ∷ [] }

unfoldable remove_header : ℕ → RouteForm → RouteForm
remove_header i s = record s { headers = remove_at i s.headers }

unfoldable update_header : ℕ → Bool → Text → RouteForm → RouteForm
update_header i is_key text s = record s { headers = change_at i (set_pair is_key text) s.headers }

-- `defaultYaml`.
abbrev default_yaml : Text
default_yaml = join 10 (
    lit "apiVersion: gateway.networking.k8s.io/v1"
    ∷ lit "kind: HTTPRoute"
    ∷ lit "metadata:"
    ∷ lit "  name: my-httproute"
    ∷ lit "  namespace: default"
    ∷ lit "spec:"
    ∷ lit "  parentRefs:"
    ∷ lit "    - name: my-gateway"
    ∷ lit "  hostnames:"
    ∷ lit "    - example.com"
    ∷ lit "  rules:"
    ∷ lit "    - matches:"
    ∷ lit "        - path:"
    ∷ lit "            type: PathPrefix"
    ∷ lit "            value: /"
    ∷ lit "      backendRefs:"
    ∷ lit "        - name: my-service"
    ∷ lit "          port: 80"
    ∷ [])

-- The form as it opens and as `resetForm` leaves it.
abbrev pub empty_form : RouteForm
empty_form = record {
  form_namespace = lit "default";
  form_name = [];
  form_gateway_name = [];
  form_hostnames = [];
  form_path = lit "/";
  form_backend_service = [];
  form_backend_port = lit "80";
  form_path_type = lit "PathPrefix";
  rules = new_rule ∷ [];
  headers = [];
}

-- A rule as `buildYaml` gathers it, with the headers that have a name.
pub record YamlRule : Type 0 where
  pub match_type : Text
  pub match_value : Text
  pub match_headers : List Pair
  pub backend_name : Text
  pub port_number : Text

abbrev header_text : Pair → Text
header_text h =
    10 ∷ (lit "            - name: " ++ (h.key ++ (10 ∷ (lit "              value: " ++ h.value))))

abbrev header_texts : List Pair → Text
header_texts [] = []
header_texts (h ∷ hs) = header_text h ++ header_texts hs

abbrev headers_yaml : List Pair → Text
headers_yaml [] = []
headers_yaml (h ∷ hs) = (10 ∷ lit "          headers:") ++ header_texts (h ∷ hs)

-- The text of a rule.
unfoldable pub rule_yaml : YamlRule → Text
rule_yaml r = join 10 (
    lit "    - matches:"
    ∷ lit "        - path:"
    ∷ (lit "            type: " ++ r.match_type)
    ∷ (lit "            value: " ++ (r.match_value ++ headers_yaml r.match_headers))
    ∷ lit "      backendRefs:"
    ∷ (lit "        - name: " ++ r.backend_name)
    ∷ (lit "          port: " ++ r.port_number)
    ∷ [])

abbrev has_backend : RuleRow → Bool
has_backend r = is_truthy r.backend_service

abbrev or_rules : List YamlRule → List YamlRule → List YamlRule
or_rules [] others = others
or_rules (r ∷ rs) others = r ∷ rs

abbrev or_host : List Text → List Text
or_host [] = lit "example.com" ∷ []
or_host (h ∷ hs) = h ∷ hs

abbrev my_service_rule : YamlRule
my_service_rule = record {
  match_type = lit "PathPrefix";
  match_value = lit "/";
  match_headers = [];
  backend_name = lit "my-service";
  port_number = lit "80";
}

-- The lines of `buildYaml` up to the rules. Neither the host names nor the rules are empty, so that all
-- lines are joined at once.
unfoldable head_lines : RouteForm → List Text
head_lines s =
    let hostnames = keep is_truthy (map trim (split b',' s.form_hostnames)) in
    lit "apiVersion: gateway.networking.k8s.io/v1"
    ∷ lit "kind: HTTPRoute"
    ∷ lit "metadata:"
    ∷ (lit "  name: " ++ or_text s.form_name (lit "my-httproute"))
    ∷ (lit "  namespace: " ++ or_text s.form_namespace (lit "default"))
    ∷ lit "spec:"
    ∷ lit "  parentRefs:"
    ∷ (lit "    - name: " ++ or_text s.form_gateway_name (lit "my-gateway"))
    ∷ lit "  hostnames:"
    ∷ map (λ (h : Text). lit "    - " ++ h) (or_host hostnames)

module _ (port : Text → Text) where
  unfoldable pub yaml_rule : List Pair → RuleRow → YamlRule
  yaml_rule headers r = record {
    match_type = r.path_type;
    match_value = or_text r.path (lit "/");
    match_headers = keep has_key headers;
    backend_name = r.backend_service;
    port_number = port r.backend_port;
  }

  -- The single rule of the fields below the rows, where no row has a service.
  abbrev single_rule : RouteForm → List YamlRule
  single_rule s =
      if is_truthy s.form_backend_service
      then yaml_rule s.headers (record {
        path = s.form_path;
        path_type = s.form_path_type;
        backend_service = s.form_backend_service;
        backend_port = s.form_backend_port;
      })
        ∷ []
      else []

  unfoldable yaml_rules : RouteForm → List YamlRule
  yaml_rules s =
      or_rules (or_rules (map (yaml_rule s.headers) (keep has_backend s.rules)) (single_rule s))
        (my_service_rule ∷ [])

  pub build_yaml : RouteForm → Text
  build_yaml s = join 10 (head_lines s ++ (lit "  rules:" ∷ map rule_yaml (yaml_rules s)))

  unfoldable handle_tab_switch : CreateTab → Dialog RouteForm → Dialog RouteForm
  handle_tab_switch yaml s = record s { yaml_content = build_yaml s.fields; create_tab = yaml }
  handle_tab_switch form s = record s { create_tab = form }

-- The body of the form's request; the port goes out as `Number(formBackendPort)`, kept as its text.
pub record RouteBody : Type 0 where
  pub name_space : Text
  pub route_name : Text
  pub gateway_name : Text
  pub hostnames : Text
  pub path : Text
  pub backend_service : Text
  pub backend_port : Text

abbrev route_form : FormKind RouteForm RouteBody
route_form = record {
  required_name = λ (s : RouteForm). s.form_name;
  body_of = λ (s : RouteForm). record {
    name_space = s.form_namespace;
    route_name = s.form_name;
    gateway_name = s.form_gateway_name;
    hostnames = s.form_hostnames;
    path = s.form_path;
    backend_service = s.form_backend_service;
    backend_port = s.form_backend_port;
  };
  reset_form = λ (s : RouteForm). empty_form;
  reset_yaml = some default_yaml;
}

-- The handlers of the list and of the dialog on this page.
unfoldable list_event : (Text → Text) → Event RouteItem → ListPage RouteItem → ListPage RouteItem
list_event lower e s = on_event http_routes lower e s

unfoldable create : Dialog RouteForm → Dialog RouteForm × Option (CreateRequest RouteBody)
create s = handle_create route_form s

unfoldable created : Outcome {0} Unit → Dialog RouteForm → Dialog RouteForm
created outcome s = create_answered route_form outcome s
