-- ===== src/Tests/Resources.antt =====
-- Lists of Kubernetes resources at concrete states (frontend/src/pages/k8s).
use mrboard.Shared.{
  ℕ, zero, suc, ◌≡◌, refl, ◌+◌, true, false, none, List, [], ◌∷◌, Text, text_eq, lit, arith, keep,
  contains, join,
}
use mrboard.Shared.{◌++◌, Option, some, not, ◌||◌, ◌↔◌, map, length, is_some, All}
use mrboard.Shared.Assoc.{get}
use mrboard.Shared.Members.{includes}
use mrboard.Shared.Sort.{IsSortedBy}
use mrboard.Metrics.ServiceHealth.{
  Float, PrometheusResult, RawAnswer, ServiceMap, service_of, value_of, parse_raw, service_map,
  services_of,
}
use mrboard.Metrics.ServiceHealth.Laws.{
  rate_in, latency_in, total_of, last_of, service_map_lem, IsJudged, services_of-IsJudged,
}
use mrboard.Metrics.ServiceHealth.Order.{highest_first, IsNumber, services_of-IsSortedBy}
use mrboard.Shared.Numbers.{positive, parse_int}
use mrboard.Log.Entry.{DetectedFieldValue}
use mrboard.Log.Facets.{Group, Shown, level_toggle, option_rows, more_count}
use mrboard.Log.Facets.Laws.{marked, option_rows-more_count}
use mrboard.Trace.Viewer.{Viewer, Tab, TraceFilter, handle_span_id_search}
use mrboard.Trace.Viewer.Laws.{IsHex, handle_span_id_search_lem}
use mrboard.Ai.Stream.{or_text}
use mrboard.Session.Api.{resolved, thrown}
use mrboard.K8s.ListPage.{
  ListPage, Event, arrived, search, pick, confirm, answered, time_passed, is_shown, data_arrived,
  paged, open_page,
}
use mrboard.K8s.ListPage.Laws.{
  after, after-filtered, after-quiet, deletion_of_last, paged-deletion_of_last,
}
use mrboard.K8s.Service.{SvcItem, services}
use mrboard.K8s.HttpRoute.{RuleRow, RouteForm, empty_form, rule_yaml, yaml_rule, build_yaml}
use mrboard.K8s.HttpRoute.Laws.{rule_text, build_yaml-contains}

abbrev service : Text → SvcItem
service name = record {
  service_name = name;
  name_space = lit "shop";
  svc_type = lit "ClusterIP";
  svc_ip = [];
  svc_port = lit "80";
  lan_endpoint = [];
  wan_endpoint = [];
  labels = [];
  create_time = [];
}

abbrev same : Text → Text
same t = t

abbrev deletion : List (Event SvcItem)
deletion =
    arrived false (resolved (service (lit "web") ∷ service (lit "db") ∷ []))
    ∷ search (lit "we")
    ∷ pick (service (lit "web"))
    ∷ confirm
    ∷ answered (thrown (lit "502"))
    ∷ time_passed
    ∷ []

abbrev page_after : ListPage SvcItem
page_after = after services same deletion (open_page services same (lit "1"))

after-filtered_example :
    page_after.filtered
    ≡ keep (is_shown services same page_after.search_name page_after.ns_filter) page_after.items
after-filtered_example = after-filtered services same deletion (lit "1")

after-quiet_example :
    (page_after.loud_fetches ≡ 0 → page_after.loading ≡ false)
    × (page_after.deletions + page_after.timeouts ≡ 0 → page_after.operating_deploy ≡ none)
after-quiet_example = after-quiet services same deletion (lit "1")

abbrev web_rule : RuleRow
web_rule = record {
  path = lit "/web";
  path_type = lit "Exact";
  backend_service = lit "web";
  backend_port = lit "8080";
}

abbrev two_rules : RouteForm
two_rules = record empty_form { rules = record web_rule { backend_service = [] } ∷ web_rule ∷ [] }

build_yaml-contains_example :
    contains (rule_text same [] web_rule) (build_yaml same two_rules) ≡ true
build_yaml-contains_example =
    build_yaml-contains same two_rules (record web_rule { backend_service = [] } ∷ []) [] web_rule
      refl refl

-- The text of a rule.
web_rule_text :
    rule_yaml (yaml_rule same [] web_rule)
    ≡ join 10 (
        lit "    - matches:"
        ∷ lit "        - path:"
        ∷ lit "            type: Exact"
        ∷ lit "            value: /web"
        ∷ lit "      backendRefs:"
        ∷ lit "        - name: web"
        ∷ lit "          port: 8080"
        ∷ [])
unfolding rule_yaml yaml_rule or_text keep
web_rule_text = refl

abbrev web_series : PrometheusResult
web_series = record { metric = (lit "job", lit "web") ∷ []; value = some (lit "7") }

abbrev parse_one : Text → Option (List PrometheusResult)
parse_one t = some (web_series ∷ [])

-- Stands for parseFloat: the whole part of the text, as millionths.
abbrev read_float : Text → Float
read_float t = parse_int t

abbrev two_series : List PrometheusResult
two_series = web_series ∷ web_series ∷ []

abbrev web_map : ServiceMap
web_map = service_map parse_one read_float two_series (web_series ∷ [])

service_map_lem_example :
    (rate_in (get (lit "web") web_map)
      ≡ total_of parse_one read_float (lit "web") (some (positive 0)) two_series)
    × (latency_in (get (lit "web") web_map)
        ≡ last_of parse_one read_float (lit "web") (some (positive 0)) (web_series ∷ []))
    × (is_some (get (lit "web") web_map) ≡ (
        includes (map service_of two_series) (lit "web")
        || includes (map service_of (web_series ∷ [])) (lit "web")))
service_map_lem_example =
    service_map_lem parse_one read_float two_series (web_series ∷ []) (lit "web")

abbrev one_answer : RawAnswer
one_answer = record { is_ok = true; raw = lit "{}" }

services_of-IsJudged_example : All IsJudged (services_of parse_one read_float one_answer one_answer)
services_of-IsJudged_example = services_of-IsJudged parse_one read_float one_answer one_answer

one_answer_numbers :
    All
      (λ r. IsNumber (value_of parse_one read_float r))
      (parse_raw parse_one read_float one_answer)
unfolding parse_raw parse_int or_text mrboard.Shared.Numbers.read_number mrboard.Shared.trim_start
    mrboard.Shared.is_space
one_answer_numbers = (refl, tt)

services_of-IsSortedBy_example :
    IsSortedBy highest_first (services_of parse_one read_float one_answer one_answer)
services_of-IsSortedBy_example =
    services_of-IsSortedBy parse_one read_float one_answer one_answer one_answer_numbers

abbrev searched : Viewer
searched = record {
  traces = [];
  loading = false;
  has_searched = false;
  service_name = [];
  tags = [];
  limit = lit "20";
  cluster_id = lit "1";
  active_tab = Tab.traces;
  trace_filter = TraceFilter.all;
  span_id = lit "0123456789abcdef0123456789ABCDEF";
  operation = [];
  time_range = 0;
  min_duration = [];
  max_duration = [];
  toasts = [];
}

handle_span_id_search_lem_example :
    (((handle_span_id_search searched).1
        ≡ some ((lit "clusterId", lit "1") ∷ (lit "spanID", searched.span_id) ∷ []))
      ↔ ((length searched.span_id ≡ 32) × IsHex searched.span_id))
    × ((handle_span_id_search searched).1 ≡ none
        → (handle_span_id_search searched).0.loading ≡ false)
handle_span_id_search_lem_example = handle_span_id_search_lem searched

abbrev copies : ℕ → List SvcItem
copies zero = []
copies (suc n) = service (lit "db") ∷ copies n

abbrev one_page : List SvcItem
one_page = copies 20

abbrev before_fetch : ListPage SvcItem
before_fetch =
    after services same (deletion_of_last services same 1 one_page (service (lit "web")))
      (open_page services same (lit "1"))

abbrev after_fetch : ListPage SvcItem
after_fetch = data_arrived services same true (resolved one_page) before_fetch

paged-deletion_of_last_example :
    (paged services same before_fetch ≡ service (lit "web") ∷ [])
    × (paged services same after_fetch ≡ [])
    × (after_fetch.page ≡ 2)
    × (after_fetch.filtered ≡ one_page)
paged-deletion_of_last_example =
    paged-deletion_of_last services same 1 one_page (service (lit "web")) (lit "1") refl

abbrev opened_group : Shown
opened_group = record { expanded = true; show_all = false }

abbrev values_of : ℕ → List DetectedFieldValue
values_of zero = []
values_of (suc n) = record { value = lit "web"; count = n } ∷ values_of n

abbrev twelve : Group
twelve = record {
  title = lit "app";
  options = values_of 12;
  selected = [];
  exclude_selected = [];
  toggles = level_toggle;
  default_expanded = true;
}

option_rows-more_count_example :
    (rest : List DetectedFieldValue) × (option_rows twelve opened_group ++ map (marked twelve) rest
      ≡ map (marked twelve) twelve.options)
    × (length (option_rows twelve opened_group) ≡ 10)
    × (more_count twelve opened_group ≡ length rest)
option_rows-more_count_example = option_rows-more_count twelve opened_group refl
