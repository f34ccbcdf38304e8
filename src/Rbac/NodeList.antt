-- ===== src/Rbac/NodeList.antt =====
-- The page over the tree of permission nodes, frontend/src/pages/rbac/NodeList.tsx. An operation
-- returns the next state and the requests that it sends; the answer to a request is an operation
-- of its own.
pub mod Laws
use mrboard.Shared.{
  ℕ, Bool, true, false, not, ◌&&◌, ◌||◌, ◌==◌, text_eq, Option, none, some, List, [], ◌∷◌, ◌++◌,
  if◌then◌else◌, Text, nat_eq, lit, is_truthy,
}
use mrboard.Session.Api.{Outcome, resolved, thrown}
use mrboard.Rbac.NodeTree.{
  NodeInfo, Nodes, nil, select_all, expand_all, fold_all, toggle_select, toggle_row,
}

pub record Form : Type 0 where
  pub title : Text
  pub name : Text
  pub pid : Text
  pub level : Text
  pub group_id : Text
  pub status : Text
  pub remark : Text

abbrev pub blank_form : Form
blank_form = record {
  title = [];
  name = [];
  pid = lit "0";
  level = lit "1";
  group_id = [];
  status = lit "2";
  remark = [];
}

pub record Page : Type 0 where
  pub nodes : Nodes
  pub loading : Bool
  pub expanded : List ℕ
  pub add_open : Bool
  pub auth_open : Bool
  pub selected : List ℕ
  pub filter_group : Text
  pub auth_role : Text
  pub form : Form
  pub delete_target : Option NodeInfo
  pub toasts : List Text

pub data Request : Type 0 where
  list_nodes : Request
  list_group : (group : Text) → Request
  add_node : Form → Request
  delete_node : NodeInfo → Request
  add_access : (role : Text) → (nodes : List ℕ) → Request

abbrev toast : Text → Page → Page
toast message p = record p { toasts = p.toasts ++ message ∷ [] }

-- `fetchNodes(groupId)`: the request, and the answer's list of nodes.
abbrev fetch_request : Text → Request
fetch_request group = if is_truthy group then list_group group else list_nodes

fetch_nodes : Text → Page → Page × List Request
fetch_nodes group p = (record p { loading = true }, fetch_request group ∷ [])

nodes_arrived : Outcome Nodes → Page → Page
nodes_arrived (resolved list) p = record p { nodes = list; loading = false }
nodes_arrived (thrown message) p = toast message (record p { loading = false })

-- The choice of a group, with the effect that runs when the group has changed to one that is truthy.
set_filter_group : Text → Page → Page × List Request
unfolding fetch_nodes
set_filter_group group p =
    let p' = record p { filter_group = group } in
    if is_truthy group && not (group == p.filter_group) then fetch_nodes group p' else (p', [])

unfoldable handle_add : Page → Page × List Request
handle_add p =
    if not (is_truthy p.form.title) || not (is_truthy p.form.name)
    then (toast (lit "请填写显示名和应用名") p, [])
    else (p, add_node p.form ∷ [])

unfoldable add_answered : Outcome (Unit {0}) → Page → Page × List Request
unfolding fetch_nodes
add_answered (resolved _) p =
    fetch_nodes p.filter_group
      (record (toast (lit "添加成功") p) { add_open = false; form = blank_form })
add_answered (thrown message) p = (toast message p, [])

request_delete : NodeInfo → Page → Page
request_delete n p = record p { delete_target = some n }

abbrev delete_request : Option NodeInfo → List Request
delete_request none = []
delete_request (some n) = delete_node n ∷ []

unfoldable handle_delete : Page → Page × List Request
handle_delete p = (p, delete_request p.delete_target)

delete_answered : Outcome (Unit {0}) → Page → Page × List Request
unfolding fetch_nodes
delete_answered (resolved _) p =
    fetch_nodes p.filter_group (record (toast (lit "删除成功") p) { delete_target = none })
delete_answered (thrown message) p = (toast message p, [])

abbrev is_empty : List ℕ → Bool
is_empty [] = true
is_empty (x ∷ xs) = false

handle_auth_to_role : Page → Page × List Request
handle_auth_to_role p =
    if is_empty p.selected
    then (toast (lit "请先选择节点") p, [])
    else if not (is_truthy p.auth_role)
    then (toast (lit "请选择角色") p, [])
    else (p, add_access p.auth_role p.selected ∷ [])

auth_answered : Outcome (Unit {0}) → Page → Page
auth_answered (resolved _) p = record (toast (lit "授权成功") p) {
  auth_open = false;
  selected = [];
  auth_role = [];
}
auth_answered (thrown message) p = toast message p

unfoldable select_node : ℕ → Page → Page
select_node id p = record p { selected = toggle_select id p.selected }

-- The box over the column: it is checked where anything is selected.
check_all : Bool → Page → Page
check_all true p = record p { selected = select_all p.nodes }
check_all false p = record p { selected = [] }

unfoldable toggle_node : ℕ → Page → Page
toggle_node id p = record p { expanded = toggle_row id p.expanded }

unfoldable expand_nodes : Page → Page
expand_nodes p = record p { expanded = expand_all p.nodes }

unfoldable fold_nodes : Page → Page
fold_nodes p = record p { expanded = fold_all }
