-- ===== src/Tools/Clone.antt =====
-- The form that clones resources to another cluster, frontend/src/pages/tools/CloneResource.tsx. An
-- operation returns the next state and the requests that it sends; an answer is an operation of its own.
pub mod Laws
use mrboard.Shared.{
  ℕ, ◌++◌, Bool, true, false, not, ◌&&◌, ◌||◌, Option, none, some, List, [], ◌∷◌, if◌then◌else◌,
  ◌==◌, nat_beq, Text, text_eq, lit, is_truthy, is_space, keep,
}
use mrboard.Shared.Assoc.{get}
use mrboard.Session.Api.{Outcome, resolved, thrown}

pub record CloneRecord : Type 0 where
  pub clusterid : Text
  pub namespace : Text
  pub restype : Text
  pub objname : Text
  pub target_clusterid : Text
  pub target_namespace : Text
  pub target_objname : Text
  pub status : Text
  pub result : Text
  pub user : Text
  pub createtime : Text

pub record Form : Type 0 where
  pub res_type : Text
  pub clusterid : Text
  pub namespace : Text
  pub target_clusterid : Text
  pub target_namespace : Text
  pub objname : Text
  pub target_objname : Text

abbrev placeholder : Text
placeholder = lit "__placeholder__"

abbrev pub blank_form : Form
blank_form = record {
  res_type = placeholder;
  clusterid = placeholder;
  namespace = placeholder;
  target_clusterid = placeholder;
  target_namespace = placeholder;
  objname = [];
  target_objname = [];
}

-- A cluster is its id and its name.
pub record ClonePage : Type 0 where
  pub clusters : List (Text × Text)
  pub namespaces : List Text
  pub target_namespaces : List Text
  pub records : List CloneRecord
  pub loading : Bool
  pub submitting : Bool
  pub confirm_open : Bool
  pub form : Form
  pub toasts : List Text

pub data Request : Type 0 where
  list_clusters list_records : Request
  list_namespaces : (cluster_id : Text) → (target : Bool) → Request
  clone : (url : Text) → Form → Request

abbrev toast : Text → ClonePage → ClonePage
toast message p = record p { toasts = p.toasts ++ message ∷ [] }

-- `resp.data || []`.
abbrev or_none {ℓ} : {A : Type ℓ} → Option (List A) → List A
or_none none = []
or_none (some xs) = xs

fetch_records : ClonePage → ClonePage × List Request
fetch_records p = (record p { loading = true }, list_records ∷ [])

unfoldable records_arrived : Outcome (Option (List CloneRecord)) → ClonePage → ClonePage
records_arrived (resolved o) p = record p { records = or_none o; loading = false }
records_arrived (thrown message) p = toast message (record p { loading = false })

-- `update`, for the key that `set_field` writes; an empty value changes nothing.
unfoldable update : (Text → Form → Form) → Text → ClonePage → ClonePage
update set_field val p = if is_truthy val then record p { form = set_field val p.form } else p

unfoldable start : ClonePage → ClonePage × List Request
unfolding fetch_records
start p = ((fetch_records p).0, list_clusters ∷ (fetch_records p).1)

unfoldable clusters_arrived : Outcome (Option (List (Text × Text))) → ClonePage → ClonePage
clusters_arrived (resolved o) p = record p { clusters = or_none o }
clusters_arrived (thrown message) p = toast message p

-- `fetchNamespaces`.
fetch_namespaces : Text → Bool → List Request
fetch_namespaces cid target = if is_truthy cid then list_namespaces cid target ∷ [] else []

unfoldable namespaces_arrived : Bool → Outcome (Option (List Text)) → ClonePage → ClonePage
namespaces_arrived true (resolved o) p = record p { target_namespaces = or_none o }
namespaces_arrived false (resolved o) p = record p { namespaces = or_none o }
namespaces_arrived target (thrown message) p = toast message p

-- A choice of '' changes nothing, in either of the two handlers.
unfoldable handle_cluster_change : Text → ClonePage → ClonePage × List Request
unfolding fetch_namespaces
handle_cluster_change val p =
    if is_truthy val
    then (
      record p { form = record p.form { clusterid = val; namespace = placeholder } },
      fetch_namespaces val false,
    )
    else (p, [])

unfoldable handle_target_cluster_change : Text → ClonePage → ClonePage × List Request
unfolding fetch_namespaces
handle_target_cluster_change val p =
    if is_truthy val
    then (
      record p { form = record p.form { target_clusterid = val; target_namespace = placeholder } },
      fetch_namespaces val true,
    )
    else (p, [])

abbrev is_unset : Text → Bool
is_unset v = not (is_truthy v) || v == placeholder

-- `s.trim()` is not ''.
abbrev has_letter : Text → Bool
has_letter [] = false
has_letter (c ∷ s) = not (is_space c) || has_letter s

unfoldable pub handle_submit : ClonePage → ClonePage
handle_submit p =
    if is_unset p.form.res_type
    then toast (lit "请选择资源类型") p
    else if is_unset p.form.clusterid
    then toast (lit "请选择当前集群") p
    else if is_unset p.form.namespace
    then toast (lit "请选择命名空间") p
    else if not (has_letter p.form.objname)
    then toast (lit "请输入对象名称") p
    else record p { confirm_open = true }

-- `s.replace(/，|\r|\n/g, ',')`; 65292 is the full-width comma.
unfoldable pub to_commas : Text → Text
to_commas [] = []
to_commas (c ∷ s) =
    (if nat_beq c 65292 || (nat_beq c 13 || nat_beq c 10) then b',' else c) ∷ to_commas s

-- `.replace(/\s/g, '')` after it.
unfoldable pub clean_names : Text → Text
unfolding to_commas
clean_names s = keep (λ c. not (is_space c)) (to_commas s)

abbrev clean : Text → Text
clean v = if v == placeholder then [] else v

abbrev url_map : List (Text × Text)
url_map =
    (lit "deployment", lit "/mrboard/deploy/v1/Clone")
    ∷ (lit "service", lit "/mrboard/svc/v1/Clone")
    ∷ (lit "configmap", lit "/mrboard/cm/v1/Clone")
    ∷ (lit "secret", lit "/mrboard/secret/v1/Clone")
    ∷ (lit "cronjob", lit "/mrboard/cronjob/v1/Clone")
    ∷ (lit "statefulset", lit "/mrboard/sts/v1/Clone")
    ∷ []

-- The body of the request.
pub clone_body : Form → Form
unfolding clean_names
clone_body f = record {
  res_type = f.res_type;
  clusterid = clean f.clusterid;
  namespace = clean f.namespace;
  target_clusterid = clean f.target_clusterid;
  target_namespace = clean f.target_namespace;
  objname = clean_names f.objname;
  target_objname = clean_names f.target_objname;
}

-- `doSubmit`, up to the answer; without a url it has ended.
unfoldable do_submit : ClonePage → ClonePage × List Request
unfolding clone_body
do_submit p = elim (get p.form.res_type url_map) [
  | some url ↦ (record p { submitting = true }, clone url (clone_body p.form) ∷ [])
  | none ↦ (toast (lit "不支持的类型") (record p { submitting = false }), [])
]

unfoldable cloned : Outcome (Unit {0}) → ClonePage → ClonePage × List Request
unfolding fetch_records
cloned (resolved _) p =
    let (q, requests) = fetch_records (toast (lit "执行完成") p) in
    (record q { submitting = false }, requests)
cloned (thrown message) p = (toast message (record p { submitting = false }), [])
