-- ===== src/Deploy/Page.antt =====
-- The list of deployments, `DeployList` of frontend/src/pages/deploy/DeployList.tsx: what it loads,
-- filters and pages, and the deletion and scaling of a deployment. `lower` is toLowerCase. The effect
-- of the cluster's poll and the dialogs' drawing are left out.
pub mod Laws
use mrboard.Shared.{
  ℕ, zero, suc, ◌/◌, ◌%◌, ◌+◌, ◌-◌, ◌*◌, ◌++◌, Bool, true, false, not, ◌&&◌, ◌||◌, Option, none,
  some, List, [], ◌∷◌, if◌then◌else◌, leb, Text, text_eq, nat_eq, ◌==◌, lit, is_truthy, keep,
  contains, take, drop, or_else, trim_start,
}
use mrboard.Shared.Numbers.{Number, positive, negative, parse_int, decimal}
use mrboard.Session.Api.{Outcome, resolved, thrown}
use mrboard.Deploy.Item.{DeployListItem}

pub record DeployPage : Type 0 where
  pub deploys : List DeployListItem
  pub filtered : List DeployListItem
  pub loading : Bool
  pub search_name : Text
  pub namespace : Text
  pub page : ℕ
  pub cluster_id : Text
  pub delete_target : Option DeployListItem
  pub scale_target : Option DeployListItem
  pub scale_value : Text
  pub operating_deploy : Option Text
  pub operation_progress : Text
  pub toasts : List Text

-- A request of the page: its path, and the body of a POST.
pub record Request : Type 0 where
  pub path : Text
  pub pod_number : Option ℕ

abbrev get_request : Text → Request
get_request path = record { path = path; pod_number = none }

-- `fetchDeploys(silent)`, up to the answer.
unfoldable fetch_deploys : Bool → DeployPage → DeployPage × Option Request
fetch_deploys silent s =
    if is_truthy s.cluster_id
    then (
      if silent then s else record s { loading = true },
      some (
          get_request (
            lit "/mrboard/deploy/v1/List?clusterId="
            ++ (s.cluster_id
                ++ (if is_truthy s.namespace then lit "&nameSpace=" ++ s.namespace else [])))),
    )
    else (record s { loading = false }, none)

-- The effect on `[deploys, searchName]`.
unfoldable filter_effect : (Text → Text) → DeployPage → DeployPage
filter_effect lower s = record s {
  filtered =
      if is_truthy s.search_name
      then keep (λ (d : DeployListItem). contains (lower s.search_name) (lower d.deploy_name))
          s.deploys
      else s.deploys;
}

-- `fetchDeploys(silent)`, from the answer on, with missing data as [].
unfoldable deploys_arrived :
    (Text → Text) → Bool → Outcome (List DeployListItem) → DeployPage → DeployPage
deploys_arrived lower silent outcome s =
    let t : DeployPage = elim outcome [
      | resolved ds ↦ filter_effect lower (record s { deploys = ds })
      | thrown message ↦ record s { toasts = s.toasts ++ message ∷ [] }
    ] in
    if silent then t else record t { loading = false }

-- The search box, with the effects on `searchName`.
unfoldable set_search_name : (Text → Text) → Text → DeployPage → DeployPage
set_search_name lower text s =
    let t = filter_effect lower (record s { search_name = text }) in
    if text == s.search_name then s else record t { page = 1 }

-- The choice of a namespace, with the effects on `namespace`.
unfoldable set_namespace : Text → DeployPage → DeployPage × Option Request
set_namespace v s =
    let ns = if v == lit "__all__" then [] else v in
    let asked = fetch_deploys false (record s { namespace = ns; page = 1 }) in
    if ns == s.namespace
    then (s, none)
    else if is_truthy s.cluster_id
    then asked
    else (record s { namespace = ns; page = 1 }, none)

-- `paged`: pages are counted from 1.
unfoldable pub page_of {ℓ} : {A : Type ℓ} → ℕ → List A → List A
page_of page xs = take 20 (drop ((page - 1) * 20) xs)

unfoldable paged : DeployPage → List DeployListItem
paged s = page_of s.page s.filtered

abbrev mark : Text → Text → DeployPage → DeployPage
mark name progress s = record s { operating_deploy = some name; operation_progress = progress }

abbrev unmark : DeployPage → DeployPage
unmark s = record s { operating_deploy = none; operation_progress = [] }

abbrev target_query : DeployListItem → Text
target_query d = lit "&nameSpace=" ++ (d.name_space ++ (lit "&deployName=" ++ d.deploy_name))

-- `handleDelete`, up to the request.
unfoldable handle_delete : DeployPage → DeployPage × Option Request
handle_delete s = elim s.delete_target [
  | none ↦ (s, none)
  | some d ↦ (
    mark d.deploy_name (lit "删除中...") (record s { delete_target = none }),
    some
        (get_request (lit "/mrboard/deploy/v1/Del?clusterId=" ++ (s.cluster_id ++ target_query d))),
  )
]

-- `isNaN(num) || num < 0` is false, for the number given; -0 is 0.
replica_count : Option Number → Option ℕ
replica_count none = none
replica_count (some (positive n)) = some n
replica_count (some (negative n)) = if leb n 0 then some 0 else none

-- `handleScale`, up to the request.
pub handle_scale : DeployPage → DeployPage × Option Request
handle_scale s = elim s.scale_target [
  | none ↦ (s, none)
  | some d ↦ elim (replica_count (parse_int s.scale_value)) [
    | none ↦ (record s { toasts = s.toasts ++ lit "请输入有效的副本数量" ∷ [] }, none)
    | some n ↦ (
      mark d.deploy_name (lit "调整副本数...") (record s { scale_target = none }),
      some (record {
        path = lit "/mrboard/deploy/v1/Replicas?clusterId=" ++ (s.cluster_id ++ target_query d);
        pod_number = some n;
      }),
    )
  ]
]

-- The button 伸缩 of a row.
pub open_scale : DeployListItem → DeployPage → DeployPage
open_scale d s = record s { scale_target = some d; scale_value = decimal d.replicas }

-- The deletion or the scaling is answered; `message` is what the success shows.
unfoldable operation_answered : Text → Outcome {0} Unit → DeployPage → DeployPage
operation_answered message (resolved _) s = record s { operation_progress = message }
operation_answered message (thrown error) s = unmark (record s { toasts = s.toasts ++ error ∷ [] })

-- The timeout of 1 s that follows a success.
unfoldable time_out : DeployPage → DeployPage × Option Request
time_out s = fetch_deploys true (unmark s)
