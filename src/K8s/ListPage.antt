-- ===== src/K8s/ListPage.antt =====
-- What the lists of Kubernetes resources share: loading, filters, pages and the deletion of a row, as
-- in `HttpRouteList` of frontend/src/pages/k8s/HttpRouteList.tsx, with the dialog that confirms,
-- frontend/src/components/shared/ConfirmDialog.tsx. `lower` is toLowerCase. Requests are answered
-- and timeouts end in any order, so that their numbers are kept with the state.
pub mod Laws
use mrboard.Shared.{
  ℕ, ◌+◌, ◌-◌, ◌++◌, Bool, true, false, not, ◌&&◌, ◌||◌, Option, none, some, List, [], ◌∷◌,
  if◌then◌else◌, leb, Text, text_eq, ◌==◌, lit, is_truthy, keep, contains,
}
use mrboard.Session.Api.{Outcome, resolved, thrown}
use mrboard.Deploy.Page.{page_of}

-- What a list says of its resource: the fields of an item, and the paths of its requests.
pub record Kind (A : Type 0) : Type 0 where
  pub name_of : A → Text
  pub namespace_of : A → Text
  pub list_path : Text
  pub delete_path : Text
  pub name_param : Text

pub record ListPage (A : Type 0) : Type 0 where
  pub items : List A
  pub filtered : List A
  pub loading : Bool
  pub search_name : Text
  pub ns_filter : Text
  pub page : ℕ
  pub cluster_id : Text
  pub delete_target : Option A
  pub operating_deploy : Option Text
  pub operation_progress : Text
  pub toasts : List Text
  pub loud_fetches : ℕ
  pub deletions : ℕ
  pub timeouts : ℕ

-- What happens on the page.
pub data Event (A : Type 0) : Type 0 where
  refresh : Event A
  arrived : Bool → Outcome (List A) → Event A
  search : Text → Event A
  choose_ns : Text → Event A
  go_to : ℕ → Event A
  pick : A → Event A
  cancel : Event A
  confirm : Event A
  answered : Outcome {0} Unit → Event A
  time_passed : Event A

module _ {A : Type 0} (kind : Kind A) (lower : Text → Text) where
  -- The test of the effect on `[items, searchName, nsFilter]`.
  abbrev pub is_shown : Text → Text → A → Bool
  is_shown search_name ns_filter item =
      (not (is_truthy ns_filter) || kind.namespace_of item == ns_filter)
      && (not (is_truthy search_name) || contains (lower search_name) (lower (kind.name_of item)))

  pub filter_effect : ListPage A → ListPage A
  filter_effect s = record s { filtered = keep (is_shown s.search_name s.ns_filter) s.items }

  -- `fetchData(silent)`, up to the request.
  pub fetch_data : Bool → ListPage A → ListPage A × Text
  fetch_data silent s = (
    if silent then s else record s { loading = true; loud_fetches = s.loud_fetches + 1 },
    kind.list_path ++ s.cluster_id,
  )

  -- `fetchData(silent)`, from the answer on, with missing data as [].
  pub data_arrived : Bool → Outcome (List A) → ListPage A → ListPage A
  data_arrived silent outcome s =
      let t : ListPage A = elim outcome [
        | resolved ds ↦ filter_effect (record s { items = ds })
        | thrown message ↦ record s { toasts = s.toasts ++ message ∷ [] }
      ] in
      if silent then t else record t { loading = false; loud_fetches = s.loud_fetches - 1 }

  -- The search box, with the effects on `searchName`.
  pub set_search_name : Text → ListPage A → ListPage A
  set_search_name text s =
      if text == s.search_name then s else filter_effect (record s { search_name = text; page = 1 })

  -- The choice of a namespace, with the effects on `nsFilter`.
  pub set_ns_filter : Text → ListPage A → ListPage A
  set_ns_filter ns s =
      if ns == s.ns_filter then s else filter_effect (record s { ns_filter = ns; page = 1 })

  -- `paged`.
  pub paged : ListPage A → List A
  paged s = page_of s.page s.filtered

  -- `handleDelete`, up to the request.
  pub handle_delete : ListPage A → ListPage A × Option Text
  handle_delete s = elim s.delete_target [
    | none ↦ (s, none)
    | some d ↦ (
      record s {
        operating_deploy = some (kind.name_of d);
        operation_progress = lit "删除中...";
        deletions = s.deletions + 1;
      },
      some (
          kind.delete_path
          ++ (s.cluster_id
              ++ (lit "&nameSpace="
                  ++ (kind.namespace_of d ++ (kind.name_param ++ kind.name_of d))))),
    )
  ]

  -- `handleDelete`, from the answer on. Then `handleConfirm` closes the dialog, and so takes the
  -- target away, after a failure too.
  pub delete_answered : Outcome {0} Unit → ListPage A → ListPage A
  delete_answered outcome s =
      let message : Text = elim outcome [ resolved _ ↦ lit "删除成功" | thrown error ↦ error ] in
      record s {
        toasts = s.toasts ++ message ∷ [];
        delete_target = none;
        operation_progress = lit "完成 ✓";
        deletions = s.deletions - 1;
        timeouts = s.timeouts + 1;
      }

  -- The timeout of 600 ms, if one is set; the silent request that it makes changes nothing yet.
  pub time_out : ListPage A → ListPage A
  time_out s =
      if leb 1 s.timeouts
      then record s { operating_deploy = none; operation_progress = []; timeouts = s.timeouts - 1 }
      else s

  pub on_event : Event A → ListPage A → ListPage A
  on_event refresh s = (fetch_data false s).0
  on_event (arrived silent outcome) s = data_arrived silent outcome s
  on_event (search text) s = set_search_name text s
  on_event (choose_ns ns) s = set_ns_filter ns s
  on_event (go_to n) s = record s { page = n }
  on_event (pick item) s = record s { delete_target = some item }
  on_event cancel s = record s { delete_target = none }
  on_event confirm s = (handle_delete s).0
  on_event (answered outcome) s = delete_answered outcome s
  on_event time_passed s = time_out s

  -- The page as it opens, with its first request.
  pub open_page : Text → ListPage A
  open_page cluster_id = record {
    items = [];
    filtered = [];
    loading = true;
    search_name = [];
    ns_filter = [];
    page = 1;
    cluster_id = cluster_id;
    delete_target = none;
    operating_deploy = none;
    operation_progress = [];
    toasts = [];
    loud_fetches = 1;
    deletions = 0;
    timeouts = 0;
  }
