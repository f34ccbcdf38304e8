-- ===== src/K8s/CreateDialog.antt =====
-- What the dialogs that create a Kubernetes resource share: `handleCreate` by a form or as YAML, as in
-- frontend/src/pages/k8s/ServiceList.tsx. The request is sent by `api`; its answer is an argument.
pub mod Laws
use mrboard.Shared.{
  ◌++◌, Bool, true, false, Option, none, some, List, [], ◌∷◌, if◌then◌else◌, Text, lit, is_truthy,
}
use mrboard.Session.Api.{Outcome, resolved, thrown}
use mrboard.Deploy.Create.{CreateTab, form, yaml}

-- What a dialog says of its form: the field that must be filled in, the body of the request, what
-- a success puts back, and the YAML that a success puts back, if it does.
pub record FormKind (F B : Type 0) : Type 0 where
  pub required_name : F → Text
  pub body_of : F → B
  pub reset_form : F → F
  pub reset_yaml : Option Text

pub record Dialog (F : Type 0) : Type 0 where
  pub create_open : Bool
  pub create_tab : CreateTab
  pub yaml_content : Text
  pub submitting : Bool
  pub fields : F
  pub toasts : List Text

pub data CreateRequest (B : Type 0) : Type 0 where
  by_form : (body : B) → CreateRequest B
  by_yaml : (content : Text) → CreateRequest B

module _ {F B : Type 0} (kind : FormKind F B) where
  abbrev create_by : CreateTab → Dialog F → Dialog F × Option (CreateRequest B)
  create_by form s =
      if is_truthy (kind.required_name s.fields)
      then (record s { submitting = true }, some (by_form (kind.body_of s.fields)))
      else (record s { toasts = s.toasts ++ lit "请输入名称" ∷ []; submitting = false }, none)
  create_by yaml s = (record s { submitting = true }, some (by_yaml s.yaml_content))

  -- `handleCreate`, up to the request.
  unfoldable pub handle_create : Dialog F → Dialog F × Option (CreateRequest B)
  handle_create s = create_by s.create_tab s

  -- `handleCreate`, from the answer on; the list is then fetched again.
  pub create_answered : Outcome {0} Unit → Dialog F → Dialog F
  create_answered (resolved _) s =
      let content : Text = elim kind.reset_yaml [ none ↦ s.yaml_content | some text ↦ text ] in
      record s {
        toasts = s.toasts ++ lit "创建成功" ∷ [];
        create_open = false;
        fields = kind.reset_form s.fields;
        yaml_content = content;
        submitting = false;
      }
  create_answered (thrown message) s = record s {
    toasts = s.toasts ++ message ∷ [];
    submitting = false;
  }
