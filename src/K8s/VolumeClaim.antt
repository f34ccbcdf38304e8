-- ===== src/K8s/VolumeClaim.antt =====
-- What the list of volume claims, frontend/src/pages/k8s/PvcList.tsx, says of its items, and its form,
-- which is sent as YAML too.
use mrboard.Shared.{◌++◌, Option, none, List, [], ◌∷◌, if◌then◌else◌, Text, lit, is_truthy, join}
use mrboard.Session.Api.{Outcome}
use mrboard.Ai.Stream.{or_text}
use mrboard.K8s.ListPage.{Kind, ListPage, Event, on_event}
use mrboard.K8s.CreateDialog.{FormKind, Dialog, CreateRequest, handle_create, create_answered}

pub record PvcItem : Type 0 where
  pub pvc_name : Text
  pub name_space : Text
  pub status : Text
  pub volume_name : Text
  pub capacity : Text
  pub access_mode : Text
  pub storage_class : Text
  pub create_time : Text

abbrev volume_claims : Kind PvcItem
volume_claims = record {
  name_of = λ (i : PvcItem). i.pvc_name;
  namespace_of = λ (i : PvcItem). i.name_space;
  list_path = lit "/mrboard/pvc/v1/List?clusterId=";
  delete_path = lit "/mrboard/pvc/v1/Del?clusterId=";
  name_param = lit "&pvcName=";
}

pub record PvcForm : Type 0 where
  pub form_name : Text
  pub form_namespace : Text
  pub form_capacity : Text
  pub form_access_mode : Text
  pub form_storage_class : Text

-- The line of the storage class, if one is given.
abbrev class_lines : Text → List Text
class_lines storage_class =
    if is_truthy storage_class then (lit "  storageClassName: " ++ storage_class) ∷ [] else []

-- `yamlStr`.
unfoldable pvc_yaml : PvcForm → Text
pvc_yaml s = join 10 (
    (lit "apiVersion: v1"
      ∷ lit "kind: PersistentVolumeClaim"
      ∷ lit "metadata:"
      ∷ (lit "  name: " ++ s.form_name)
      ∷ (lit "  namespace: " ++ or_text s.form_namespace (lit "default"))
      ∷ lit "spec:"
      ∷ lit "  accessModes:"
      ∷ (lit "    - " ++ or_text s.form_access_mode (lit "ReadWriteOnce"))
      ∷ class_lines s.form_storage_class)
    ++ (lit "  resources:"
        ∷ lit "    requests:"
        ∷ (lit "      storage: " ++ or_text s.form_capacity (lit "5Gi"))
        ∷ []))

-- A success leaves the YAML of the other tab as it is.
abbrev pvc_form : FormKind PvcForm Text
pvc_form = record {
  required_name = λ (s : PvcForm). s.form_name;
  body_of = pvc_yaml;
  reset_form = λ (s : PvcForm). record {
    form_name = [];
    form_namespace = lit "default";
    form_capacity = lit "5Gi";
    form_access_mode = lit "ReadWriteOnce";
    form_storage_class = [];
  };
  reset_yaml = none;
}

-- The handlers of the list and of the dialog on this page.
unfoldable list_event : (Text → Text) → Event PvcItem → ListPage PvcItem → ListPage PvcItem
list_event lower e s = on_event volume_claims lower e s

unfoldable create : Dialog PvcForm → Dialog PvcForm × Option (CreateRequest Text)
create s = handle_create pvc_form s

unfoldable created : Outcome {0} Unit → Dialog PvcForm → Dialog PvcForm
created outcome s = create_answered pvc_form outcome s
