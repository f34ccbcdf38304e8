-- ===== src/K8s/ConfigMap.antt =====
-- What the list of config maps, frontend/src/pages/k8s/ConfigMapList.tsx, says of its items, and its
-- form. Its effect filters by the namespace and then by the name, which gives the same list.
use mrboard.Shared.{
  Option, ℕ, ◌++◌, Bool, none, List, [], ◌∷◌, map, Text, lit, is_truthy, keep, trim,
}
use mrboard.Session.Api.{Outcome}
use mrboard.Deploy.Create.{Pair, remove_at, change_at, set_pair}
use mrboard.K8s.ListPage.{Kind, ListPage, Event, on_event}
use mrboard.K8s.CreateDialog.{FormKind, Dialog, CreateRequest, handle_create, create_answered}

pub record CmItem : Type 0 where
  pub configmap_name : Text
  pub name_space : Text
  pub data_keys : Text
  pub labels : Text
  pub create_time : Text

abbrev config_maps : Kind CmItem
config_maps = record {
  name_of = λ (i : CmItem). i.configmap_name;
  namespace_of = λ (i : CmItem). i.name_space;
  list_path = lit "/mrboard/cm/v1/List?clusterId=";
  delete_path = lit "/mrboard/cm/v1/Del?clusterId=";
  name_param = lit "&configmapName=";
}

pub record ConfigMapForm : Type 0 where
  pub form_name_space : Text
  pub form_cm_name : Text
  pub entries : List Pair

unfoldable add_entry : ConfigMapForm → ConfigMapForm
add_entry s = record s { entries = s.entries ++ record { key = []; value = [] } ∷ [] }

unfoldable remove_entry : ℕ → ConfigMapForm → ConfigMapForm
remove_entry i s = record s { entries = remove_at i s.entries }

unfoldable update_entry : ℕ → Bool → Text → ConfigMapForm → ConfigMapForm
update_entry i is_key text s = record s { entries = change_at i (set_pair is_key text) s.entries }

pub record ConfigMapBody : Type 0 where
  pub name_space : Text
  pub configmap_name : Text
  pub configmaps : List Pair

-- The rows whose key is not blank, with their keys trimmed and their values as they are.
abbrev has_entry_key : Pair → Bool
has_entry_key e = is_truthy (trim e.key)

abbrev sent_entry : Pair → Pair
sent_entry e = record { key = trim e.key; value = e.value }

unfoldable pub sent_entries : List Pair → List Pair
sent_entries entries = map sent_entry (keep has_entry_key entries)

abbrev config_map_form : FormKind ConfigMapForm ConfigMapBody
config_map_form = record {
  required_name = λ (s : ConfigMapForm). s.form_cm_name;
  body_of = λ (s : ConfigMapForm). record {
    name_space = s.form_name_space;
    configmap_name = s.form_cm_name;
    configmaps = sent_entries s.entries;
  };
  reset_form = λ (s : ConfigMapForm). record {
    form_name_space = [];
    form_cm_name = [];
    entries = record { key = []; value = [] } ∷ [];
  };
  reset_yaml = none;
}

-- The handlers of the list and of the dialog on this page.
unfoldable list_event : (Text → Text) → Event CmItem → ListPage CmItem → ListPage CmItem
list_event lower e s = on_event config_maps lower e s

unfoldable create :
    Dialog ConfigMapForm → Dialog ConfigMapForm × Option (CreateRequest ConfigMapBody)
create s = handle_create config_map_form s

unfoldable created : Outcome {0} Unit → Dialog ConfigMapForm → Dialog ConfigMapForm
created outcome s = create_answered config_map_form outcome s
