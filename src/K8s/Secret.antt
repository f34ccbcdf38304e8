-- ===== src/K8s/Secret.antt =====
-- What the list of secrets, frontend/src/pages/k8s/SecretList.tsx, says of its items, and its form.
use mrboard.Shared.{Option, ℕ, ◌++◌, Bool, none, List, [], ◌∷◌, Text, lit}
use mrboard.Session.Api.{Outcome}
use mrboard.Deploy.Create.{Pair, remove_at, change_at, set_pair}
use mrboard.K8s.ListPage.{Kind, ListPage, Event, on_event}
use mrboard.K8s.CreateDialog.{FormKind, Dialog, CreateRequest, handle_create, create_answered}
use mrboard.K8s.ConfigMap.{sent_entries}

pub record SecretItem : Type 0 where
  pub secret_name : Text
  pub name_space : Text
  pub secret_type : Text
  pub data_keys : Text
  pub create_time : Text

abbrev secrets : Kind SecretItem
secrets = record {
  name_of = λ (i : SecretItem). i.secret_name;
  namespace_of = λ (i : SecretItem). i.name_space;
  list_path = lit "/mrboard/secret/v1/List?clusterId=";
  delete_path = lit "/mrboard/secret/v1/Del?clusterId=";
  name_param = lit "&secretName=";
}

pub record SecretForm : Type 0 where
  pub form_name_space : Text
  pub form_secret_name : Text
  pub form_secret_type : Text
  pub entries : List Pair

unfoldable add_entry : SecretForm → SecretForm
add_entry s = record s { entries = s.entries ++ record { key = []; value = [] } ∷ [] }

unfoldable remove_entry : ℕ → SecretForm → SecretForm
remove_entry i s = record s { entries = remove_at i s.entries }

unfoldable update_entry : ℕ → Bool → Text → SecretForm → SecretForm
update_entry i is_key text s = record s { entries = change_at i (set_pair is_key text) s.entries }

pub record SecretBody : Type 0 where
  pub name_space : Text
  pub secret_name : Text
  pub secret_type : Text
  pub secrets : List Pair

abbrev secret_form : FormKind SecretForm SecretBody
secret_form = record {
  required_name = λ (s : SecretForm). s.form_secret_name;
  body_of = λ (s : SecretForm). record {
    name_space = s.form_name_space;
    secret_name = s.form_secret_name;
    secret_type = s.form_secret_type;
    secrets = sent_entries s.entries;
  };
  reset_form = λ (s : SecretForm). record {
    form_name_space = [];
    form_secret_name = [];
    form_secret_type = lit "Opaque";
    entries = record { key = []; value = [] } ∷ [];
  };
  reset_yaml = none;
}

-- The handlers of the list and of the dialog on this page.
unfoldable list_event : (Text → Text) → Event SecretItem → ListPage SecretItem → ListPage SecretItem
list_event lower e s = on_event secrets lower e s

unfoldable create : Dialog SecretForm → Dialog SecretForm × Option (CreateRequest SecretBody)
create s = handle_create secret_form s

unfoldable created : Outcome {0} Unit → Dialog SecretForm → Dialog SecretForm
created outcome s = create_answered secret_form outcome s
