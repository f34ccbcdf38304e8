-- ===== src/Hooks/UseApi.antt =====
-- `useApi`, frontend/src/hooks/useApi.ts: the state between a request and its answer. Requests may
-- overlap, and their answers arrive in any order; `asked` are the urls without answer, the newest
-- last.
pub mod Laws
use mrboard.Shared.{
  ◌++◌, Bool, true, false, Option, none, some, List, [], ◌∷◌, if◌then◌else◌, ◌==◌, Text, text_eq,
  is_truthy,
}
use mrboard.Session.Api.{Outcome, resolved, thrown}

pub record UseApi (A : Type 0) : Type 0 where
  pub data_value : Option A
  pub loading : Bool
  pub error : Option Text
  pub asked : List Text

-- `!!url`, where a missing url is null.
abbrev has_url : Option Text → Bool
has_url none = false
has_url (some url) = is_truthy url

initial_state : {A : Type 0} → Option Text → UseApi A
initial_state url = record { data_value = none; loading = has_url url; error = none; asked = [] }

-- `refetch`, up to the answer.
refetch : {A : Type 0} → Option Text → UseApi A → UseApi A
refetch none s = s
refetch (some url) s =
    if is_truthy url
    then record s { loading = true; error = none; asked = s.asked ++ url ∷ [] }
    else s

-- The url is answered: the first request for it is no longer open.
drop_asked : Text → List Text → List Text
drop_asked url [] = []
drop_asked url (u ∷ us) = if u == url then us else u ∷ drop_asked url us

-- `refetch`, from the answer on: the state is that of the answer, whichever request it belongs to.
arrived : {A : Type 0} → Text → Outcome A → UseApi A → UseApi A
arrived url (resolved a) s = record {
  data_value = some a;
  loading = false;
  error = none;
  asked = drop_asked url s.asked;
}
arrived url (thrown message) s = record {
  data_value = none;
  loading = false;
  error = some message;
  asked = drop_asked url s.asked;
}
