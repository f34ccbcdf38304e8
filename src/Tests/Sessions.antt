-- ===== src/Tests/Sessions.antt =====
-- Requests and the session at concrete answers (frontend/src/lib/api.ts,
-- frontend/src/hooks/useAuth.tsx).
use mrboard.Shared.{◌≡◌, refl, ℕ, true, false, none, some, [], ◌∷◌, Text, text_eq, lit, contains}
use mrboard.Session.Api.{Response, answered, api, read_response}
use mrboard.Session.Auth.{User, Session, MyInfo, user_of, check_session}
use mrboard.Session.Auth.Laws.{check_session_lem}

-- A stand-in for the printing of numbers.
abbrev print : ℕ → Text
print n = n ∷ []

abbrev denied : {B : Type 0} → Response B
denied = record {
  status = 401;
  redirected = false;
  url = lit "/x";
  content_type = none;
  json = none;
  body_text = none;
}

abbrev delivers : {B : Type 0} → B → Response B
delivers b = record {
  status = 200;
  redirected = false;
  url = lit "/public/myinfo";
  content_type = some (lit "application/json; charset=utf-8");
  json = some b;
  body_text = none;
}

abbrev ann : User
ann = user_of (lit "ann") none

abbrev session : Session
session = record {
  user = some ann;
  loading = true;
  browser = record { stored = some ann; path = lit "/k8s" };
}

abbrev info : MyInfo
info = record { username = lit "bob"; role = none }

check_test :
    (check_session print (answered (delivers (some info))) session).user
    ≡ some (user_of (lit "bob") none)
unfolding check_session api read_response contains
check_test = refl

check_session_lem_example :
    ((check_session print (answered denied) session).loading ≡ false)
    × ((check_session print (answered denied) session).user ≡ none)
    × ((check_session print (answered denied) session).browser.stored ≡ none)
unfolding contains
check_session_lem_example = check_session_lem print (answered denied) session
