-- ===== src/Session/Auth/Laws.antt =====
-- What the session's operations guarantee (frontend/src/hooks/useAuth.tsx).
use mrboard.Shared.{
  ◌≡◌, refl, ℕ, Bool, true, false, not, ◌&&◌, Option, none, some, if◌then◌else◌, arith, Text,
  text_eq,
}
use mrboard.Session.Api.{
  Fetched, rejected, answered, Outcome, resolved, thrown, is_unauthorized, is_login_page, is_ok,
  is_json, read_response, api,
}
use mrboard.Session.Auth.{User, Session, MyInfo, LoginResponse, user_of, check_session, login}

-- The JSON that an answer delivers: its status is a success, it is no redirect to the login page,
-- it is labelled as JSON, and its body parses.
abbrev delivered : {B : Type 0} → Fetched B → Option B
delivered (rejected message) = none
delivered (answered r) =
    if is_ok r && not (is_unauthorized r) && not (is_login_page r) && is_json r.content_type
    then r.json
    else none

abbrev known_user : Option (Option MyInfo) → Option User
known_user (some (some info)) = some (user_of info.username info.role)
known_user _ = none

abbrev is_success : Option LoginResponse → Bool
is_success none = false
is_success (some r) = r.status

abbrev role_of : Option LoginResponse → Option Text
role_of none = none
role_of (some r) = r.role

abbrev succeeds {ℓ} : {A : Type ℓ} → Outcome A → Bool
succeeds (resolved a) = true
succeeds (thrown message) = false

module _ (print : ℕ → Text) where
  -- After a check of the session, whatever the answer, loading has ended, and user and stored item
  -- agree: they are the user that the answer names, or none if it names none.
  pub check_session_lem :
      (answer : Fetched (Option MyInfo)) (s : Session)
      → ((check_session print answer s).loading ≡ false)
        × ((check_session print answer s).user ≡ known_user (delivered answer))
        × ((check_session print answer s).browser.stored ≡ known_user (delivered answer))
  unfolding check_session api read_response
  check_session_lem (rejected message) s = (refl, refl, refl)
  check_session_lem (answered r) s = (ground arith, ground arith, ground arith)

  -- A login succeeds exactly where the answer delivers a status that is true. Then user and stored item
  -- are the named user; otherwise the user is as before.
  pub login_lem :
      (name : Text) (answer : Fetched LoginResponse) (s : Session)
      → (succeeds (login print name answer s).1 ≡ is_success (delivered answer))
        × ((login print name answer s).0.user ≡ (
            if is_success (delivered answer)
            then some (user_of name (role_of (delivered answer)))
            else s.user))
  unfolding login api read_response
  login_lem name (rejected message) s = (refl, refl)
  login_lem name (answered r) s = (ground arith, ground arith)
