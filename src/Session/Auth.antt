-- ===== src/Session/Auth.antt =====
-- The session of frontend/src/hooks/useAuth.tsx: its state with the browser's, and its operations,
-- each given the answer to its request.
pub mod Laws
use mrboard.Shared.{
  ℕ, Bool, true, false, not, Option, none, some, List, [], ◌∷◌, if◌then◌else◌, Text, text_eq, lit,
  is_truthy, ◌==◌,
}
use mrboard.Session.Api.{
  Fetched, Payload, json, text, Outcome, resolved, thrown, Browser, deny, api,
}

pub record User : Type 0 where
  pub username : Text
  pub role : Text
  pub permissions : List Text

-- The state of the provider, and the browser around it.
pub record Session : Type 0 where
  pub user : Option User
  pub loading : Bool
  pub browser : Browser User

-- The `data` of the answer to /public/myinfo; the role may be missing.
pub record MyInfo : Type 0 where
  pub username : Text
  pub role : Option Text

-- The answer to /public/login.
pub record LoginResponse : Type 0 where
  pub status : Bool
  pub msg : Option Text
  pub info : Option Text
  pub role : Option Text

-- `role || 'admin'`.
abbrev role_or_admin : Option Text → Text
role_or_admin (some (c ∷ s)) = c ∷ s
role_or_admin _ = lit "admin"

abbrev pub user_of : Text → Option Text → User
user_of name role = record { username = name; role = role_or_admin role; permissions = [] }

-- `setUser(u); localStorage.setItem('mrboard_user', JSON.stringify(u))`.
abbrev sign_in : User → Session → Session
sign_in u s = record s { user = some u; browser = record s.browser { stored = some u } }

-- `setUser(null); localStorage.removeItem('mrboard_user')`.
abbrev sign_out : Session → Session
sign_out s = record s { user = none; browser = record s.browser { stored = none } }

-- What checkSession does with the outcome of its request, before `setLoading(false)`; an answer that
-- is no JSON is a text, which has no `data`.
abbrev accept_info : Outcome (Payload (Option MyInfo)) → Session → Session
accept_info (resolved (json (some info))) s = sign_in (user_of info.username info.role) s
accept_info _ s = sign_out s

abbrev first_text : Option Text → Option Text → Text → Text
first_text (some (c ∷ s)) o message = c ∷ s
first_text _ (some (c ∷ s)) message = c ∷ s
first_text _ _ message = message

-- The message "login failed" of the source.
abbrev login_failed : Text
login_failed = lit "登录失败"

abbrev accept_login :
    Text → Outcome (Payload LoginResponse) → Session → Session × Outcome (Unit {0})
accept_login name (resolved (json r)) s =
    if r.status
    then (sign_in (user_of name r.role) s, resolved tt)
    else (s, thrown (first_text r.msg r.info login_failed))
accept_login name (resolved (text t)) s = (s, thrown login_failed)
accept_login name (thrown message) s = (s, thrown message)

-- The 'storage' event, which other tabs cause.
unfoldable on_storage : Text → Option User → Session → Session
on_storage key none s = if key == lit "mrboard_user" then record s { user = none } else s
on_storage key (some u) s = s

-- The 'focus' event.
on_focus : Session → Session
on_focus s = elim s.browser.stored [ none ↦ record s { user = none } | some u ↦ s ]

module _ (print : ℕ → Text) where
  unfoldable pub check_session : Fetched (Option MyInfo) → Session → Session
  check_session answer s =
      let (b, outcome) = api print answer s.browser in
      record (accept_info outcome (record s { browser = b })) { loading = false }

  pub login : Text → Fetched LoginResponse → Session → Session × Outcome (Unit {0})
  login name answer s =
      let (b, outcome) = api print answer s.browser in
      accept_login name outcome (record s { browser = b })

  -- The request's errors are ignored.
  logout : {B : Type 0} → Fetched B → Session → Session
  logout answer s =
      let (b, outcome) = api print answer s.browser in sign_out (record s { browser = b })
