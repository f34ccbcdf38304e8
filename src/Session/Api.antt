-- ===== src/Session/Api.antt =====
-- The wrapper of fetch, `api` of frontend/src/lib/api.ts. The server's answer is an argument.
use mrboard.Shared.{
  ℕ, Bool, true, false, not, ◌&&◌, ◌||◌, Option, none, some, ◌∷◌, if◌then◌else◌, leb, nat_beq, ◌++◌,
  ◌≡◌, arith, Text, text_eq, lit, is_truthy, starts_with, contains,
}

-- What the response's body is, by `json()` (none if it throws) and by `text()` (none if it throws).
pub record Response (B : Type 0) : Type 0 where
  pub status : ℕ
  pub redirected : Bool
  pub url : Text
  pub content_type : Option Text
  pub json : Option B
  pub body_text : Option Text

-- fetch may reject, as where the network fails.
pub data Fetched (B : Type 0) : Type 0 where
  rejected : (message : Text) → Fetched B
  answered : Response B → Fetched B

pub data Payload (B : Type 0) : Type 0 where
  json : B → Payload B
  text : Text → Payload B

pub data Outcome {ℓ} (A : Type ℓ) : Type ℓ where
  resolved : A → Outcome A
  thrown : (message : Text) → Outcome A

-- What a request can change: the item 'mrboard_user' of the local storage, kept as the value that
-- its JSON stands for, and the path of the page.
pub record Browser (U : Type 0) : Type 0 where
  pub stored : Option U
  pub path : Text

-- The two blocks that treat an answer as a lost session.
abbrev pub deny : {U : Type 0} → Browser U → Browser U
deny b = record {
  stored = none;
  path = if starts_with (lit "/login") b.path then b.path else lit "/login";
}

abbrev pub is_unauthorized : {B : Type 0} → Response B → Bool
is_unauthorized r = nat_beq r.status 401 || nat_beq r.status 403

abbrev pub is_login_page : {B : Type 0} → Response B → Bool
is_login_page r = r.redirected && contains (lit "/public/login") r.url

-- `res.ok`.
abbrev pub is_ok : {B : Type 0} → Response B → Bool
is_ok r = leb 200 r.status && leb r.status 299

-- `text || ...`, with a text of '' where `text()` throws.
abbrev error_text : Option Text → Text → Text
error_text (some (c ∷ s)) message = c ∷ s
error_text _ message = message

abbrev from_json : {B : Type 0} → Option B → Outcome (Payload B)
from_json (some j) = resolved (json j)
from_json none = thrown (lit "SyntaxError")

abbrev from_text : {B : Type 0} → Option Text → Outcome (Payload B)
from_text (some s) = resolved (text s)
from_text none = thrown (lit "TypeError")

abbrev pub is_json : Option Text → Bool
is_json none = false
is_json (some s) = is_truthy s && contains (lit "application/json") s

abbrev is_thrown {ℓ} : {A : Type ℓ} → Outcome A → Bool
is_thrown (thrown message) = true
is_thrown (resolved a) = false

-- The number in the message 'API error: 404' is written by `print`, JavaScript's own.
module _ (print : ℕ → Text) where
  unfoldable pub read_response :
      {U B : Type 0} → Response B → Browser U → Browser U × Outcome (Payload B)
  read_response r b =
      if is_unauthorized r
      then (deny b, thrown (lit "Unauthorized"))
      else if is_login_page r
      then (deny b, thrown (lit "Session expired"))
      else if not (is_ok r)
      then (b, thrown (error_text r.body_text (lit "API error: " ++ print r.status)))
      else if is_json r.content_type
      then (b, from_json r.json)
      else (b, from_text r.body_text)

  unfoldable pub api : {U B : Type 0} → Fetched B → Browser U → Browser U × Outcome (Payload B)
  api (rejected message) b = (b, thrown message)
  api (answered r) b = read_response r b

  -- A request touches the browser only where its answer is unauthorised or a redirect to the login
  -- page: then it throws, the stored user is gone and the page is a login page.
  pub api_lem :
      {U B : Type 0} (r : Response B) (b : Browser U)
      → ((api (answered r) b).0 ≡ (if is_unauthorized r || is_login_page r then deny b else b))
        × ((is_thrown (api (answered r) b).1 || not (is_unauthorized r || is_login_page r)) ≡ true)
        × (starts_with (lit "/login") (deny b).path ≡ true)
  unfolding api read_response
  api_lem r b = (ground arith, ground arith, ground arith)
