-- ===== src/App/Routes/Laws.antt =====
-- No page without a session (frontend/src/App.tsx).
use mrboard.Shared.{
  ◌≡◌, refl, Bool, true, false, ◌&&◌, some, is_some, List, [], ◌∷◌, arith, Text, text_eq,
}
use mrboard.Shared.Assoc.{get}
use mrboard.Session.Auth.{Session}
use mrboard.App.Element.{
  Element, page, main_layout, protected_route, navigate_to, login_or_home, View, page_view,
  in_layout, render,
}
use mrboard.App.Routes.{routes}

-- A page stands in the view.
abbrev pub shows_page : View → Bool
shows_page (page_view name) = true
shows_page (in_layout v) = shows_page v
shows_page _ = false

-- Each page of the element stands under ProtectedRoute.
abbrev is_guarded : Element → Bool
is_guarded (page name) = false
is_guarded (main_layout e) = is_guarded e
is_guarded (protected_route e) = true
is_guarded (navigate_to path) = true
is_guarded login_or_home = true

abbrev all_guarded : List (Text × Element) → Bool
all_guarded [] = true
all_guarded ((path, e) ∷ rows) = is_guarded e && all_guarded rows

all_guarded-routes : all_guarded routes ≡ true
all_guarded-routes = refl

is_guarded-get :
    (pattern : Text) (e : Element) (rows : List (Text × Element))
    → all_guarded rows ≡ true
    → get pattern rows ≡ some e
    → is_guarded e ≡ true
unfolding get
is_guarded-get pattern e [] h k = ground (arith, k)
is_guarded-get pattern e ((path, f) ∷ rows) h k =
    ground (arith, h, k, is_guarded-get pattern e rows)

shows_page-render :
    (s : Session) (e : Element)
    → is_guarded e ≡ true
    → shows_page (render s e) ≡ true
    → (is_some s.user ≡ true) × (s.loading ≡ false)
unfolding render
shows_page-render s (page name) h k = ground (arith, h)
shows_page-render s (main_layout e) h k = shows_page-render s e h k
shows_page-render s (protected_route e) h k = ground (arith, k)
shows_page-render s (navigate_to path) h k = ground (arith, k)
shows_page-render s login_or_home h k = ground (arith, k)

-- Whichever route of the table the router picks, a page is shown only to a user who is signed in and
-- whose session has been checked.
pub render-guarded :
    (s : Session) (pattern : Text) (e : Element)
    → get pattern routes ≡ some e
    → shows_page (render s e) ≡ true
    → (is_some s.user ≡ true) × (s.loading ≡ false)
render-guarded s pattern e h k =
    shows_page-render s e (is_guarded-get pattern e routes all_guarded-routes h) k
