-- ===== src/App/Element.antt =====
-- What a route shows: `ProtectedRoute` and the elements of frontend/src/App.tsx.
use mrboard.Shared.{is_some, if◌then◌else◌, Text, lit}
use mrboard.Session.Auth.{Session}

-- The elements as the routes nest them. A page is the name of its component.
pub data Element : Type 0 where
  page : Text → Element
  main_layout : Element → Element
  protected_route : Element → Element
  navigate_to : Text → Element
  login_or_home : Element

-- What is seen.
pub data View : Type 0 where
  loading_view : View
  login_page : View
  redirect : Text → View
  page_view : Text → View
  in_layout : View → View

-- `ProtectedRoute`.
abbrev guard : Session → View → View
guard s children =
    if s.loading then loading_view else if is_some s.user then children else redirect (lit "/login")

unfoldable pub render : Session → Element → View
render s (page name) = page_view name
render s (main_layout e) = in_layout (render s e)
render s (protected_route e) = guard s (render s e)
render s (navigate_to path) = redirect path
render s login_or_home = if is_some s.user then redirect (lit "/") else login_page
