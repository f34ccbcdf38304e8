-- ===== src/App/Menu/Laws.antt =====
-- The menu leads to pages (frontend/src/layouts/MainLayout.tsx, frontend/src/App.tsx).
use mrboard.Shared.{◌≡◌, refl, Bool, true, false, ◌&&◌, none, some, List, [], ◌∷◌, Text, text_eq}
use mrboard.Shared.Assoc.{get}
use mrboard.Session.Auth.{Session, User}
use mrboard.App.Element.{render}
use mrboard.App.Routes.{routes}
use mrboard.App.Routes.Laws.{shows_page}
use mrboard.App.Menu.{nav_items, NavLink, nav_links}

-- What the path shows: its own route, if it has one.
abbrev shows_at : Session → Text → Bool
shows_at s path = elim (get path routes) [ none ↦ false | some e ↦ shows_page (render s e) ]

abbrev all_show : Session → List NavLink → Bool
all_show s [] = true
all_show s (l ∷ links) = shows_at s l.path && all_show s links

-- Each link of the menu, wherever the page stands, has a route of its own in the table, which shows
-- a page to a user who is signed in.
nav_links-routes :
    (location : Text) (user : User) (s : Session)
    → all_show (record s { user = some user; loading = false }) (nav_links location nav_items)
      ≡ true
unfolding nav_links render get
nav_links-routes location user s = refl
