-- ===== src/Hooks/UseApi/Laws.antt =====
-- Which states of `useApi` can be reached, and what overlapping requests lead to
-- (frontend/src/hooks/useApi.ts).
use mrboard.Shared.{
  ◌≡◌, refl, Bool, true, false, ◌&&◌, Option, none, some, List, [], ◌∷◌, arith, ◌==◌, Text, text_eq,
  text_beq_iff, is_some, is_truthy,
}
use mrboard.Shared.Members.{includes}
use mrboard.Session.Api.{Outcome, resolved, thrown}
use mrboard.Hooks.UseApi.{UseApi, initial_state, refetch, arrived, drop_asked}

-- The states that the hook goes through for urls that may change: each answer is one to a url that
-- was asked for and has no answer yet.
data Reached {A : Type 0} : UseApi A → Type 0 where
  begins : (url : Option Text) → Reached (initial_state url)
  asks : {s : UseApi A} (url : Option Text) → Reached s → Reached (refetch url s)
  hears :
      {s : UseApi A} (url : Text) (answer : Outcome A)
      → includes s.asked url ≡ true
      → Reached s
      → Reached (arrived url answer s)

abbrev is_open : List Text → Bool
is_open [] = false
is_open (u ∷ us) = true

-- In every state that the hook reaches, data and error are not both there, and an error means that
-- nothing is loading.
UseApi-states :
    {A : Type 0} {s : UseApi A}
    → Reached s
    → ((is_some s.data_value && is_some s.error) ≡ false) × ((is_some s.error && s.loading) ≡ false)
unfolding initial_state refetch arrived
UseApi-states (begins url) = (refl, refl)
UseApi-states (asks {s} none r) = UseApi-states r
UseApi-states (asks {s} (some url) r) =
    let (both, busy) = UseApi-states r in (ground (arith, both), ground (arith, busy))
UseApi-states (hears url (resolved a) i r) = (refl, refl)
UseApi-states (hears url (thrown message) i r) = (refl, refl)

-- The url changes while the first request is open, and the answer to the first one arrives last: then
-- the hook shows the data of the url that is no longer the current one; and in between it does
-- not count as loading although a request is open.
arrived-overtaken :
    {A : Type 0} (old new : Text) (a b : A) (s : UseApi A)
    → is_truthy old ≡ true
    → is_truthy new ≡ true
    → (old == new) ≡ false
    → s.asked ≡ []
    → let asked = refetch (some new) (refetch (some old) s) in
      let between = arrived new (resolved b) asked in
      (between.asked ≡ old ∷ [])
      × (between.loading ≡ false)
      × ((arrived old (resolved a) between).data_value ≡ some a)
      × ((arrived old (resolved a) between).asked ≡ [])
unfolding refetch arrived drop_asked
arrived-overtaken old new a b s h k d e = (
  ground (arith, text_beq_iff new new),
  refl,
  refl,
  ground (arith, text_beq_iff new new, text_beq_iff old old),
)
