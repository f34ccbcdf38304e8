-- ===== src/Ai/Analysis/Laws.antt =====
-- What the analysis page shows (frontend/src/pages/ai/AIAnalysis.tsx).
use mrboard.Shared.{
  ◌≡◌, ◌∙◌, refl, sym, ap, ℕ, ◌++◌, append-nil, ◌⊎◌, inl, inr, Option, none, some, Bool, true,
  false, not, ◌&&◌, ◌||◌, ◌==◌, List, [], ◌∷◌, All, length, Text, text_eq, is_truthy, arith,
  Bool-cases,
}
use mathlib.Core.Option
use mrboard.Ai.Stream.{Report}
use mrboard.Ai.Analysis.{
  SelectedAlert, AnalysisHistory, AnalysisPage, matches, abort_open, find_analysis,
  history_to_report, cancel_analysis, show_existing, handle_select_alert, panels,
}

-- The page shows exactly one of its five panels in every state.
panels_lem : {J : Type 0} (p : AnalysisPage J) → length (panels p) ≡ 1
unfolding panels
panels_lem p = ground arith

-- A history is for an alert if it has its name and, unless the alert has none, its namespace.
abbrev is_for : SelectedAlert → AnalysisHistory → Bool
is_for alert h =
    h.alert_name == alert.name
    && (not (is_truthy alert.namespace) || h.namespace == alert.namespace)

-- The history is the first one in the list that is for the alert.
abbrev pub IsFirst : SelectedAlert → List AnalysisHistory → AnalysisHistory → Type 0
IsFirst alert hs h =
    (pre : List AnalysisHistory) × (post : List AnalysisHistory) × (hs ≡ pre ++ h ∷ post)
    × All (λ x. is_for alert x ≡ false) pre
    × (is_for alert h ≡ true)

abbrev pub HasNone : SelectedAlert → List AnalysisHistory → Type 0
HasNone alert hs = All (λ x. is_for alert x ≡ false) hs

-- What is found, and that it is what is looked for.
abbrev Found : SelectedAlert → List AnalysisHistory → Option AnalysisHistory → Type 0
Found alert hs none = HasNone alert hs
Found alert hs (some h) = IsFirst alert hs h

matches-is_for :
    (alert : SelectedAlert) (h : AnalysisHistory)
    → matches alert.name alert.namespace h ≡ is_for alert h
matches-is_for alert h = ground arith

Found-cons :
    (alert : SelectedAlert) (x : AnalysisHistory) (hs : List AnalysisHistory)
    (o : Option AnalysisHistory)
    → is_for alert x ≡ false
    → Found alert hs o
    → Found alert (x ∷ hs) o
Found-cons alert x hs none k all = (k, all)
Found-cons alert x hs (some h) k (pre, post, e, all, is) =
    (x ∷ pre, post, ap (λ l. x ∷ l) e, (k, all), is)

find_analysis-Found :
    (alert : SelectedAlert) (hs : List AnalysisHistory)
    → Found alert hs (find_analysis alert.name alert.namespace hs)
unfolding find_analysis
find_analysis-Found alert [] = tt
find_analysis-Found alert (x ∷ hs) = elim (Bool-cases (is_for alert x)) [
  | inl e ↦ rw (matches-is_for alert x, e) ([], hs, refl, tt, e)
  | inr e ↦
      rw (matches-is_for alert x, e)
        (Found-cons alert x hs (find_analysis alert.name alert.namespace hs) e
          (find_analysis-Found alert hs))
]

-- The controllers that are open: one or none.
abbrev pub open_ids : Option ℕ → List ℕ
open_ids none = []
open_ids (some id) = id ∷ []

abort_open_lem : (o : Option ℕ) (ids : List ℕ) → abort_open o ids ≡ ids ++ open_ids o
abort_open_lem none ids = sym (append-nil ids)
abort_open_lem (some id) ids = refl

module _ {J : Type 0} (parse_list : Text → Option (List J)) where
  -- What a page shows of the histories for an alert.
  abbrev pub Shows : SelectedAlert → List AnalysisHistory → Option ℕ → Option (Report J) → Type 0
  Shows alert hs selected_id report =
      ((h : AnalysisHistory) × IsFirst alert hs h
        × (selected_id ≡ some h.id)
        × (report ≡ some (history_to_report parse_list h)))
      ⊎ (HasNone alert hs × (selected_id ≡ none) × (report ≡ none))

  Found-Shows :
      (alert : SelectedAlert) (hs : List AnalysisHistory) (o : Option AnalysisHistory)
      → Found alert hs o
      → Shows alert hs (Option.map (λ h. h.id) o) (Option.map (history_to_report parse_list) o)
  Found-Shows alert hs none all = inr (all, refl, refl)
  Found-Shows alert hs (some h) first = inl (h, first, refl, refl)

  show_existing-Shows :
      (o : Option AnalysisHistory) (p : AnalysisPage J)
      → ((show_existing parse_list o p).selected_id ≡ Option.map (λ h. h.id) o)
        × ((show_existing parse_list o p).report ≡ Option.map (history_to_report parse_list) o)
        × ((show_existing parse_list o p).selected_alert ≡ p.selected_alert)
        × ((show_existing parse_list o p).loading ≡ p.loading)
        × ((show_existing parse_list o p).progress_events ≡ p.progress_events)
        × ((show_existing parse_list o p).abort_ref ≡ p.abort_ref)
        × ((show_existing parse_list o p).aborted ≡ p.aborted)
  show_existing-Shows none p = (refl, refl, refl, refl, refl, refl, refl)
  show_existing-Shows (some h) p = (refl, refl, refl, refl, refl, refl, refl)

  -- A selected alert is shown with the first of the histories that has its name and, unless the alert
  -- has none, its namespace; where no history has, without a report. The page does not wait and shows
  -- no progress of an earlier run, and the controller that was open, and no other, is aborted and let
  -- go.
  pub handle_select_alert_lem :
      (alert : SelectedAlert) (p : AnalysisPage J)
      → let q = handle_select_alert parse_list alert p in
        Shows alert p.histories q.selected_id q.report
        × (q.selected_alert ≡ some alert)
        × (q.loading ≡ false)
        × (q.progress_events ≡ [])
        × (q.abort_ref ≡ none)
        × (q.aborted ≡ p.aborted ++ open_ids p.abort_ref)
  unfolding handle_select_alert cancel_analysis
  handle_select_alert_lem alert p =
      let o = find_analysis alert.name alert.namespace p.histories in
      let t : AnalysisPage J = record (cancel_analysis parse_list p) {
        selected_alert = some alert;
        loading = false;
        progress_events = [];
      } in
      let (id, shown, chosen, wait, told, gone, aborted) = show_existing-Shows o t in
      (
        rw (id, shown) (Found-Shows alert p.histories o (find_analysis-Found alert p.histories)),
        chosen,
        wait,
        told,
        gone,
        aborted ∙ abort_open_lem p.abort_ref p.aborted,
      )
