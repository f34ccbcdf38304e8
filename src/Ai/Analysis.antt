-- ===== src/Ai/Analysis.antt =====
-- The page of the analyses, frontend/src/pages/ai/AIAnalysis.tsx: its state and its handlers. A call
-- of `handleStartAnalysis` is a run: it goes on with the alert and the histories of the render it
-- was made in, while the page changes. Runs are numbered, and so are their controllers.
pub mod Steps
pub mod Laws
use mrboard.Shared.{
  ℕ, ◌+◌, ◌++◌, Bool, true, false, not, ◌&&◌, ◌||◌, Option, none, some, is_some, List, [], ◌∷◌,
  if◌then◌else◌, ◌==◌, nat_eq, Text, text_eq, lit, is_truthy, or_else,
}
use mrboard.Ai.Stream.{Report, or_text}

pub record SelectedAlert : Type 0 where
  pub name : Text
  pub severity : Text
  pub namespace : Text
  pub labels : List (Text × Text)

pub record AnalysisHistory : Type 0 where
  pub id : ℕ
  pub alert_name : Text
  pub severity : Text
  pub namespace : Text
  pub summary : Text
  pub root_cause : Text
  pub evidence_json : Text
  pub suggestions_json : Text
  pub tokens_used : ℕ
  pub rounds : ℕ

pub record AnalysisPage (J : Type 0) : Type 0 where
  pub histories : List AnalysisHistory
  pub selected_id : Option ℕ
  pub report : Option (Report J)
  pub loading : Bool
  pub selected_alert : Option SelectedAlert
  pub progress_events : List Text
  pub abort_ref : Option ℕ
  pub aborted : List ℕ
  pub toasts : List Text

pub record Run : Type 0 where
  pub id : ℕ
  pub alert : SelectedAlert
  pub known : List AnalysisHistory

-- What the closure of a render sees.
pub record Captured : Type 0 where
  pub alert : Option SelectedAlert
  pub known : List AnalysisHistory

abbrev matches : Text → Text → AnalysisHistory → Bool
matches alert_name namespace h =
    h.alert_name == alert_name && (h.namespace == namespace || not (is_truthy namespace))

unfoldable pub find_analysis : Text → Text → List AnalysisHistory → Option AnalysisHistory
find_analysis alert_name namespace [] = none
find_analysis alert_name namespace (h ∷ hs) =
    if matches alert_name namespace h then some h else find_analysis alert_name namespace hs

unfoldable find_id : ℕ → List AnalysisHistory → Option AnalysisHistory
find_id id [] = none
find_id id (h ∷ hs) = if h.id == id then some h else find_id id hs

-- `abortRef.current.abort()`.
abbrev abort_open : Option ℕ → List ℕ → List ℕ
abort_open none aborted = aborted
abort_open (some id) aborted = aborted ++ id ∷ []

-- `parse_list` is JSON.parse on a list, none where it throws.
module _ {J : Type 0} (parse_list : Text → Option (List J)) where
  abbrev parsed : Text → List J
  parsed s = or_else (parse_list (or_text s (lit "[]"))) []

  unfoldable pub history_to_report : AnalysisHistory → Report J
  history_to_report h = record {
    summary = h.summary;
    severity = h.severity;
    root_cause = h.root_cause;
    evidence = parsed h.evidence_json;
    suggestions = parsed h.suggestions_json;
    related_incidents = [];
    raw_response = or_text h.root_cause h.summary;
    tokens_used = h.tokens_used;
    rounds = h.rounds;
  }

  pub cancel_analysis : AnalysisPage J → AnalysisPage J
  cancel_analysis p = record p { abort_ref = none; aborted = abort_open p.abort_ref p.aborted }

  abbrev show_existing : Option AnalysisHistory → AnalysisPage J → AnalysisPage J
  show_existing none p = record p { report = none; selected_id = none }
  show_existing (some h) p = record p {
    report = some (history_to_report h);
    selected_id = some h.id;
  }

  unfoldable pub handle_select_alert : SelectedAlert → AnalysisPage J → AnalysisPage J
  handle_select_alert alert p =
      show_existing (find_analysis alert.name alert.namespace p.histories)
        (record (cancel_analysis p) {
          selected_alert = some alert;
          loading = false;
          progress_events = [];
        })

  -- `handleStartAnalysis` of the render with this alert and these histories, up to the request; `id` is
  -- the number of the new run.
  abbrev start_for :
      ℕ → Option SelectedAlert → List AnalysisHistory → AnalysisPage J → AnalysisPage J × Option Run
  start_for id none known p = (p, none)
  start_for id (some alert) known p = (
    record (cancel_analysis p) {
      abort_ref = some id;
      loading = true;
      report = none;
      progress_events = [];
    },
    some (record { id = id; alert = alert; known = known }),
  )

  unfoldable pub handle_start_analysis : ℕ → AnalysisPage J → AnalysisPage J × Option Run
  handle_start_analysis id p = start_for id p.selected_alert p.histories p

  pub on_progress : Text → AnalysisPage J → AnalysisPage J
  on_progress step p = record p { progress_events = p.progress_events ++ step ∷ [] }

  -- The body is read: what precedes `await fetchHistory()`.
  pub stream_read : Option (Report J) → AnalysisPage J → AnalysisPage J
  stream_read none p = p
  stream_read (some r) p = record p { report = some r }

  -- `fetchHistory`, whose failure is ignored.
  pub history_fetched : Option (List AnalysisHistory) → AnalysisPage J → AnalysisPage J
  history_fetched none p = p
  history_fetched (some hs) p = record p { histories = hs }

  abbrev done : Text
  done = lit "分析完成"

  abbrev after_report : Option AnalysisHistory → AnalysisPage J → AnalysisPage J
  after_report none p = record p { toasts = p.toasts ++ done ∷ [] }
  after_report (some h) p = record p { selected_id = some h.id; toasts = p.toasts ++ done ∷ [] }

  abbrev after_none : Option AnalysisHistory → AnalysisPage J → AnalysisPage J
  after_none none p = p
  after_none (some h) p = record p {
    report = some (history_to_report h);
    selected_id = some h.id;
    toasts = p.toasts ++ done ∷ [];
  }

  -- The `finally` block.
  finish : AnalysisPage J → AnalysisPage J
  finish p = record p { abort_ref = none; loading = false }

  -- What follows `await fetchHistory()`.
  pub run_ended :
      Run → Option (Report J) → Option (List AnalysisHistory) → AnalysisPage J → AnalysisPage J
  run_ended run result fetched p =
      let existing = find_analysis run.alert.name run.alert.namespace run.known in
      finish (
        if is_some result
        then after_report existing (history_fetched fetched p)
        else after_none existing (history_fetched fetched p))

  -- The `catch` block; an AbortError is not told.
  pub run_failed : Bool → Text → AnalysisPage J → AnalysisPage J
  run_failed is_abort message p =
      finish (if is_abort then p else record p { toasts = p.toasts ++ message ∷ [] })

  -- `handleReanalyze`, and what its timeout keeps of the render.
  pub handle_reanalyze : AnalysisPage J → AnalysisPage J × Captured
  handle_reanalyze p = (
    record (cancel_analysis p) {
      report = none;
      selected_id = none;
      progress_events = [];
      loading = false;
    },
    record { alert = p.selected_alert; known = p.histories },
  )

  -- The timeout of 50 ms: the start goes on with the alert of the render that set it, whichever is
  -- selected now.
  unfoldable pub time_out : ℕ → Captured → AnalysisPage J → AnalysisPage J × Option Run
  time_out id c p = start_for id c.alert c.known p

  abbrev show_detail : Option AnalysisHistory → AnalysisPage J → AnalysisPage J
  show_detail none p = p
  show_detail (some h) p = record p { report = some (history_to_report h) }

  pub load_detail : ℕ → AnalysisPage J → AnalysisPage J
  load_detail id p = show_detail (find_id id p.histories) (record (cancel_analysis p) {
    selected_id = some id;
    selected_alert = none;
    loading = false;
    progress_events = [];
  })

-- The button 新建分析.
pub new_analysis : {J : Type 0} → AnalysisPage J → AnalysisPage J
new_analysis p = record p { selected_alert = none; report = none }

pub data Panel : Type 0 where
  alert_report alert_prompt progress history_report empty : Panel

abbrev when : Bool → Panel → List Panel
when b panel = if b then panel ∷ [] else []

-- The right half of the page: five panels, each under its own condition.
panels : {J : Type 0} → AnalysisPage J → List Panel
panels p =
    let alert = is_some p.selected_alert in
    let report = is_some p.report in
    let loading = p.loading in
    when (alert && (report && not loading)) alert_report
    ++ (when (alert && (not report && not loading)) alert_prompt
        ++ (when loading progress
            ++ (when (not alert && (report && not loading)) history_report
                ++ when (not alert && (not report && not loading)) empty)))
