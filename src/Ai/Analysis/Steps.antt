-- ===== src/Ai/Analysis/Steps.antt =====
-- The events of the analysis page, in any order, and what holds after each
-- (frontend/src/pages/ai/AIAnalysis.tsx). The runs that have not ended are kept beside the page.
use mrboard.Shared.{
  ◌≡◌, ◌<◌, ◌++◌, ℕ, Bool, true, false, Option, none, some, List, [], ◌∷◌, length, Text, arith,
  keep, not, ◌==◌, nat_eq, length-append, ◌+◌,
}
use mrboard.Ai.Stream.{Report}
use mrboard.Ai.Analysis.{
  SelectedAlert, AnalysisHistory, AnalysisPage, Run, Captured, start_for, time_out,
  handle_select_alert, handle_start_analysis, on_progress, stream_read, history_fetched, run_ended,
  run_failed, handle_reanalyze, load_detail, new_analysis, finish,
}

pub record Session (J : Type 0) : Type 0 where
  pub page : AnalysisPage J
  pub open_runs : List Run
  pub made : ℕ
  pub timeouts : List Captured

-- The run is over.
abbrev pub close_run : ℕ → List Run → List Run
close_run id runs = keep (λ (r : Run). not (r.id == id)) runs

abbrev add_run : Option Run → List Run → List Run
add_run none runs = runs
add_run (some run) runs = runs ++ run ∷ []

module _ {J : Type 0} (parse_list : Text → Option (List J)) where
  abbrev with_page : AnalysisPage J → Session J → Session J
  with_page p s = record s { page = p }

  -- A start, of the page or of a timeout.
  abbrev with_start : AnalysisPage J × Option Run → Session J → Session J
  with_start (p, run) s = record s {
    page = p;
    open_runs = add_run run s.open_runs;
    made = s.made + 1;
  }

  abbrev pub started : Session J → Session J
  started s = with_start (handle_start_analysis parse_list s.made s.page) s

  pub data Step (s : Session J) : Session J → Type 0 where
    select :
        (alert : SelectedAlert) → Step s (with_page (handle_select_alert parse_list alert s.page) s)
    start : Step s (started s)
    told : (step : Text) → Step s (with_page (on_progress parse_list step s.page) s)
    read :
        (result : Option (Report J)) → Step s (with_page (stream_read parse_list result s.page) s)
    ended :
        (run : Run) (result : Option (Report J)) (fetched : Option (List AnalysisHistory))
        → Step s (record s {
          page = run_ended parse_list run result fetched s.page;
          open_runs = close_run run.id s.open_runs;
        })
    failed :
        (run : Run) (is_abort : Bool) (message : Text)
        → Step s (record s {
          page = run_failed parse_list is_abort message s.page;
          open_runs = close_run run.id s.open_runs;
        })
    reanalyze : Step s (record s {
      page = (handle_reanalyze parse_list s.page).0;
      timeouts = s.timeouts ++ (handle_reanalyze parse_list s.page).1 ∷ [];
    })
    timed_out :
        (pre post : List Captured) (c : Captured)
        → s.timeouts ≡ pre ++ c ∷ post
        → Step s
            (record (with_start (time_out parse_list s.made c s.page) s) { timeouts = pre ++ post })
    load : (id : ℕ) → Step s (with_page (load_detail parse_list id s.page) s)
    fetched :
        (hs : Option (List AnalysisHistory))
        → Step s (with_page (history_fetched parse_list hs s.page) s)
    new : Step s (with_page (new_analysis s.page) s)

  abbrev pub first_page : AnalysisPage J
  first_page = record {
    histories = [];
    selected_id = none;
    report = none;
    loading = false;
    selected_alert = none;
    progress_events = [];
    abort_ref = none;
    aborted = [];
    toasts = [];
  }

  pub data Reach : Session J → Type 0 where
    opened : Reach (record { page = first_page; open_runs = []; made = 0; timeouts = [] })
    later : {s t : Session J} → Reach s → Step s t → Reach t

  IsAwaited : Session J → Type 0
  IsAwaited s = s.page.loading ≡ true → 0 < length s.open_runs

  start_for-awaited :
      (alert : Option SelectedAlert) (known : List AnalysisHistory) (s : Session J)
      → IsAwaited s
      → (start_for parse_list s.made alert known s.page).0.loading ≡ true
      → 0 < length (add_run (start_for parse_list s.made alert known s.page).1 s.open_runs)
  unfolding IsAwaited
  start_for-awaited none known s h e = h e
  start_for-awaited (some alert) known s h e =
      omega (
        arith,
        length-append s.open_runs (record { id = s.made; alert = alert; known = known } ∷ []),
      )

  Step-IsAwaited : {s t : Session J} → IsAwaited s → Step s t → IsAwaited t
  unfolding IsAwaited handle_select_alert handle_start_analysis time_out on_progress stream_read
      run_ended run_failed finish handle_reanalyze load_detail history_fetched new_analysis
  Step-IsAwaited h (select alert) = ground arith
  Step-IsAwaited {s} h start = start_for-awaited s.page.selected_alert s.page.histories s h
  Step-IsAwaited h (told step) = h
  Step-IsAwaited h (read result) = ground (arith, h)
  Step-IsAwaited h (ended run result hs) = ground arith
  Step-IsAwaited h (failed run is_abort message) = ground arith
  Step-IsAwaited h reanalyze = ground arith
  Step-IsAwaited {s} h (timed_out pre post c e) = start_for-awaited c.alert c.known s h
  Step-IsAwaited h (load id) = ground arith
  Step-IsAwaited h (fetched hs) = ground (arith, h)
  Step-IsAwaited h new = h

  Reach-IsAwaited : {s : Session J} → Reach s → IsAwaited s
  unfolding IsAwaited
  Reach-IsAwaited opened = λ e. ground (arith, e)
  Reach-IsAwaited (later r step) = Step-IsAwaited (Reach-IsAwaited r) step

  -- After any sequence of events the page waits only for runs that have not ended: when all have, by
  -- a report, an error or an abort, it shows no progress.
  pub Reach-no_loading : {s : Session J} → Reach s → s.open_runs ≡ [] → s.page.loading ≡ false
  unfolding IsAwaited
  Reach-no_loading {s} r h = ground (arith, Reach-IsAwaited r, h)
