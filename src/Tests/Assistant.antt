-- ===== src/Tests/Assistant.antt =====
-- The pages of the assistant at concrete states (frontend/src/pages/ai).
use mrboard.Shared.{
  ◌≡◌, refl, ℕ, ◌++◌, false, Option, some, none, List, [], ◌∷◌, Text, text_eq, lit, arith, All,
  concat, keep,
}
use mrboard.Ai.Stream.{Report, Data, Reading, start_reading, feed, read_stream, send_event}
use mrboard.Ai.Stream.Laws.{read_stream_lem}
use mrboard.Ai.Stream.Sent.{Sent, progress, result, IsPrinted, read_stream-body}
use mrboard.Ai.Analysis.{
  SelectedAlert, AnalysisHistory, AnalysisPage, Run, handle_select_alert, handle_start_analysis,
  find_analysis, run_failed,
}
use mrboard.Ai.Analysis.Steps.{
  Session, first_page, started, close_run, select, start, failed, Reach, opened, later,
  Reach-no_loading,
}
use mrboard.Ai.Analysis.Laws.{Shows, open_ids, handle_select_alert_lem}
use mrboard.Ai.Chat.{Chat, open_chat, send_message}
use mrboard.Ai.Chat.Laws as Chat
use mrboard.Ai.Chat.Laws.{IsAnswered, Reach-IsAnswered, questions, replies}
use mrboard.Ai.RawResponse.{cut_object, cons_code}
use mrboard.Ai.RawResponse.Laws.{Closed, cut_object_lem}

abbrev report : Report ℕ
report = record {
  summary = lit "out of memory";
  severity = lit "critical";
  root_cause = lit "leak";
  evidence = [];
  suggestions = [];
  related_incidents = [];
  raw_response = lit "raw";
  tokens_used = 10;
  rounds = 2;
}

abbrev step_data : Data ℕ
step_data = record { step = lit "logs"; report = report }

-- A JSON text of one letter, which stands for the data above.
abbrev print : Data ℕ → Text
print d = lit "D"

abbrev parse : Text → Option (Data ℕ)
parse s = some step_data

abbrev events : List (Sent ℕ)
events = progress step_data ∷ result step_data ∷ []

abbrev cut_body : List Text
cut_body = lit "event: prog" ∷ lit "ress\ndata: D\n" ∷ lit "\nevent: result\ndata: D\n\n" ∷ []

read_stream_lem_example :
    read_stream parse cut_body start_reading ≡ feed parse (concat cut_body) start_reading
read_stream_lem_example = read_stream_lem parse cut_body

IsPrinted-events : All (IsPrinted parse print) events
IsPrinted-events = (((ground arith, tt), refl), (((ground arith, tt), refl), tt))

read_stream-body_example :
    ((read_stream parse cut_body start_reading).progress_events ≡ lit "logs" ∷ [])
    × (((read_stream parse cut_body start_reading).result_report ≡ some report)
        × ((read_stream parse cut_body start_reading).buffer ≡ []))
unfolding mrboard.Ai.Stream.or_text
read_stream-body_example = read_stream-body parse print events cut_body IsPrinted-events refl

abbrev alert : SelectedAlert
alert = record { name = lit "OOM"; severity = lit "critical"; namespace = lit "shop"; labels = [] }

abbrev history : AnalysisHistory
history = record {
  id = 7;
  alert_name = lit "OOM";
  severity = lit "critical";
  namespace = lit "shop";
  summary = lit "leak";
  root_cause = [];
  evidence_json = [];
  suggestions_json = [];
  tokens_used = 1;
  rounds = 1;
}

abbrev parse_list : Text → Option (List ℕ)
parse_list s = some []

abbrev page : AnalysisPage ℕ
page = record (first_page parse_list) { histories = history ∷ []; abort_ref = some 3 }

handle_select_alert_lem_example :
    let q = handle_select_alert parse_list alert page in
    Shows parse_list alert page.histories q.selected_id q.report
    × (q.selected_alert ≡ some alert)
    × (q.loading ≡ false)
    × (q.progress_events ≡ [])
    × (q.abort_ref ≡ none)
    × (q.aborted ≡ page.aborted ++ open_ids page.abort_ref)
handle_select_alert_lem_example = handle_select_alert_lem parse_list alert page

abbrev run : Run
run = record { id = 0; alert = alert; known = history ∷ [] }

abbrev opened_session : Session ℕ
opened_session = record { page = first_page parse_list; open_runs = []; timeouts = []; made = 0 }

abbrev selected_session : Session ℕ
selected_session = record opened_session {
  page = handle_select_alert parse_list alert (first_page parse_list);
}

abbrev running : Session ℕ
running = started parse_list selected_session

abbrev over : Session ℕ
over = record running {
  page = run_failed parse_list false (lit "HTTP 500") running.page;
  open_runs = close_run 0 running.open_runs;
}

Reach-over : Reach parse_list over
Reach-over = later (later (later opened (select alert)) start) (failed run false (lit "HTTP 500"))

over_ended : over.open_runs ≡ []
unfolding handle_start_analysis handle_select_alert find_analysis keep
over_ended = refl

Reach-no_loading_example : over.page.loading ≡ false
Reach-no_loading_example = Reach-no_loading parse_list Reach-over over_ended

abbrev asked_chat : Chat
asked_chat = send_message (record (open_chat (lit "hello")) { input = lit " why? " })

abbrev said : List Chat.Said
said = Chat.asked (lit "why?") ∷ []

Reach-asked_chat : Chat.Reach (lit "hello") asked_chat said
unfolding mrboard.Shared.trim_end mrboard.Shared.trim_start mrboard.Shared.is_space
Reach-asked_chat = Chat.later (Chat.later Chat.opened (Chat.type_in (lit " why? "))) Chat.send

Reach-IsAnswered_example : IsAnswered (lit "hello") asked_chat said
Reach-IsAnswered_example = Reach-IsAnswered Reach-asked_chat

cut_object_lem_example :
    Closed 1 (lit "\"a\":{}}!") (cut_object 1 (lit "\"a\":{}}!"))
    × (cut_object 0 (b'{' ∷ lit "\"a\":{}}!") ≡ cons_code b'{' (cut_object 1 (lit "\"a\":{}}!")))
cut_object_lem_example = cut_object_lem (lit "\"a\":{}}!")

-- The braces of the object end the cut.
cut_object_test : cut_object 0 (lit "{\"a\":{}}!") ≡ some (lit "{\"a\":{}}")
unfolding cut_object
cut_object_test = refl
