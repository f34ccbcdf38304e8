-- ===== src/Ai/Stream.antt =====
-- The events of a running analysis: `sendEvent` of controllers/ai_analysis.go writes them, and the
-- loop of `handleStartAnalysis`, frontend/src/pages/ai/AIAnalysis.tsx, reads them from the body of
-- the response, which arrives in chunks. A chunk is the text that the decoder makes of it.
pub mod Laws
pub mod Sent
use mrboard.Shared.{
  ◌++◌, Option, none, some, List, [], ◌∷◌, if◌then◌else◌, ◌==◌, ◌&&◌, Text, text_eq, lit, is_truthy,
  split, strip, trim, init, ℕ,
}

-- The texts, lists and counts of a report, of which '', [] and 0 stand for a missing field. `J` is
-- the type of the JSON values in its lists.
pub record Report (J : Type 0) : Type 0 where
  pub summary : Text
  pub severity : Text
  pub root_cause : Text
  pub evidence : List J
  pub suggestions : List J
  pub related_incidents : List J
  pub raw_response : Text
  pub tokens_used : ℕ
  pub rounds : ℕ

-- What the data of an event is, parsed: the step of a progress event, and the report.
pub record Data (J : Type 0) : Type 0 where
  pub step : Text
  pub report : Report J

-- The variables of the loop, and the steps shown.
pub record Reading (J : Type 0) : Type 0 where
  pub buffer : Text
  pub event_type : Text
  pub progress_events : List Text
  pub result_report : Option (Report J)

pub start_reading : {J : Type 0} → Reading J
start_reading = record { buffer = []; event_type = []; progress_events = []; result_report = none }

-- `a || b` on texts.
unfoldable pub or_text : Text → Text → Text
or_text a b = if is_truthy a then a else b

abbrev with_defaults : {J : Type 0} → Report J → Report J
with_defaults r = record r {
  severity = or_text r.severity (lit "warning");
  raw_response = or_text r.raw_response r.root_cause;
}

abbrev on_data : {J : Type 0} → Data J → Reading J → Reading J
on_data data_value r =
    if r.event_type == lit "progress" && is_truthy data_value.step
    then record r { progress_events = r.progress_events ++ data_value.step ∷ [] }
    else if r.event_type == lit "result"
    then record r { result_report = some (with_defaults data_value.report) }
    else r

-- `buffer = lines.pop() || ''`.
abbrev last_line : List Text → Text
last_line [] = []
last_line (x ∷ []) = x
last_line (x ∷ y ∷ ys) = last_line (y ∷ ys)

-- `parse` is JSON.parse, none where it throws or the result has no fields.
module _ {J : Type 0} (parse : Text → Option (Data J)) where
  abbrev read_type : Option Text → Reading J → Reading J
  read_type none r = r
  read_type (some rest) r = record r { event_type = trim rest }

  abbrev read_data : Option Text → Reading J → Reading J
  read_data none r = r
  read_data (some rest) r = elim (parse rest) [ none ↦ r | some d ↦ on_data d r ]

  handle_line : Text → Reading J → Reading J
  handle_line line r =
      read_data (strip (lit "data: ") line) (read_type (strip (lit "event: ") line) r)

  handle_lines : List Text → Reading J → Reading J
  handle_lines [] r = r
  handle_lines (line ∷ lines) r = handle_lines lines (handle_line line r)

  -- The body of the loop, for a chunk.
  pub feed : Text → Reading J → Reading J
  feed chunk r =
      let lines = split 10 (r.buffer ++ chunk) in
      handle_lines (init lines) (record r { buffer = last_line lines })

  pub read_stream : List Text → Reading J → Reading J
  read_stream [] r = r
  read_stream (chunk ∷ chunks) r = read_stream chunks (feed chunk r)

-- The writer: `fmt.Fprintf(w, "event: %s\ndata: %s\n\n", eventType, jsonData)`.
abbrev pub send_event : Text → Text → Text
send_event event_type json =
    lit "event: " ++ (event_type ++ (10 ∷ (lit "data: " ++ (json ++ (10 ∷ 10 ∷ [])))))
