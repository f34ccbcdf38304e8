-- ===== src/Ai/Stream/Sent.antt =====
-- What the events of an analysis become in the browser: `AnalyzeStream` of
-- controllers/ai_analysis.go and `handleStartAnalysis` of frontend/src/pages/ai/AIAnalysis.tsx.
use mrboard.Shared.{
  ◌≡◌, ◌≢◌, refl, sym, ap, ◌∙◌, ◌++◌, append_assoc, append-nil, Option, none, some, List, [], ◌∷◌,
  if◌then◌else◌, arith, Text, lit, is_truthy, split_from, split, init, concat, All, trim_start,
  trim_end, is_space,
}
use mrboard.Shared.Split.{split_from-append}
use mrboard.Ai.Stream.{
  Reading, Data, Report, start_reading, with_defaults, on_data, last_line, handle_line,
  handle_lines, feed, read_stream, send_event,
}
use mrboard.Ai.Stream.Laws.{init-append, last_line-append, split_from-IsCons, read_stream_lem}

-- The events that the server sends.
pub data Sent (J : Type 0) : Type 0 where
  progress result failed : Data J → Sent J

abbrev type_of : {J : Type 0} → Sent J → Text
type_of (progress d) = lit "progress"
type_of (result d) = lit "result"
type_of (failed d) = lit "error"

abbrev data_of : {J : Type 0} → Sent J → Data J
data_of (progress d) = d
data_of (result d) = d
data_of (failed d) = d

-- The steps of the progress events that have one.
abbrev steps : {J : Type 0} → List (Sent J) → List Text
steps [] = []
steps (progress d ∷ events) = (if is_truthy d.step then d.step ∷ [] else []) ++ steps events
steps (_ ∷ events) = steps events

-- The report of the last result event, or the one there was.
abbrev last_report : {J : Type 0} → Option (Report J) → List (Sent J) → Option (Report J)
last_report o [] = o
last_report o (result d ∷ events) = last_report (some (with_defaults d.report)) events
last_report o (_ ∷ events) = last_report o events

-- `print` is json.Marshal.
module _ {J : Type 0} (parse : Text → Option (Data J)) (print : Data J → Text) where
  -- What is written for the event is one line, which JSON.parse reads back.
  abbrev pub IsPrinted : Sent J → Type 0
  IsPrinted e =
      All (λ c. c ≢ 10) (print (data_of e)) × (parse (print (data_of e)) ≡ some (data_of e))

  abbrev pub body : List (Sent J) → Text
  body [] = []
  body (e ∷ events) = send_event (type_of e) (print (data_of e)) ++ body events

  -- The event and the data of an event are lines of their own, with a blank one behind.
  split-send :
      (t j rest : Text)
      → All (λ c. c ≢ 10) t
      → All (λ c. c ≢ 10) j
      → split 10 (send_event t j ++ rest)
        ≡ (lit "event: " ++ t) ∷ (lit "data: " ++ j) ∷ [] ∷ split 10 rest
  unfolding split split_from
  split-send t j rest h k =
      let data_line = lit "data: " ++ (j ++ 10 ∷ 10 ∷ []) in
      let first : split_from 10 (lit "event: ") (t ++ 10 ∷ (data_line ++ rest))
          ≡ (lit "event: " ++ t) ∷ split_from 10 [] (data_line ++ rest) =
        split_from-append 10 (lit "event: ") t (data_line ++ rest) h in
      let second : split_from 10 [] (data_line ++ rest) ≡ (lit "data: " ++ j) ∷ [] ∷ split 10 rest =
        rw (append_assoc j (10 ∷ 10 ∷ []) rest)
          (split_from-append 10 (lit "data: ") j (10 ∷ rest) k) in
      rw (append_assoc t (10 ∷ data_line) rest) (first ∙ ap (λ l. (lit "event: " ++ t) ∷ l) second)

  received : Sent J → Reading J → Reading J
  received e r = on_data (data_of e) (record r { event_type = type_of e })

  received_all : List (Sent J) → Reading J → Reading J
  received_all [] r = r
  received_all (e ∷ events) r = received_all events (received e r)

  handle_event :
      (e : Sent J) (r : Reading J)
      → IsPrinted e
      → handle_line parse
          (lit "data: " ++ print (data_of e))
          (handle_line parse (lit "event: " ++ type_of e) r)
        ≡ received e r
  unfolding handle_line received trim_start trim_end is_space
  handle_event (progress d) r h = rw h.1 refl
  handle_event (result d) r h = rw h.1 refl
  handle_event (failed d) r h = rw h.1 refl

  All-type_of : (e : Sent J) → All (λ c. c ≢ 10) (type_of e)
  All-type_of (progress d) = ground arith
  All-type_of (result d) = ground arith
  All-type_of (failed d) = ground arith

  split-body :
      (e : Sent J) (events : List (Sent J))
      → IsPrinted e
      → split 10 (body (e ∷ events))
        ≡ (lit "event: " ++ type_of e)
          ∷ (lit "data: " ++ print (data_of e))
          ∷ []
          ∷ split 10 (body events)
  split-body e events h =
      split-send (type_of e) (print (data_of e)) (body events) (All-type_of e) h.0

  handle_lines-body :
      (events : List (Sent J)) (r : Reading J)
      → All IsPrinted events
      → (handle_lines parse (init (split 10 (body events))) r ≡ received_all events r)
        × (last_line (split 10 (body events)) ≡ [])
  unfolding split split_from handle_lines received_all handle_line
  handle_lines-body [] r h = (refl, refl)
  handle_lines-body (e ∷ events) r (h, hs) =
      let lines = split 10 (body events) in
      let cons = split_from-IsCons 10 [] (body events) in
      let first = (lit "event: " ++ type_of e) ∷ (lit "data: " ++ print (data_of e)) ∷ [] ∷ [] in
      let (tail, none_left) = handle_lines-body events (received e r) hs in
      (
        ap (λ l. handle_lines parse (init l) r) (split-body e events h)
            ∙ (ap (λ l. handle_lines parse l r) (init-append first lines cons)
                ∙ (ap (handle_lines parse (init lines)) (handle_event e r h) ∙ tail)),
        ap last_line (split-body e events h) ∙ (last_line-append first lines cons ∙ none_left),
      )

  received_lem :
      (e : Sent J) (r : Reading J)
      → ((received e r).progress_events ≡ r.progress_events ++ steps (e ∷ []))
        × (((received e r).result_report ≡ last_report r.result_report (e ∷ []))
            × ((received e r).buffer ≡ r.buffer))
  unfolding received
  received_lem (progress d) r = ground (arith, append-nil r.progress_events)
  received_lem (result d) r = ground (arith, append-nil r.progress_events)
  received_lem (failed d) r = ground (arith, append-nil r.progress_events)

  steps_cons :
      (e : Sent J) (events : List (Sent J)) → steps (e ∷ events) ≡ steps (e ∷ []) ++ steps events
  steps_cons (progress d) events = ground (arith, append-nil (d.step ∷ []))
  steps_cons (result d) events = refl
  steps_cons (failed d) events = refl

  last_report_cons :
      (o : Option (Report J)) (e : Sent J) (events : List (Sent J))
      → last_report o (e ∷ events) ≡ last_report (last_report o (e ∷ [])) events
  last_report_cons o (progress d) events = refl
  last_report_cons o (result d) events = refl
  last_report_cons o (failed d) events = refl

  received_all_lem :
      (events : List (Sent J)) (r : Reading J)
      → ((received_all events r).progress_events ≡ r.progress_events ++ steps events)
        × (((received_all events r).result_report ≡ last_report r.result_report events)
            × ((received_all events r).buffer ≡ r.buffer))
  unfolding received_all
  received_all_lem [] r = (sym (append-nil r.progress_events), (refl, refl))
  received_all_lem (e ∷ events) r =
      let (shown, (found, unread)) = received_all_lem events (received e r) in
      let (shown_one, (found_one, unread_one)) = received_lem e r in
      (
        shown
            ∙ (ap (λ l. l ++ steps events) shown_one
                ∙ (append_assoc r.progress_events (steps (e ∷ [])) (steps events)
                    ∙ ap (λ l. r.progress_events ++ l) (sym (steps_cons e events)))),
        (
          found
              ∙ (ap (λ o. last_report o events) found_one
                  ∙ sym (last_report_cons r.result_report e events)),
          unread ∙ unread_one,
        ),
      )

  -- If the data of each event is printed as one line that JSON.parse reads back, then, whatever
  -- chunks the events arrive in, the loop shows the steps of the progress events that have
  -- one, in order, and ends with the report of the last result event, with its missing severity and
  -- text filled in; nothing is left unread, and an error event leaves no trace.
  pub read_stream-body :
      (events : List (Sent J)) (chunks : List Text)
      → All IsPrinted events
      → concat chunks ≡ body events
      → ((read_stream parse chunks start_reading).progress_events ≡ steps events)
        × (((read_stream parse chunks start_reading).result_report ≡ last_report none events)
            × ((read_stream parse chunks start_reading).buffer ≡ []))
  unfolding feed start_reading
  read_stream-body events chunks printed h =
      let (lines, none_left) = handle_lines-body events start_reading printed in
      let all : read_stream parse chunks start_reading ≡ received_all events start_reading =
        read_stream_lem parse chunks
        ∙ (ap (λ c. feed parse c start_reading) h
            ∙ (ap
                  (λ b.
                    handle_lines parse (init (split 10 (body events)))
                      (record start_reading { buffer = b }))
                  none_left
                ∙ lines)) in
      let (shown, (found, unread)) = received_all_lem events start_reading in
      (
        ap (λ r. r.progress_events) all ∙ shown,
        (ap (λ r. r.result_report) all ∙ found, ap (λ r. r.buffer) all ∙ unread),
      )
