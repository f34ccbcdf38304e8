-- ===== src/Ai/Chat/Laws.antt =====
-- Questions and replies of the chat (frontend/src/pages/ai/AIChat.tsx).
use mathlib.Core.List.{map-append}
use mrboard.Shared.{
  ◌≡◌, refl, sym, ap, ◌∙◌, ◌≤◌, ℕ, ◌+◌, ◌++◌, append-nil, List, [], ◌∷◌, map, List-cases, arith,
  Text, lit, is_truthy, trim, suc, Bool-cases, inl, inr,
}
use mrboard.Session.Api.{Outcome, resolved, thrown}
use mrboard.Ai.Stream.{or_text}
use mrboard.Ai.Chat.{
  user, bot, Message, Chat, open_chat, send_message, reply_arrived, reply_of, handle_new_session,
  handle_clear, choose_model,
}

abbrev pub questions : List Message → ℕ
questions [] = 0
questions (m ∷ ms) = (elim m.role [ user ↦ 1 | bot ↦ 0 ]) + questions ms

abbrev pub replies : List Message → ℕ
replies [] = 0
replies (m ∷ ms) = (elim m.role [ user ↦ 0 | bot ↦ 1 ]) + replies ms

questions-append : (ms ns : List Message) → questions (ms ++ ns) ≡ questions ms + questions ns
questions-append [] ns = omega arith
questions-append (m ∷ ms) ns = ground (arith, questions-append ms ns)

replies-append : (ms ns : List Message) → replies (ms ++ ns) ≡ replies ms + replies ns
replies-append [] ns = omega arith
replies-append (m ∷ ms) ns = ground (arith, replies-append ms ns)

-- What is said: a question, or the outcome of a request.
pub data Said : Type 0 where
  asked : Text → Said
  told : Outcome Text → Said

-- The line it has in the chat.
abbrev pub line_of : Said → Message
line_of (asked text) = record { role = user; content = text }
line_of (told (resolved [])) = record { role = bot; content = lit "无响应" }
line_of (told (resolved (c ∷ text))) = record { role = bot; content = c ∷ text }
line_of (told (thrown message)) = record { role = bot; content = lit "请求失败，请稍后重试。" }

-- What a press of the button says: nothing if the text is blank.
abbrev pub says : Text → List Said
says [] = []
says (c ∷ text) = asked (c ∷ text) ∷ []

-- What can happen to the chat, of which `said` is said since its greeting. An answer comes only while
-- one is awaited.
pub data Step (greeting : Text) (s : Chat) (said : List Said) : Chat → List Said → Type 0 where
  type_in : (text : Text) → Step greeting s said (record s { input = text }) said
  send : Step greeting s said (send_message s) (said ++ says (trim s.input))
  answer :
      (outcome : Outcome Text) (n : ℕ)
      → s.awaited ≡ suc n
      → Step greeting s said (reply_arrived outcome s) (said ++ told outcome ∷ [])
  new_session : Step greeting s said (handle_new_session greeting s) []
  clear : Step greeting s said (handle_clear s) said
  choose : (v : Text) → Step greeting s said (choose_model v s) said

pub data Reach (greeting : Text) : Chat → List Said → Type 0 where
  opened : Reach greeting (open_chat greeting) []
  later :
      {s t : Chat} {said told : List Said}
      → Reach greeting s said
      → Step greeting s said t told
      → Reach greeting t told

abbrev pub IsAnswered : Text → Chat → List Said → Type 0
IsAnswered greeting s said =
    (s.messages ≡ record { role = bot; content = greeting } ∷ map line_of said)
    × (questions s.messages + 1 ≤ replies s.messages + s.awaited)

-- A line that is added, with what it says.
append-lines :
    (m : Message) (said : List Said) (x : Said) (ms : List Message)
    → ms ≡ m ∷ map line_of said
    → ms ++ line_of x ∷ [] ≡ m ∷ map line_of (said ++ x ∷ [])
append-lines m said x ms e =
    ap (λ l. l ++ line_of x ∷ []) e ∙ ap (λ l. m ∷ l) (sym (map-append line_of said (x ∷ [])))

send-IsAnswered :
    (greeting : Text) (s : Chat) (said : List Said)
    → IsAnswered greeting s said
    → IsAnswered greeting (send_message s) (said ++ says (trim s.input))
unfolding send_message
send-IsAnswered greeting s said (e, h) = elim (List-cases (trim s.input)) [
  | inl k ↦ rw (k, append-nil said) (e, h)
  | inr (c, text, k) ↦
      let lines : List Message = record { role = user; content = c ∷ text } ∷ [] in
      rw k (
        append-lines (record { role = bot; content = greeting }) said (asked (c ∷ text)) s.messages
            e,
        omega (arith, h, questions-append s.messages lines, replies-append s.messages lines),
      )
]

reply_of-line_of :
    (outcome : Outcome Text)
    → let reply : Message = record { role = bot; content = reply_of outcome } in
      line_of (told outcome) ≡ reply
unfolding or_text
reply_of-line_of (resolved []) = refl
reply_of-line_of (resolved (c ∷ text)) = refl
reply_of-line_of (thrown message) = refl

answer-IsAnswered :
    (greeting : Text) (outcome : Outcome Text) (s : Chat) (said : List Said)
    → IsAnswered greeting s said
    → IsAnswered greeting (reply_arrived outcome s) (said ++ told outcome ∷ [])
unfolding reply_arrived
answer-IsAnswered greeting outcome s said (e, h) =
    let reply : List Message = record { role = bot; content = reply_of outcome } ∷ [] in
    (
      ap (λ m. s.messages ++ m ∷ []) (sym (reply_of-line_of outcome))
          ∙ append-lines (record { role = bot; content = greeting }) said (told outcome) s.messages
              e,
      omega (arith, h, questions-append s.messages reply, replies-append s.messages reply),
    )

choose-IsAnswered :
    (greeting v : Text) (s : Chat) (said : List Said)
    → IsAnswered greeting s said
    → IsAnswered greeting (choose_model v s) said
unfolding choose_model
choose-IsAnswered greeting v s said h = elim (Bool-cases (is_truthy v)) [
  | inl e ↦ rw e h
  | inr e ↦ rw e h
]

-- After any sequence of events, with requests that overlap or fail and with new sessions between,
-- the chat shows its greeting and then exactly what is said since: each question, trimmed and unless
-- it is blank, and for each outcome the reply, a text in place of an empty one, or that of a failure.
-- The questions it shows are at most as many as the replies after the greeting and the answers that
-- are awaited together.
pub Reach-IsAnswered :
    {greeting : Text} {s : Chat} {said : List Said}
    → Reach greeting s said
    → IsAnswered greeting s said
unfolding open_chat handle_new_session handle_clear choose_model
Reach-IsAnswered opened = (refl, omega arith)
Reach-IsAnswered (later r (type_in text)) = Reach-IsAnswered r
Reach-IsAnswered {greeting} (later {s} {said = said} r send) =
    send-IsAnswered greeting s said (Reach-IsAnswered r)
Reach-IsAnswered {greeting} (later {s} {said = said} r (answer outcome n e)) =
    answer-IsAnswered greeting outcome s said (Reach-IsAnswered r)
Reach-IsAnswered (later r new_session) = (refl, omega arith)
Reach-IsAnswered (later r clear) = Reach-IsAnswered r
Reach-IsAnswered {greeting} (later {s} {said = said} r (choose v)) =
    choose-IsAnswered greeting v s said (Reach-IsAnswered r)
