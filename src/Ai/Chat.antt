-- ===== src/Ai/Chat.antt =====
-- The chat with the assistant, frontend/src/pages/ai/AIChat.tsx. `awaited` counts the requests
-- without an answer; the answers come in any order, and none says which request it belongs to.
pub mod Laws
use mrboard.Shared.{
  ℕ, ◌+◌, ◌-◌, ◌++◌, Bool, true, false, List, [], ◌∷◌, if◌then◌else◌, Text, lit, is_truthy, trim,
}
use mrboard.Session.Api.{Outcome, resolved, thrown}
use mrboard.Ai.Stream.{or_text}

pub data Role : Type 0 where
  user bot : Role

pub record Message : Type 0 where
  pub role : Role
  pub content : Text

-- The content of the greeting is text to show, given as a parameter of the page.
abbrev welcome : Text → Message
welcome content = record { role = bot; content = content }

pub record Chat : Type 0 where
  pub messages : List Message
  pub input : Text
  pub model : Text
  pub sending : Bool
  pub toasts : List Text
  pub awaited : ℕ

pub open_chat : Text → Chat
open_chat greeting = record {
  messages = welcome greeting ∷ [];
  input = [];
  model = lit "gpt-3.5-turbo";
  sending = false;
  toasts = [];
  awaited = 0;
}

-- `sendMessage`, up to the request. The button is disabled while it waits, Ctrl+Enter is not.
pub send_message : Chat → Chat
send_message s =
    let text = trim s.input in
    if is_truthy text
    then record s {
      messages = s.messages ++ record { role = user; content = text } ∷ [];
      input = [];
      sending = true;
      awaited = s.awaited + 1;
    }
    else record s { toasts = s.toasts ++ lit "请输入消息内容" ∷ [] }

abbrev reply_of : Outcome Text → Text
reply_of (resolved reply) = or_text reply (lit "无响应")
reply_of (thrown message) = lit "请求失败，请稍后重试。"

-- The answer to a request, with the reply or '', or its failure.
pub reply_arrived : Outcome Text → Chat → Chat
reply_arrived outcome s = record s {
  messages = s.messages ++ record { role = bot; content = reply_of outcome } ∷ [];
  sending = false;
  awaited = s.awaited - 1;
}

pub handle_new_session : Text → Chat → Chat
handle_new_session greeting s = record s {
  messages = welcome greeting ∷ [];
  toasts = s.toasts ++ lit "已创建新会话" ∷ [];
}

pub handle_clear : Chat → Chat
handle_clear s = record s { input = [] }

-- `onValueChange={(v) => v && setModel(v)}`, where '' stands for null.
pub choose_model : Text → Chat → Chat
choose_model v s = if is_truthy v then record s { model = v } else s
