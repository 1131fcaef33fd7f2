-- ===== src/Chat.antt =====
-- frontend/src/stores/chatStore.ts. A `crypto.randomUUID()` and a `Date.now()` are arguments of the
-- operation that calls them. `messagesByTab` is a function from tab ids; `none` is a missing key.
pub mod Messages
pub mod Frame
pub mod Tests
use pair_admin.Base.{
  ℕ, ◌+◌, ◌/◌, Bool, true, false, Option, none, some, List, [], ◌∷◌, ◌++◌, Text, codes, ◌==◌,
  if◌then◌else◌, nat_eq, or_else, length, modify_first,
}

pub data Role : Type 0 where
  user assistant system : Role

pub record ChatMessage : Type 0 where
  pub id : Text
  pub role : Role
  pub content : Text
  pub is_streaming : Bool
  pub token_count : Option ℕ
  pub is_error : Option Bool

pub record ChatState : Type 0 where
  pub messages_by_tab : Text → Option (List ChatMessage)
  pub llm_request : Option ℕ

abbrev pub initial : ChatState
initial = record { messages_by_tab = λ tab. none; llm_request = none }

-- `messagesByTab[tabId] = messages`
abbrev pub update :
    (Text → Option (List ChatMessage)) → Text → List ChatMessage → Text → Option (List ChatMessage)
update m tab messages t = if tab == t then some messages else m t

-- The messages of a tab, where a missing list is created empty.
abbrev pub messages_of : ChatState → Text → List ChatMessage
messages_of s tab = or_else (s.messages_by_tab tab) []

abbrev pub set_messages : ChatState → Text → List ChatMessage → ChatState
set_messages s tab messages = record s { messages_by_tab = update s.messages_by_tab tab messages }

abbrev pub push : ChatState → Text → ChatMessage → ChatState
push s tab msg = set_messages s tab (messages_of s tab ++ msg ∷ [])

abbrev pub message : Text → Role → Text → Bool → ChatMessage
message id role content streaming = record {
  id = id;
  role = role;
  content = content;
  is_streaming = streaming;
  token_count = none;
  is_error = none;
}

-- `messages.find((m) => m.id === msgId)`
abbrev pub has_id : Text → ChatMessage → Bool
has_id id msg = msg.id == id

unfoldable pub start_llm_request : ℕ → ChatState → ChatState
start_llm_request now s = record s { llm_request = some now }

unfoldable pub end_llm_request : ChatState → ChatState
end_llm_request s = record s { llm_request = none }

unfoldable pub add_user_message : Text → Text → Text → ChatState → ChatState
add_user_message id tab text s = push s tab (message id Role.user text false)

unfoldable pub add_assistant_message : Text → Text → Text → ChatState → ChatState
add_assistant_message id tab content s = push s tab (message id Role.assistant content false)

unfoldable pub add_system_message : Text → Text → Text → ChatState → ChatState
add_system_message id tab text s = push s tab (message id Role.system text false)

unfoldable pub clear_tab : Text → ChatState → ChatState
clear_tab tab s = set_messages s tab []

unfoldable pub start_streaming_message : Text → Text → ChatState → ChatState
start_streaming_message id tab s = push s tab (message id Role.assistant [] true)

-- The cursor "▋", one code unit.
abbrev pub cursor : ℕ
cursor = 0x258B

strip_cons : ℕ → Text → Text
strip_cons c [] = if nat_eq c cursor then [] else c ∷ []
strip_cons c (d ∷ s) = c ∷ strip_cons d s

-- `content.replace(/▋$/, "")`
unfoldable pub strip_cursor : Text → Text
unfolding strip_cons
strip_cursor [] = []
strip_cursor (c ∷ s) = strip_cons c s

abbrev pub append_text : Text → ChatMessage → ChatMessage
append_text text msg = record msg { content = strip_cursor msg.content ++ text ++ cursor ∷ [] }

-- The early returns leave the state as it was; a missing list is not created here.
unfoldable pub append_chunk : Text → Text → Text → ChatState → ChatState
append_chunk tab msg_id text s = elim (s.messages_by_tab tab) [
  | none ↦ s
  | some messages ↦ set_messages s tab (modify_first (has_id msg_id) (append_text text) messages)
]

-- `Math.ceil(content.length / 4)`
abbrev pub estimate_tokens : Text → ℕ
estimate_tokens content = (length content + 3) / 4

abbrev pub finalized : Option ℕ → ChatMessage → ChatMessage
finalized count msg =
    let content = strip_cursor msg.content in
    record msg {
      content = content;
      is_streaming = false;
      token_count = some (or_else count (estimate_tokens content));
    }

unfoldable pub finalize_message : Text → Text → Option ℕ → ChatState → ChatState
finalize_message tab msg_id count s = elim (s.messages_by_tab tab) [
  | none ↦ s
  | some messages ↦ set_messages s tab (modify_first (has_id msg_id) (finalized count) messages)
]

abbrev pub interrupted : ChatMessage → ChatMessage
interrupted msg = record msg {
  content = strip_cursor msg.content ++ 10 ∷ 10 ∷ codes "(stream interrupted)";
  is_error = some true;
  is_streaming = false;
}

-- `id` is used only where no message is named.
unfoldable pub set_stream_error : Text → Text → Option Text → Text → ChatState → ChatState
set_stream_error id tab (some msg_id) text s =
    set_messages s tab (modify_first (has_id msg_id) interrupted (messages_of s tab))
set_stream_error id tab none text s =
    push s tab (record (message id Role.assistant text false) { is_error = some true })
