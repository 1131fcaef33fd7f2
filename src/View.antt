-- ===== src/View.antt =====
-- The parts of the chat that the user sees: frontend/src/components/chat/ChatInput.tsx, the scrolling of
-- frontend/src/components/chat/ChatMessageList.tsx, the figures of
-- frontend/src/components/layout/StatusBar.tsx, and the actions of the hotkeys in frontend/src/hooks.
pub mod Scroll
pub mod Tokens
pub mod Tests
use pair_admin.Base.{
  ℕ, ◌-◌, Bool, true, false, not, ◌&&◌, ◌||◌, Option, none, some, List, [], ◌∷◌, Text, codes,
  if◌then◌else◌, leb, ltb, is_truthy, trim, show, ◌++◌, or_else,
}
use pair_admin.Chat.{ChatMessage, ChatState, messages_of}
use pair_admin.Settings.{
  ConnectionStatus, checking, connected, disconnected, disabled, is_disabled, SettingsState,
}
use pair_admin.Command.{CommandState, add_command, set_add_command_dialog_open}
use pair_admin.Terminal.{TerminalState, set_copy_mode_open, set_new_terminal_dialog_open}

-- `handleSend` of the input: its new value, and what it passes on.
unfoldable pub chat_send : ConnectionStatus → Text → Text × Option Text
chat_send status value =
    let trimmed = trim value in
    if not (is_truthy trimmed) || is_disabled status then (value, none) else ([], some trimmed)

unfoldable pub chat_key_down :
    (is_enter shift : Bool) → ConnectionStatus → Text → Text × Option Text
chat_key_down is_enter shift status value =
    if is_enter && not shift then chat_send status value else (value, none)

pub record ScrollState : Type 0 where
  pub is_pinned : Bool
  pub prev_msg_count : ℕ
  pub ignore_scroll : Bool

abbrev pub scroll_at_mount : ℕ → ScrollState
scroll_at_mount count = record { is_pinned = true; prev_msg_count = count; ignore_scroll = false }

-- The three measures of the container, in whole pixels.
unfoldable pub handle_scroll : (height top client : ℕ) → ScrollState → ScrollState
handle_scroll height top client s =
    if s.ignore_scroll then s else record s { is_pinned = leb (height - top - client) 50 }

unfoldable pub messages_changed : ℕ → ScrollState → ScrollState
messages_changed count s = record s {
  is_pinned = if ltb s.prev_msg_count count then true else s.is_pinned;
  prev_msg_count = count;
}

-- The content has another height: the state, and whether the view scrolls to the bottom.
unfoldable pub content_resized : ScrollState → ScrollState × Bool
content_resized s = if s.is_pinned then (record s { ignore_scroll = true }, true) else (s, false)

-- The two frames after a scroll have passed.
unfoldable pub frames_passed : ScrollState → ScrollState
frames_passed s = record s { ignore_scroll = false }

-- The last token count among the messages.
unfoldable pub last_count : List ChatMessage → Option ℕ
last_count [] = none
last_count (m ∷ ms) = elim (last_count ms) [ none ↦ m.token_count | some n ↦ some n ]

unfoldable pub last_token_count : Text → ChatState → Option ℕ
last_token_count tab s = last_count (messages_of s tab)

abbrev pub token_label : Option ℕ → Text
token_label none = codes "Tokens: —"
token_label (some n) = codes "Tokens: " ++ show n

abbrev pub connection_label : ConnectionStatus → Text
connection_label checking = codes "Checking…"
connection_label connected = codes "Connected"
connection_label disconnected = codes "Disconnected"
connection_label disabled = codes "Disabled"

abbrev pub model_label : SettingsState → Text
model_label s = if is_truthy s.active_model then s.active_model else codes "No model"

-- The hotkey that adds a command has read the clipboard.
unfoldable pub clipboard_read : Text → ℕ → Text → Text → CommandState → CommandState
clipboard_read id now active text s =
    let trimmed = trim text in
    if is_truthy trimmed
    then add_command id now active
        (record { command = trimmed; original_question = []; name = none }) s
    else s

unfoldable pub on_copy_mode_hotkey : {Term : Type 0} → TerminalState Term → TerminalState Term
on_copy_mode_hotkey s = set_copy_mode_open true s

unfoldable pub on_new_terminal_hotkey : {Term : Type 0} → TerminalState Term → TerminalState Term
on_new_terminal_hotkey s = set_new_terminal_dialog_open true s

unfoldable pub on_add_command_hotkey : CommandState → CommandState
on_add_command_hotkey s = set_add_command_dialog_open true s
