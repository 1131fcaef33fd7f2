-- ===== src/Pane.antt =====
-- The chat pane: `handleSend` of frontend/src/components/chat/ChatPane.tsx, the slash commands and the
-- dispatch to the model. A call of the back end is a request that the handler returns; its outcome is applied by a function of its own.
-- The lines of a terminal's buffer, which an xterm object holds, are a parameter.
pub mod Commands
pub mod Transcript
pub mod Outcome
pub mod Retry
pub mod Tests
use pair_admin.Base.{
  ℕ, zero, suc, ◌+◌, ◌-◌, ◌*◌, Bool, true, false, not, ◌&&◌, ◌||◌, Option, none, some, List, [],
  ◌∷◌, ◌++◌, map, Text, codes, ◌==◌, if◌then◌else◌, nat_eq, leb, or_else, is_truthy, length, drop,
  starts_with, trim, trim_end, join, ℤ, pos, negsuc, parse_int,
}
use pair_admin.Chat.{
  ChatState, ChatMessage, Role, messages_of, add_user_message, add_system_message,
  add_assistant_message, clear_tab, start_llm_request, end_llm_request, set_stream_error,
}
use pair_admin.Settings.{SettingsState, set_active_model}
use pair_admin.Terminal.{TerminalTab, TerminalState, rename_tab, get_term_ref}
use pair_admin.Context.{read_terminal_lines}

pub data Theme : Type 0 where
  dark light : Theme

-- The calls of the back end that the handler makes.
pub data Request : Type 0 where
  filter_command : Text → Request
  set_model : Text → Request
  set_context_lines : ℤ → Request
  force_refresh : Text → Request
  export_chat : Text → Text → List (Role × Text) → Request
  close_all : List Text → Request
  send_message : Text → Text → Text → Request

pub record PaneState (Term : Type 0) : Type 0 where
  pub chat : ChatState
  pub terminals : TerminalState Term
  pub settings : SettingsState
  pub theme : Theme
  pub context_lines : ℤ
  pub last_sent : Option (Text × Text)

abbrev pub default_context_lines : ℤ
default_context_lines = pos 200

abbrev help_lines : List Text
help_lines =
    codes "/clear - Clear chat history for current tab"
    ∷ codes "/model <provider:model> - Switch LLM provider and model (e.g., /model openai:gpt-4)"
    ∷ codes "/context <lines> - Set terminal context window size"
    ∷ codes "/refresh - Force re-capture terminal content"
    ∷ codes "/filter add|list|remove - Manage sensitive data filter patterns"
    ∷ codes "/export json|txt - Export current session chat history"
    ∷ codes "/rename <label> - Rename current terminal tab"
    ∷ codes "/theme dark|light - Switch color scheme"
    ∷ codes "/exit - Close all terminal sessions and quit the application"
    ∷ codes "/help - Show this help message"
    ∷ []

-- The ids of the two messages that a call may create, and the time.
pub record Draw : Type 0 where
  pub user_id : Text
  pub reply_id : Text
  pub now : ℕ

abbrev theme_named : Text → Option Theme
theme_named t =
    if t == codes "dark"
    then some Theme.dark
    else if t == codes "light"
    then some Theme.light
    else none

abbrev exported : ChatMessage → Role × Text
exported m = (m.role, m.content)

-- `format || "json"`
abbrev format_or_json : Text → Text
format_or_json format = if is_truthy format then format else codes "json"

module _ {Term : Type 0} where
  abbrev pub reply : Draw → Text → Text → PaneState Term → PaneState Term
  reply d tab text s = record s { chat = add_system_message d.reply_id tab text s.chat }

  abbrev pub theme_command : Draw → Text → Text → PaneState Term → PaneState Term
  theme_command d tab t s = elim (theme_named t) [
    | none ↦ reply d tab (codes "Invalid theme: \"" ++ t ++ codes "\". Use: /theme dark|light") s
    | some theme ↦ reply d tab (codes "Theme set to " ++ t) (record s { theme = theme })
  ]

  abbrev pub context_command :
      Draw → Text → Option ℤ → PaneState Term → PaneState Term × Option Request
  context_command d tab none s = (reply d tab (codes "Usage: /context <number>") s, none)
  context_command d tab (some lines) s = (s, some (set_context_lines lines))

  abbrev pub export_command : Draw → Text → Text → PaneState Term → PaneState Term × Option Request
  export_command d tab format s =
      if not (format == codes "json") && not (format == codes "txt")
      then (reply d tab (codes "Usage: /export json|txt") s, none)
      else (s, some (export_chat tab format (map exported (messages_of s.chat tab))))

  abbrev pub rename_command : Draw → Text → Text → PaneState Term → PaneState Term
  rename_command d tab label s =
      if not (is_truthy label)
      then reply d tab (codes "Usage: /rename <label>") s
      else reply d tab (codes "Tab renamed to " ++ label)
          (record s { terminals = rename_tab tab label s.terminals })

  module _ (lines_of : Term → Option (List (Option Text))) where
    -- The terminal's text, as much of it as `/context` says.
    abbrev pub terminal_context : Text → PaneState Term → Text
    terminal_context tab s = elim (get_term_ref tab s.terminals) [
      | none ↦ []
      | some term ↦ read_terminal_lines (lines_of term) (some s.context_lines)
    ]

    abbrev pub send_to_llm : Draw → Text → Text → PaneState Term → PaneState Term × Option Request
    send_to_llm d tab text s =
        let context = terminal_context tab s in
        (
          record s { last_sent = some (text, context); chat = start_llm_request d.now s.chat },
          some (send_message tab text context),
        )

    -- The handler behind `addUserMessage` and `trim`.
    unfoldable pub dispatch :
        Draw → Text → Text → Text → PaneState Term → PaneState Term × Option Request
    dispatch d tab text trimmed s =
        if trimmed == codes "/clear"
        then (record s { chat = clear_tab tab s.chat }, none)
        else if starts_with trimmed (codes "/theme ")
        then (theme_command d tab (trim (drop 7 trimmed)) s, none)
        else if trimmed == codes "/help"
        then (reply d tab (join (codes "\n") help_lines) s, none)
        else if starts_with trimmed (codes "/filter")
        then (s, some (filter_command trimmed))
        else if starts_with trimmed (codes "/model ")
        then (s, some (set_model (trim (drop 7 trimmed))))
        else if starts_with trimmed (codes "/context ")
        then context_command d tab (parse_int (trim (drop 9 trimmed))) s
        else if trimmed == codes "/refresh"
        then (s, some (force_refresh tab))
        else if starts_with trimmed (codes "/export")
        then export_command d tab (format_or_json (trim (drop 7 trimmed))) s
        else if starts_with trimmed (codes "/rename ")
        then (rename_command d tab (trim (drop 8 trimmed)) s, none)
        else if trimmed == codes "/exit"
        then (s, some (close_all (map (λ (t : TerminalTab). t.id) s.terminals.tabs)))
        else send_to_llm d tab text s

    unfoldable pub handle_send :
        Draw → Text → Text → PaneState Term → PaneState Term × Option Request
    handle_send d tab text s =
        dispatch d tab text (trim text)
          (record s { chat = add_user_message d.user_id tab text s.chat })
