-- ===== src/CopyMode.antt =====
-- Copy Mode: frontend/src/components/terminal/CopyModeDialog.tsx, the mirror of the active terminal with
-- its two views. `FilterText` of the back end is awaited: a call takes the text, and its answer is an
-- event that names the request. The terminal store is an argument of the handlers that read it; the lines
-- of a terminal's buffer, which an xterm object holds, are a parameter.
pub mod Events
pub mod Latest
pub mod Sent
pub mod Shown
pub mod Tests
use pair_admin.Base.{
  ℕ, zero, suc, ◌+◌, Bool, true, false, not, ◌&&◌, Option, none, some, List, [], ◌∷◌, Text, codes,
  if◌then◌else◌, nat_eq, or_else, is_some, is_truthy, trim, ℤ, pos,
}
use pair_admin.Scanner.{Rejection}
use pair_admin.Terminal.{TerminalState, get_term_ref}
use pair_admin.Context.{read_terminal_lines}

pub data CopyModeView : Type 0 where
  complete filtered : CopyModeView

-- What the call of `FilterText` comes to.
pub data FilterAnswer : Type 0 where
  filtered_to : Text → FilterAnswer
  rejected : Rejection → FilterAnswer

pub record CopyModeState : Type 0 where
  pub opened : Bool
  pub snapshot : Text
  pub filtered_text : Option Text
  pub filtering : Bool
  pub filter_error : Option Text
  pub view : CopyModeView
  pub copied : Bool
  -- whether the timer that takes the label back runs
  pub copied_timer : Bool
  pub context_lines : ℤ
  pub filter_request : ℕ
  -- the numbers of the requests whose answer is awaited
  pub awaited : List ℕ

abbrev pub default_context_lines : ℤ
default_context_lines = pos 200

abbrev pub initial : CopyModeState
initial = record {
  opened = false;
  snapshot = [];
  filtered_text = none;
  filtering = false;
  filter_error = none;
  view = complete;
  copied = false;
  copied_timer = false;
  context_lines = default_context_lines;
  filter_request = 0;
  awaited = [];
}

-- `if (m.trim()) return m.trim()`, else the fixed text
abbrev trimmed_or_fallback : Text → Text
trimmed_or_fallback m = let t = trim m in if is_truthy t then t else codes "Filtering failed"

unfoldable pub filter_error_message : Rejection → Text
filter_error_message (Rejection.text m) = trimmed_or_fallback m
filter_error_message (Rejection.error_object m) = trimmed_or_fallback m
filter_error_message (Rejection.other m) = codes "Filtering failed"

-- The lines that the settings hold, if they come and are not zero.
abbrev non_zero : ℤ → ℤ → ℤ
non_zero (pos zero) before = before
non_zero lines before = lines

unfoldable pub settings_loaded : Option ℤ → CopyModeState → CopyModeState
settings_loaded none s = s
settings_loaded (some lines) s = record s { context_lines = non_zero lines s.context_lines }

abbrev pub is_filtered : CopyModeView → Bool
is_filtered complete = false
is_filtered filtered = true

-- The effect that runs when the dialog closes.
unfoldable pub on_close : CopyModeState → CopyModeState
on_close s = record s {
  opened = false;
  snapshot = [];
  filtered_text = none;
  filter_error = none;
  copied = false;
}

-- The rest of `runFilter`, once its call has come to an answer.
unfoldable pub filter_answered : ℕ → FilterAnswer → CopyModeState → CopyModeState
filter_answered request (filtered_to text) s =
    if not (nat_eq s.filter_request request)
    then s
    else record s { filtered_text = some text; filtering = false }
filter_answered request (rejected err) s =
    if not (nat_eq s.filter_request request) then s else record s {
      filtered_text = none;
      filter_error = some (filter_error_message err);
      filtering = false;
    }

abbrev active_text : CopyModeState → Text
active_text s = if is_filtered s.view then or_else s.filtered_text [] else s.snapshot

abbrev pub copy_disabled : CopyModeState → Bool
copy_disabled s = is_filtered s.view && not (is_some s.filtered_text)

-- The text that goes to the clipboard.
unfoldable pub handle_copy_all : CopyModeState → Option Text
handle_copy_all s = if copy_disabled s then none else some (active_text s)

-- Once the clipboard has taken it.
unfoldable pub clipboard_written : CopyModeState → CopyModeState
clipboard_written s = record s { copied = true; copied_timer = true }

unfoldable pub copied_timeout : CopyModeState → CopyModeState
copied_timeout s = if s.copied_timer then record s { copied = false; copied_timer = false } else s

module _ {Term : Type 0} (lines_of : Term → Option (List (Option Text))) where
  abbrev pub lines_of_ref : Option Term → Option (List (Option Text))
  lines_of_ref none = none
  lines_of_ref (some term) = lines_of term

  unfoldable pub take_snapshot : TerminalState Term → Text
  take_snapshot ts = read_terminal_lines (lines_of_ref (get_term_ref ts.active_tab_id ts)) none

  unfoldable pub take_filtered_source : ℤ → TerminalState Term → Text
  take_filtered_source context_lines ts =
      read_terminal_lines (lines_of_ref (get_term_ref ts.active_tab_id ts)) (some context_lines)

  -- The effect that runs when the dialog opens.
  unfoldable pub on_open : TerminalState Term → CopyModeState → CopyModeState
  on_open ts s = record s {
    opened = true;
    snapshot = take_snapshot ts;
    view = complete;
    filtered_text = none;
    filtering = false;
    filter_error = none;
    copied = false;
  }

  -- `runFilter` up to its call, with the text that it passes.
  unfoldable pub run_filter : TerminalState Term → CopyModeState → CopyModeState × Option Text
  run_filter ts s =
      let request = s.filter_request + 1 in
      (
        record s {
          filter_request = request;
          filtering = true;
          filter_error = none;
          awaited = request ∷ s.awaited;
        },
        some (take_filtered_source s.context_lines ts),
      )

  unfoldable pub handle_view_change :
      CopyModeView → TerminalState Term → CopyModeState → CopyModeState × Option Text
  handle_view_change next ts s =
      let s' = record s { view = next; copied = false } in
      if is_filtered next && not (is_some s.filtered_text) && not s.filtering
      then run_filter ts s'
      else (s', none)

  unfoldable pub handle_refresh : TerminalState Term → CopyModeState → CopyModeState × Option Text
  handle_refresh ts s =
      let s' = record s { copied = false } in
      if is_filtered s.view
      then run_filter ts s'
      else (record s' { snapshot = take_snapshot ts }, none)
