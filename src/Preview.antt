-- ===== src/Preview.antt =====
-- The view of a terminal, frontend/src/components/terminal/TerminalPreview.tsx, and the handler of
-- `terminal:update` in frontend/src/hooks/useTerminalCapture.ts. The xterm object is not modelled: what is
-- written to it, and what the view sends to the back end, are actions.
pub mod Disposed
pub mod Lines
pub mod Tests
use pair_admin.Base.{
  ℕ, Bool, true, false, not, ◌&&◌, ◌||◌, Option, none, some, List, [], ◌∷◌, ◌++◌, Text, codes, ◌==◌,
  if◌then◌else◌, is_truthy, nat_eq, starts_with, to_lower, trim_end, split, join,
}
use pair_admin.Hotkey.{KeyEvent}
use pair_admin.Terminal.{TerminalState, set_term_ref, remove_tab}

-- `disposed` is raised by the clean-up, which also ends the subscriptions, the observers and the interval.
pub record Preview : Type 0 where
  pub tab_id : Text
  pub disposed : Bool

pub data Action : Type 0 where
  write_input : (tab input : Text) → Action
  resize_terminal : (tab : Text) → (cols rows : ℕ) → Action
  get_windows_content : (tab : Text) → Action
  term_write : Text → Action
  fit recolor : Action
  clipboard_write : Text → Action
  clipboard_read : Action

-- The codes ESC [ K, CR and LF; ESC [ ? 7 l and ESC [ H; ESC [ J.
abbrev clear_line : Text
clear_line = 27 ∷ codes "[K"

abbrev pub line_end : Text
line_end = clear_line ++ 13 ∷ 10 ∷ []

abbrev frame_start : Text
frame_start = (27 ∷ codes "[?7l") ++ 27 ∷ codes "[H"

abbrev pub clear_rest : Text
clear_rest = 27 ∷ codes "[J"

-- `content.trimEnd().split("\n").join("\x1b[K\r\n")`
unfoldable pub formatted : Text → Text
formatted content = join line_end (split 10 (trim_end content))

-- What the handler of `terminal:update` writes to the terminal of the pane, if there is one that is not
-- disposed of.
unfoldable pub update_text : Text → Text
update_text content = frame_start ++ formatted content ++ clear_rest

-- What the interval of a Windows tab writes.
unfoldable pub windows_text : Text → Text
windows_text content = frame_start ++ formatted content ++ clear_line ++ clear_rest

-- The handler of `pty:closed`.
unfoldable pub pty_closed : {Term : Type 0} → Text → TerminalState Term → TerminalState Term
pty_closed tab s = remove_tab tab s

abbrev is_windows : Preview → Bool
is_windows p = starts_with p.tab_id (codes "windows:")

-- The custom key handler: whether xterm goes on to handle the event, and what is done.
unfoldable pub handle_key : Bool → KeyEvent → (selection : Text) → Bool × List Action
handle_key keydown e selection =
    if not keydown || not (e.ctrl_key || e.meta_key)
    then (true, [])
    else if e.shift_key || e.alt_key
    then (true, [])
    else if to_lower e.key == codes "c"
    then if is_truthy selection then (false, clipboard_write selection ∷ []) else (true, [])
    else if to_lower e.key == codes "v"
    then (false, clipboard_read ∷ [])
    else (true, [])

pub data Event : Type 0 where
  key : (keydown : Bool) → KeyEvent → (selection : Text) → Event
  pasted typed content : Text → Event
  output : (tab input : Text) → Event
  resized : (cols rows : ℕ) → Event
  observed : (width height : ℕ) → Event
  ticked fonts_ready themed cleaned : Event

abbrev actions_if : Bool → Action → List Action
actions_if b a = if b then a ∷ [] else []

-- The clean-up disconnects the observers, after which they report nothing; the flag stands for this too. The
-- empty text that the clean-up writes to the terminal, which only empties its queue, is left out.
unfoldable pub actions : Event → Preview → List Action
actions (key keydown e selection) p = (handle_key keydown e selection).1
actions (pasted text) p = actions_if (is_truthy text && not p.disposed) (write_input p.tab_id text)
actions (typed text) p = actions_if (not p.disposed) (write_input p.tab_id text)
actions (content text) p =
    actions_if (is_truthy text && not p.disposed) (term_write (windows_text text))
actions (output tab text) p =
    actions_if (not (is_windows p) && tab == p.tab_id && not p.disposed) (term_write text)
actions (resized cols rows) p = actions_if (not p.disposed) (resize_terminal p.tab_id cols rows)
actions (observed width height) p =
    actions_if (not p.disposed && not (nat_eq width 0 || nat_eq height 0)) fit
actions ticked p = actions_if (is_windows p && not p.disposed) (get_windows_content p.tab_id)
actions fonts_ready p = actions_if (not p.disposed) fit
actions themed p = actions_if (not p.disposed) recolor
actions cleaned p = []

unfoldable pub next : Event → Preview → Preview
next cleaned p = record p { disposed = true }
next _ p = p

-- The mount and the clean-up on the store.
unfoldable pub mounted : {Term : Type 0} → Preview → Term → TerminalState Term → TerminalState Term
mounted p term s = set_term_ref p.tab_id (some term) s

unfoldable pub unmounted : {Term : Type 0} → Preview → TerminalState Term → TerminalState Term
unmounted p s = set_term_ref p.tab_id none s

-- All that a history of events does, in order.
unfoldable pub run : List Event → Preview → List Action
run [] p = []
run (e ∷ es) p = actions e p ++ run es (next e p)
