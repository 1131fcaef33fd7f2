-- ===== src/Pane/Tests.antt =====
-- The chat pane at concrete inputs; a terminal is the list of its lines here.
use pair_admin.Base.{
  ◌≡◌, ◌≢◌, refl, Option, none, some, List, [], Text, codes, ◌==◌, arith, pos, trim, starts_with,
  parse_int,
}
use pair_admin.Chat.{add_user_message}
use pair_admin.Terminal.{TerminalState, rename_tab}
use pair_admin.Pane.{
  PaneState, Draw, Theme, send_message, terminal_context, set_context_lines, default_context_lines,
  dispatch, handle_send,
}
use pair_admin.Pane.Retry.{handle_retry, retry_elsewhere}

abbrev Screen : Type 0
Screen = List (Option Text)

abbrev lines_of : Screen → Option (List (Option Text))
lines_of screen = some screen

abbrev pane : PaneState Screen
pane = record {
  chat = pair_admin.Chat.initial;
  terminals = record pair_admin.Terminal.initial { active_tab_id = codes "a" };
  settings = pair_admin.Settings.initial;
  theme = Theme.dark;
  context_lines = default_context_lines;
  last_sent = none;
}

abbrev draw : Draw
draw = record { user_id = codes "u"; reply_id = codes "r"; now = 5 }

other_tab : codes "a" ≢ codes "b"
other_tab = λ h. ground arith

test_context :
    (handle_send lines_of draw (codes "a") (codes "/context 50 lines") pane).1
    ≡ some (set_context_lines (pos 50))
unfolding handle_send dispatch trim starts_with parse_int ◌==◌
test_context = refl

retry_elsewhere_example :
    let s' = (handle_send lines_of draw (codes "a") (codes "why?") pane).0 in
    (handle_retry lines_of draw (codes "b") s').1
    ≡ some (send_message (codes "b") (codes "why?") (terminal_context lines_of (codes "b") s'))
unfolding handle_send dispatch trim starts_with ◌==◌
retry_elsewhere_example =
    retry_elsewhere lines_of draw draw (codes "a") (codes "b") (codes "why?") [] pane refl
