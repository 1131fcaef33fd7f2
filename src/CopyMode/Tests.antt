-- ===== src/CopyMode/Tests.antt =====
-- Copy Mode at a terminal whose buffer is one line.
use pair_admin.Base.{
  not, ◌≡◌, refl, true, false, ◌&&◌, ◌||◌, none, some, Option, List, [], ◌∷◌, Text, codes, is_some,
  pos, trim_end, is_space, trim, areas,
}
use pair_admin.Scanner.{Rejection}
use pair_admin.Terminal.{TerminalState}
use pair_admin.Pane.{PaneState, Draw, send_message, send_to_llm, Theme}
use pair_admin.CopyMode.{
  CopyModeState, initial, complete, filtered, filtered_to, rejected, is_filtered,
  filter_error_message, on_open, handle_view_change, handle_refresh, run_filter, filter_answered,
  handle_copy_all,
}
use pair_admin.CopyMode.Events.{Event, opens, written, shows, answers, on_answer, on_event, run}
use pair_admin.CopyMode.Latest.{filtering_ends, IsAnswered, newest_wins}
use pair_admin.CopyMode.Sent.{refresh-send_to_llm}
-- A terminal is its text here.
use pair_admin.CopyMode.Shown.{view, copies_shown}

abbrev lines_of : Text → Option (List (Option Text))
lines_of text = some (some text ∷ [])

abbrev showing : Text → TerminalState Text
showing text = record pair_admin.Terminal.initial {
  active_tab_id = codes "a";
  term_refs = λ id. some text;
}

abbrev history : List (Event Text)
history =
    opens (showing (codes "ls"))
    ∷ shows filtered (showing (codes "ls"))
    ∷ answers 1 (rejected (Rejection.text (codes "no filter")))
    ∷ []

filtering_ends_example :
    let s = run lines_of history initial in
    (s.filtering ≡ false)
    × ((not (s.opened && is_filtered s.view) || is_some s.filtered_text || is_some s.filter_error)
        ≡ true)
unfolding run on_event on_open handle_view_change run_filter filter_answered
filtering_ends_example = filtering_ends lines_of history refl

abbrev asked : CopyModeState
asked = record initial { opened = true; view = filtered; filter_request = 1; awaited = 1 ∷ [] }

newest_wins_example : IsAnswered 2 (codes "new") (
    run lines_of (written ∷ answers 1 (filtered_to (codes "old")) ∷ []) (
      on_answer 2 (filtered_to (codes "new")) (
        run lines_of
          (shows complete (showing (codes "x")) ∷ [])
          (run_filter lines_of (showing (codes "x")) asked).0)))
newest_wins_example =
    newest_wins lines_of (showing (codes "x")) asked (codes "new")
      (shows complete (showing (codes "x")) ∷ [])
      (written ∷ answers 1 (filtered_to (codes "old")) ∷ []) (refl, tt) (refl, (refl, tt))

abbrev pane : PaneState Text
pane = record {
  chat = pair_admin.Chat.initial;
  terminals = showing (codes "ls");
  settings = pair_admin.Settings.initial;
  theme = Theme.dark;
  context_lines = pos 200;
  last_sent = none;
}

abbrev draw : Draw
draw = record { user_id = codes "u"; reply_id = codes "r"; now = 7 }

refresh-send_to_llm_example :
    (source : Text) × ((handle_refresh lines_of pane.terminals asked).1 ≡ some source)
    × ((send_to_llm lines_of draw pane.terminals.active_tab_id (codes "why?") pane).1
        ≡ some (send_message pane.terminals.active_tab_id (codes "why?") source))
refresh-send_to_llm_example = refresh-send_to_llm lines_of pane asked draw (codes "why?") refl refl

test_error : filter_error_message (Rejection.text (codes "  ")) ≡ codes "Filtering failed"
unfolding filter_error_message trim_end is_space trim
test_error = refl

test_copy_nothing : handle_copy_all asked ≡ none
unfolding handle_copy_all
test_copy_nothing = refl

abbrev answered : CopyModeState
answered = record initial { opened = true; view = filtered; filtered_text = some (codes "ls") }

copies_shown_example : areas (view answered) ≡ codes "ls" ∷ []
unfolding handle_copy_all
copies_shown_example = copies_shown answered (codes "ls") refl refl refl
