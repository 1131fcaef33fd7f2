-- ===== src/Sidebar/Tests.antt =====
-- The sidebar with two pinned commands and one that is not.
use pair_admin.Base.{
  ◌≡◌, refl, true, false, none, some, ◌==◌, ◌++◌, [], ◌∷◌, Text, codes, map, trim, trim_start,
  trim_end, is_space, Option, find, is_truthy, Offered,
}
use pair_admin.Command.{Command, CommandState, initial, has_id}
use pair_admin.Sidebar.{pinned_commands, handle_save_pinned, restore_pinned, dialog_save}
use pair_admin.Sidebar.{temporary, handle_execute, display_text}
use pair_admin.Sidebar.Card.{Card, mounted, press, edit_save, view}
use pair_admin.Sidebar.Edited.{entries, press_all, shown, own_text, edits_used}
use pair_admin.Sidebar.Saved.{content, restored, restore_pinned-handle_save_pinned}

abbrev card : Text → Option Text → Command
card id name = record {
  id = id;
  command = codes "ls " ++ id;
  original_question = [];
  timestamp = 1;
  tab_id = codes "t";
  pinned = true;
  temp_override = none;
  name = name;
}

abbrev a : Command
a = card (codes "a") (some (codes "list"))

abbrev b : Command
b = record (card (codes "b") none) { pinned = false }

abbrev c : Command
c = record (card (codes "c") none) { temp_override = some (codes "ls -l") }

abbrev three : CommandState
three = record initial { commands = a ∷ b ∷ c ∷ [] }

restore_pinned-handle_save_pinned_example :
    map content
      (restore_pinned (λ i. codes "x") (λ i. 5) 0 (handle_save_pinned three).1 initial).commands
    ≡ map restored (pinned_commands three)
unfolding pinned_commands ◌==◌
restore_pinned-handle_save_pinned_example =
    restore_pinned-handle_save_pinned (λ i. codes "x") (λ i. 5) three (refl, (refl, tt))

test_blank : dialog_save (codes "  ") (codes "name") ≡ none
unfolding dialog_save trim trim_start trim_end is_space
test_blank = refl

abbrev card_of_c : Card
card_of_c = mounted c

abbrev entered : Card × CommandState
entered = press_all (codes "t") c (entries temporary (codes "ls -a") (codes "all")) card_of_c three

c-found : find (has_id c.id) three.commands ≡ some c
unfolding ◌==◌
c-found = refl

typed : is_truthy (trim (codes "ls -a")) ≡ true
unfolding trim trim_start trim_end is_space
typed = refl

edits_used_example :
    let (k2, s2, w) = press (codes "t") c edit_save entered.0 entered.1 in
    let (s3, sent) = handle_execute (codes "t") c.id s2 in
    Offered edit_save (view none c entered.0)
    × (k2.editing ≡ none)
    × ((d : Command) × (find (has_id c.id) s2.commands ≡ some d)
        × (display_text d ≡ shown temporary (trim (codes "ls -a")) (trim (codes "all")) c))
    × (sent.input ≡ trim (codes "ls -a") ++ 13 ∷ [])
    × ((handle_execute (codes "t") c.id s3).1.input
        ≡ own_text temporary (trim (codes "ls -a")) c ++ 13 ∷ [])
edits_used_example =
    edits_used none temporary (codes "t") (codes "ls -a") (codes "all") c card_of_c three c-found
      typed
