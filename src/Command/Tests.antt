-- ===== src/Command/Tests.antt =====
-- The command store's theorems at concrete states.
use pair_admin.Base.{
  ◌≡◌, ◌≢◌, refl, true, false, none, List, [], ◌∷◌, ◌++◌, Text, codes, ◌==◌, arith,
}
use pair_admin.Command.{Command, CommandState, NewCommand, entry, reorder_pinned}
use pair_admin.Command.Reorder.{others, reorder_pinned_lem}

abbrev new : Text → NewCommand
new text = record { command = text; original_question = []; name = none }

abbrev df : Command
df = entry (codes "1") 10 (codes "t") (new (codes "df -h")) true

abbrev top : Command
top = entry (codes "2") 11 (codes "t") (new (codes "top")) false

abbrev who : Command
who = entry (codes "3") 12 (codes "t") (new (codes "who")) true

abbrev three : CommandState
three = record { commands = df ∷ top ∷ who ∷ []; add_command_dialog_open = false }

last_first : codes "3" ≢ codes "1"
last_first = λ h. ground arith

reorder_pinned_lem_example :
    let cs = (reorder_pinned (codes "3") (codes "1") three).commands in
    (pre post : List Command) × (cs ≡ pre ++ who ∷ df ∷ post)
    × (others (codes "3") cs ≡ others (codes "3") three.commands)
unfolding ◌==◌
reorder_pinned_lem_example =
    reorder_pinned_lem (codes "3") (codes "1") three who df last_first refl refl

test_reorder : (reorder_pinned (codes "3") (codes "1") three).commands ≡ who ∷ df ∷ top ∷ []
unfolding reorder_pinned ◌==◌
test_reorder = refl
