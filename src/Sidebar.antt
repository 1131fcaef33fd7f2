-- ===== src/Sidebar.antt =====
-- The command sidebar: frontend/src/components/sidebar/CommandSidebar.tsx with CommandCard.tsx,
-- EditCommandDialog.tsx and RenameDialog.tsx of its directory, the buttons of frontend/src/components/chat/CodeBlock.tsx, and
-- the restoring of the saved commands and the chat toggle of
-- frontend/src/components/layout/ThreeColumnLayout.tsx.
pub mod Saved
pub mod Display
pub mod Card
pub mod Footer
pub mod Edited
pub mod Tests
use pair_admin.Base.{
  ℕ, ◌+◌, Bool, true, false, not, Option, none, some, List, [], ◌∷◌, Text, codes, if◌then◌else◌,
  or_else, is_truthy, map, filter, trim, ◌==◌,
}
use pair_admin.Command.{
  Command, CommandState, NewCommand, add_command, add_pinned_command, consume_command_text,
  edit_command, edit_for_next_use, rename_command, reorder_pinned,
}
use pair_admin.QuickSelect.{Written, send_to_terminal}

unfoldable pub pinned_commands : CommandState → List Command
pinned_commands s = filter (λ c. c.pinned) s.commands

unfoldable pub unpinned_commands : CommandState → List Command
unpinned_commands s = filter (λ c. not c.pinned) s.commands

-- An entry of the argument of `SavePinnedCommands`.
pub record PinnedCommand : Type 0 where
  pub command : Text
  pub original_question : Text
  pub name : Text

abbrev pub to_save : Command → PinnedCommand
to_save c = record {
  command = c.command;
  original_question = c.original_question;
  name = or_else c.name [];
}

pub data PinSaveStatus : Type 0 where
  idle saving saved error : PinSaveStatus

unfoldable pub handle_save_pinned : CommandState → PinSaveStatus × List PinnedCommand
handle_save_pinned s = (saving, map to_save (pinned_commands s))

-- Whether the call came out well.
abbrev pub save_ended : Bool → PinSaveStatus
save_ended ok = if ok then saved else error

abbrev pub to_add : PinnedCommand → NewCommand
to_add pc = record {
  command = pc.command;
  original_question = pc.original_question;
  name = some pc.name;
}

-- The loop over `cfg.PinnedCommands`, from the i-th entry on; `ids` and `times` are what the calls of
-- `randomUUID` and `Date.now` return.
unfoldable pub restore_pinned :
    (ids : ℕ → Text) (times : ℕ → ℕ) → ℕ → List PinnedCommand → CommandState → CommandState
restore_pinned ids times i [] s = s
restore_pinned ids times i (pc ∷ pcs) s =
    restore_pinned ids times (i + 1) pcs (add_pinned_command (ids i) (times i) [] (to_add pc) s)

unfoldable pub handle_copy : Text → Text → CommandState → CommandState × Written
handle_copy active id s =
    let (s', text) = consume_command_text id s in (s', send_to_terminal active text false)

unfoldable pub handle_execute : Text → Text → CommandState → CommandState × Written
handle_execute active id s =
    let (s', text) = consume_command_text id s in (s', send_to_terminal active text true)

-- A drop on the target; `dragged` is `draggedIdRef`, which the drop clears.
unfoldable pub on_drop : Text → Option Text → CommandState → Option Text × CommandState
on_drop target none s = (none, s)
on_drop target (some dragged) s =
    (none, if is_truthy dragged then reorder_pinned dragged target s else s)

-- The text of a card, and that of its tooltip.
abbrev pub full_command_text : Command → Text
full_command_text c = or_else c.temp_override c.command

abbrev pub display_text : Command → Text
display_text c = or_else c.name (full_command_text c)

pub data Editing : Type 0 where
  permanent temporary : Editing

unfoldable pub save_edit : Option Editing → Text → Text → Option Text → CommandState → CommandState
save_edit none id value name s = s
save_edit (some permanent) id value name s =
    rename_command id (or_else name []) (edit_command id value s)
save_edit (some temporary) id value name s = edit_for_next_use id value s

unfoldable pub save_rename : Text → Text → CommandState → CommandState
save_rename id name s = rename_command id name s

-- The rename dialog of a card (RenameDialog.tsx): its text when it opens, and its answer to "Save" and to
-- a key, which is a name to save or nothing.
pub data RenameAnswer : Type 0 where
  save_name : Text → RenameAnswer
  close_dialog stay : RenameAnswer

abbrev pub initial_name : Command → Text
initial_name c = or_else c.name []

unfoldable pub rename_save : Text → RenameAnswer
rename_save name = save_name (trim name)

unfoldable pub rename_key_down : Text → Text → RenameAnswer
rename_key_down key name =
    if key == codes "Enter"
    then rename_save name
    else if key == codes "Escape"
    then close_dialog
    else stay

-- What the card does with the answer: whether the dialog stays open, and the commands.
unfoldable pub rename_answered : Text → RenameAnswer → CommandState → Bool × CommandState
rename_answered id (save_name name) s = (false, save_rename id name s)
rename_answered id close_dialog s = (false, s)
rename_answered id stay s = (true, s)

-- "Save" in the edit dialog: what is passed on, if anything.
unfoldable pub dialog_save : Text → Text → Option (Text × Option Text)
dialog_save value name =
    let trimmed = trim value in
    let trimmed_name = trim name in
    if is_truthy trimmed
    then some (trimmed, if is_truthy trimmed_name then some trimmed_name else none)
    else none

-- "Save to Commands" of a code block, with what `randomUUID` and `Date.now` return.
unfoldable pub handle_save_to_commands : Text → ℕ → Text → Text → CommandState → CommandState
handle_save_to_commands id now active code s =
    add_command id now active (record { command = code; original_question = []; name = none }) s

-- The chat pane's visibility, and the entry of the local storage.
pub record ChatVisible : Type 0 where
  pub visible : Bool
  pub stored : Option Text

abbrev is_shown : Option Text → Bool
is_shown none = true
is_shown (some t) = not (t == codes "false")

-- At the mount.
unfoldable pub load_visible : Option Text → ChatVisible
load_visible stored = record { visible = is_shown stored; stored = stored }

abbrev bool_text : Bool → Text
bool_text b = if b then codes "true" else codes "false"

unfoldable pub toggle_chat_visible : ChatVisible → ChatVisible
toggle_chat_visible v =
    let next = not v.visible in record { visible = next; stored = some (bool_text next) }
