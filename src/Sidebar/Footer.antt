-- ===== src/Sidebar/Footer.antt =====
-- The foot of the sidebar and its dialog for a new command: the markup and the handlers of
-- frontend/src/components/sidebar/CommandSidebar.tsx, with ClearHistoryButton.tsx.
use pair_admin.Base.{
  ℕ, Bool, true, false, not, ◌||◌, Option, none, some, List, [], ◌∷◌, Text, codes, is_truthy, trim,
  nat_eq, length, Widget, words, button, text_field, when,
}
use pair_admin.Command.{CommandState, add_command, clear_all, set_add_command_dialog_open}
use pair_admin.Sidebar.{
  PinSaveStatus, PinnedCommand, pinned_commands, handle_save_pinned, dialog_save,
}

pub record Footer : Type 0 where
  pub pin_save_status : PinSaveStatus
  -- the texts of the dialog for a new command
  pub value : Text
  pub name : Text

pub data Action : Type 0 where
  add_clicked save_pinned_clicked remove_unpinned_clicked add_save add_close : Action
  type_value type_name : Text → Action

-- "Save" in the dialog, with what `randomUUID` and `Date.now` return.
unfoldable pub add_saved : Text → ℕ → Text → Footer → CommandState → CommandState
add_saved id now active f s = elim (dialog_save f.value f.name) [
  | none ↦ s
  | some (value, name) ↦ set_add_command_dialog_open false (
      add_command id now active (record { command = value; original_question = []; name = name }) s)
]

-- The foot, the commands, and the argument of `SavePinnedCommands` where it is called.
unfoldable pub press :
    (id : Text) (now : ℕ) (active : Text)
    → Action
    → Footer
    → CommandState
    → Footer × CommandState × Option (List PinnedCommand)
press id now active add_clicked f s =
    (record f { value = []; name = [] }, set_add_command_dialog_open true s, none)
press id now active save_pinned_clicked f s =
    let (status, to_save) = handle_save_pinned s in
    (record f { pin_save_status = status }, s, some to_save)
press id now active remove_unpinned_clicked f s = (f, clear_all s, none)
press id now active add_save f s = (f, add_saved id now active f s, none)
press id now active add_close f s = (f, set_add_command_dialog_open false s, none)
press id now active (type_value t) f s = (record f { value = t }, s, none)
press id now active (type_name t) f s = (record f { name = t }, s, none)

abbrev is_saving : PinSaveStatus → Bool
is_saving PinSaveStatus.saving = true
is_saving _ = false

abbrev save_label : PinSaveStatus → Text
save_label PinSaveStatus.saving = codes "Saving..."
save_label PinSaveStatus.saved = codes "Saved!"
save_label PinSaveStatus.error = codes "Save failed"
save_label PinSaveStatus.idle = codes "Save Pinned"

unfoldable pub add_dialog : Footer → List (Widget Action)
add_dialog f =
    words (codes "Add Command")
    ∷ text_field (codes "Name (optional)") f.name type_name
    ∷ words (
        codes
          "A custom name replaces the command text in the sidebar. Hover to see the full command.")
    ∷ text_field [] f.value type_value
    ∷ words (codes "Ctrl+Enter to save, Esc to cancel")
    ∷ button (codes "Cancel") false add_close
    ∷ button (codes "Save") (not (is_truthy (trim f.value))) add_save
    ∷ []

unfoldable pub view : Footer → CommandState → List (Widget Action)
view f s =
    button (codes "Add Command") false add_clicked
    ∷ button (save_label f.pin_save_status)
        (is_saving f.pin_save_status || nat_eq (length (pinned_commands s)) 0) save_pinned_clicked
    ∷ button (codes "Remove Unpinned") false remove_unpinned_clicked
    ∷ when s.add_command_dialog_open (add_dialog f)
