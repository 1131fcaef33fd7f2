-- ===== src/Sidebar/Card.antt =====
-- A card of the sidebar with its menu and its two dialogs: the markup and the handlers of
-- frontend/src/components/sidebar/CommandCard.tsx, EditCommandDialog.tsx and RenameDialog.tsx. A dialog
-- takes its texts from the command when it opens.
use pair_admin.Base.{
  Bool, true, false, not, Option, none, some, List, [], ◌∷◌, ◌++◌, Text, codes, if◌then◌else◌,
  or_else, is_truthy, trim, ◌==◌, ◌&&◌, Widget, words, button, text_field, when,
}
use pair_admin.Command.{Command, CommandState, toggle_pin, remove_command}
use pair_admin.QuickSelect.{Written}
use pair_admin.Sidebar.{
  Editing, permanent, temporary, full_command_text, display_text, handle_copy, handle_execute,
  save_edit, dialog_save, initial_name, rename_answered, rename_save, close_dialog,
}

pub record Card : Type 0 where
  pub editing : Option Editing
  pub renaming : Bool
  -- the texts of the edit dialog, and that of the rename dialog
  pub value : Text
  pub name : Text
  pub new_name : Text

abbrev pub mounted : Command → Card
mounted c = record {
  editing = none;
  renaming = false;
  value = full_command_text c;
  name = initial_name c;
  new_name = initial_name c;
}

pub data Action : Type 0 where
  copy_clicked execute_clicked pin_clicked remove_clicked rename_clicked : Action
  start_edit : Editing → Action
  type_value type_name type_new_name : Text → Action
  edit_save edit_close rename_save_clicked rename_close : Action

-- The effects of the dialogs when they open, or when the command changes under an open one.
unfoldable pub seed : Command → Card → Card
seed c k = record k { value = full_command_text c; name = initial_name c }

unfoldable pub seed_rename : Command → Card → Card
seed_rename c k = record k { new_name = initial_name c }

-- "Save" in the edit dialog: the dialog stays open if there is no text.
unfoldable pub save_edited : Command → Card → CommandState → Card × CommandState
save_edited c k s = elim (dialog_save k.value k.name) [
  | none ↦ (k, s)
  | some (value, name) ↦ (record k { editing = none }, save_edit k.editing c.id value name s)
]

-- The card, the commands, and what is written to the active terminal.
unfoldable pub press :
    Text → Command → Action → Card → CommandState → Card × CommandState × Option Written
press active c copy_clicked k s = let (s', w) = handle_copy active c.id s in (k, s', some w)
press active c execute_clicked k s = let (s', w) = handle_execute active c.id s in (k, s', some w)
press active c pin_clicked k s = (k, toggle_pin c.id s, none)
press active c remove_clicked k s = (k, remove_command c.id s, none)
press active c rename_clicked k s = (record (seed_rename c k) { renaming = true }, s, none)
press active c (start_edit mode) k s = (record (seed c k) { editing = some mode }, s, none)
press active c (type_value t) k s = (record k { value = t }, s, none)
press active c (type_name t) k s = (record k { name = t }, s, none)
press active c (type_new_name t) k s = (record k { new_name = t }, s, none)
press active c edit_save k s = let (k', s') = save_edited c k s in (k', s', none)
press active c edit_close k s = (record k { editing = none }, s, none)
press active c rename_save_clicked k s =
    let (opened, s') = rename_answered c.id (rename_save k.new_name) s in
    (record k { renaming = opened }, s', none)
press active c rename_close k s =
    let (opened, s') = rename_answered c.id close_dialog s in
    (record k { renaming = opened }, s', none)

-- A key in the text of the edit dialog; `submits` is that Ctrl or Meta is held.
unfoldable pub edit_key_down : (key : Text) (submits : Bool) → Option Action
edit_key_down key submits =
    if key == codes "Enter" && submits
    then some edit_save
    else if key == codes "Escape"
    then some edit_close
    else none

abbrev is_permanent : Editing → Bool
is_permanent permanent = true
is_permanent temporary = false

unfoldable pub edit_dialog : Editing → Card → List (Widget Action)
edit_dialog mode k =
    words (if is_permanent mode then codes "Edit Command" else codes "Edit/Append for Next Use")
      ∷ when (is_permanent mode) (
          text_field (codes "Name (optional)") k.name type_name
          ∷ words (
              codes
                "A custom name replaces the command text in the sidebar. Hover to see the full command.")
          ∷ [])
    ++ (text_field [] k.value type_value
        ∷ words (
            if is_permanent mode
            then codes "Ctrl+Enter to save, Esc to cancel"
            else codes "Applies once on next use — Ctrl+Enter to save, Esc to cancel")
        ∷ button (codes "Cancel") false edit_close
        ∷ button (codes "Save") (not (is_truthy (trim k.value))) edit_save
        ∷ [])

unfoldable pub rename_dialog : Card → List (Widget Action)
rename_dialog k =
    words (codes "Rename Command")
    ∷ text_field (codes "Name") k.new_name type_new_name
    ∷ words (codes "Leave empty to clear the custom name. Press Enter to save, Esc to cancel.")
    ∷ button (codes "Cancel") false rename_close
    ∷ button (codes "Save") false rename_save_clicked
    ∷ []

-- The tooltip.
unfoldable pub tooltip : Command → List (Widget Action)
tooltip c =
    when (is_truthy (or_else c.name [])) (words (or_else c.name []) ∷ [])
    ++ (words (full_command_text c)
        ∷ when (is_truthy c.original_question)
            (words (codes "Generated from:") ∷ words c.original_question ∷ []))

unfoldable pub menu : Command → List (Widget Action)
menu c =
    button (if c.pinned then codes "Unpin" else codes "Pin") false pin_clicked
    ∷ button (codes "Edit") false (start_edit permanent)
    ∷ button (codes "Edit/Append for next use") false (start_edit temporary)
    ∷ button (codes "Rename") false rename_clicked
    ∷ button (codes "Remove") false remove_clicked
    ∷ []

abbrev edit_dialog_of : Option Editing → Card → List (Widget Action)
edit_dialog_of none k = []
edit_dialog_of (some mode) k = edit_dialog mode k

-- `fkey` is the label of the quick selection, if one is shown.
unfoldable pub view : (fkey : Option Text) → Command → Card → List (Widget Action)
view fkey c k =
    edit_dialog_of k.editing k
    ++ (when k.renaming (rename_dialog k)
        ++ (words (display_text c)
              ∷ when (is_truthy (or_else fkey [])) (words (or_else fkey []) ∷ [])
            ++ (button (codes "Copy to Terminal") false copy_clicked
                  ∷ button (codes "Execute in Terminal") false execute_clicked
                  ∷ button (codes "Edit Command") false (start_edit permanent)
                  ∷ tooltip c
                ++ menu c)))
