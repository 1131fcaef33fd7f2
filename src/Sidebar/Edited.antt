-- ===== src/Sidebar/Edited.antt =====
-- A command that is edited in the dialog of its card: what it then shows, and what is sent.
use mathlib.Core.Option
use pair_admin.Base.{
  ◌≡◌, refl, true, Option, none, some, List, [], ◌∷◌, ◌++◌, Text, arith, find, is_truthy,
  if◌then◌else◌, or_else, trim, find-modify_first, ap, ◌∙◌, Offered, Offered-left, inl,
  Option-cases, modify_first, inr,
}
use pair_admin.Command.{
  Command, CommandState, has_id, edit_command, edit_for_next_use, rename_command, name_of,
  consume_command_text, without_override,
}
use pair_admin.Command.Once.{consume-found}
use pair_admin.Sidebar.Display.{handle_execute-full_command_text}
use pair_admin.QuickSelect.{Written}
use pair_admin.Sidebar.{
  Editing, permanent, temporary, handle_execute, display_text, full_command_text, save_edit,
  dialog_save,
}
use pair_admin.Sidebar.Card.{
  Card, Action, press, start_edit, type_value, type_name, edit_save, save_edited, seed, view,
  edit_dialog,
}

-- What is done in the dialog before "Save"; the field of the name is there in one mode only.
abbrev pub entries : Editing → Text → Text → List Action
entries permanent value name = start_edit permanent ∷ type_value value ∷ type_name name ∷ []
entries temporary value name = start_edit temporary ∷ type_value value ∷ []

abbrev pub press_all : Text → Command → List Action → Card → CommandState → Card × CommandState
press_all active c [] k s = (k, s)
press_all active c (a ∷ rest) k s =
    let (k', s', w) = press active c a k s in press_all active c rest k' s'

-- The command as it stands after "Save".
abbrev pub edited : Editing → Text → Text → Command → Command
edited permanent value name c = record c {
  command = value;
  temp_override = none;
  name = name_of (some name);
}
edited temporary value name c = record c { temp_override = some value }

abbrev some_or_none : Text → Option Text
some_or_none name = if is_truthy name then some name else none

entered :
    (mode : Editing) (active value name : Text) (c : Command) (k : Card) (s : CommandState)
    → let (k', s') = press_all active c (entries mode value name) k s in
      (s' ≡ s) × (k'.editing ≡ some mode) × (k'.value ≡ value)
unfolding press seed
entered permanent active value name c k s = (refl, refl, refl)
entered temporary active value name c k s = (refl, refl, refl)

find-consumed :
    (id : Text) (s : CommandState) (c : Command)
    → find (has_id id) s.commands ≡ some c
    → find (has_id id) (consume_command_text id s).0.commands ≡ some (without_override c)
find-consumed id s c h = elim (Option-cases c.temp_override) [
  | inl plain ↦
      rw (consume-found id s c h, plain) (h ∙ ap (λ o. some (record c { temp_override = o })) plain)
  | inr (t, e) ↦ rw (
    consume-found id s c h,
    e,
    find-modify_first (has_id id) without_override s.commands (λ x. refl),
    h,
  )
]

name-kept : (name : Text) → name_of (some (or_else (some_or_none name) [])) ≡ name_of (some name)
name-kept [] = refl
name-kept (x ∷ xs) = refl

find-saved :
    (mode : Editing) (id value name : Text) (s : CommandState) (c : Command)
    → find (has_id id) s.commands ≡ some c
    → find (has_id id) (save_edit (some mode) id value (some_or_none name) s).commands
      ≡ some (edited mode value name c)
unfolding save_edit edit_command edit_for_next_use rename_command
find-saved permanent id value name s c h =
    let f : Command → Command = λ x. record x { command = value; temp_override = none } in
    let g : Command → Command = λ x. record x { name = name_of (some name) } in
    rw (
      name-kept name,
      find-modify_first (has_id id) g (modify_first (has_id id) f s.commands) (λ x. refl),
      find-modify_first (has_id id) f s.commands (λ x. refl),
      h,
    )
find-saved temporary id value name s c h =
    find-modify_first (has_id id) (λ x. record x { temp_override = some value }) s.commands
      (λ x. refl)
    ∙ ap (Option.map (λ (x : Command). record x { temp_override = some value })) h

-- A use of a command sends its text and the line end; the use after it sends the command's own text.
uses :
    (active id : Text) (s : CommandState) (d : Command)
    → find (has_id id) s.commands ≡ some d
    → let (s', w) = handle_execute active id s in
      (w.input ≡ full_command_text d ++ 13 ∷ [])
      × ((handle_execute active id s').1.input ≡ d.command ++ 13 ∷ [])
unfolding handle_execute
uses active id s d h =
    let sent = λ (t : CommandState) (c : Command) (e : find (has_id id) t.commands ≡ some c).
      ap (λ (w : Written). w.input) (handle_execute-full_command_text active id t c e).0 in
    (sent s d h, sent (consume_command_text id s).0 (without_override d) (find-consumed id s d h))

abbrev pub own_text : Editing → Text → Command → Text
own_text permanent value c = value
own_text temporary value c = c.command

-- The text of a card after an edit.
abbrev pub shown : Editing → Text → Text → Command → Text
shown permanent value name c = if is_truthy name then name else value
shown temporary value name c = or_else c.name value

shown-edited :
    (mode : Editing) (value name : Text) (c : Command)
    → display_text (edited mode value name c) ≡ shown mode value name c
shown-edited permanent value [] c = refl
shown-edited permanent value (x ∷ xs) c = refl
shown-edited temporary value name c = refl

full-edited :
    (mode : Editing) (value name : Text) (c : Command)
    → full_command_text (edited mode value name c) ≡ value
full-edited permanent value name c = refl
full-edited temporary value name c = refl

own-edited :
    (mode : Editing) (value name : Text) (c : Command)
    → (edited mode value name c).command ≡ own_text mode value c
own-edited permanent value name c = refl
own-edited temporary value name c = refl

saved :
    (mode : Editing) (active : Text) (c : Command) (k : Card) (s : CommandState)
    → is_truthy (trim k.value) ≡ true
    → k.editing ≡ some mode
    → let (k1, s1, w) = press active c edit_save k s in
      (k1.editing ≡ none)
      × (s1 ≡ save_edit (some mode) c.id (trim k.value) (some_or_none (trim k.name)) s)
unfolding press save_edited dialog_save
saved mode active c k s t e = rw (press, save_edited, dialog_save, t, e) (refl, refl)

save-Offered :
    (fkey : Option Text) (mode : Editing) (c : Command) (k : Card)
    → k.editing ≡ some mode
    → is_truthy (trim k.value) ≡ true
    → Offered edit_save (view fkey c k)
unfolding view edit_dialog
save-Offered fkey permanent c k e t =
    rw e (Offered-left _ (edit_dialog permanent k) _ (ground arith))
save-Offered fkey temporary c k e t =
    rw e (Offered-left _ (edit_dialog temporary k) _ (ground arith))

save_used :
    (mode : Editing) (active : Text) (c : Command) (k : Card) (s : CommandState)
    → find (has_id c.id) s.commands ≡ some c
    → is_truthy (trim k.value) ≡ true
    → k.editing ≡ some mode
    → let (k2, s2, w) = press active c edit_save k s in
      let (s3, sent) = handle_execute active c.id s2 in
      (k2.editing ≡ none)
      × ((d : Command) × (find (has_id c.id) s2.commands ≡ some d)
          × (display_text d ≡ shown mode (trim k.value) (trim k.name) c))
      × (sent.input ≡ trim k.value ++ 13 ∷ [])
      × ((handle_execute active c.id s3).1.input ≡ own_text mode (trim k.value) c ++ 13 ∷ [])
save_used mode active c k s h t e =
    let value = trim k.value in
    let name = trim k.name in
    let d = edited mode value name c in
    let (closed, stored) = saved mode active c k s t e in
    let found = find-saved mode c.id value name s c h in
    let (first, second) =
      uses active c.id (save_edit (some mode) c.id value (some_or_none name) s) d found in
    rw stored (
      closed,
      (d, found, shown-edited mode value name c),
      first ∙ ap (λ x. x ++ 13 ∷ []) (full-edited mode value name c),
      second ∙ ap (λ x. x ++ 13 ∷ []) (own-edited mode value name c),
    )

-- Open the edit dialog of a card from its menu, type in a text, and a name where there is a field for it,
-- and save, where something other than blanks is typed as the text. "Save" is enabled, and closes the
-- dialog. The card then shows the name, or the text where no name is left: an edit for the next use keeps
-- the name. The next execution sends the new text. The one after it sends it again after a permanent
-- edit, and the command as it was, not an earlier text for one use, after one for the next use.
pub edits_used :
    (fkey : Option Text) (mode : Editing) (active value name : Text) (c : Command) (k : Card)
    (s : CommandState)
    → find (has_id c.id) s.commands ≡ some c
    → is_truthy (trim value) ≡ true
    → let (k1, s1) = press_all active c (entries mode value name) k s in
      let (k2, s2, w) = press active c edit_save k1 s1 in
      let (s3, sent) = handle_execute active c.id s2 in
      Offered edit_save (view fkey c k1)
      × (k2.editing ≡ none)
      × ((d : Command) × (find (has_id c.id) s2.commands ≡ some d)
          × (display_text d ≡ shown mode (trim value) (trim name) c))
      × (sent.input ≡ trim value ++ 13 ∷ [])
      × ((handle_execute active c.id s3).1.input ≡ own_text mode (trim value) c ++ 13 ∷ [])
unfolding press seed
edits_used fkey permanent active value name c k s h t =
    let k1 = (press_all active c (entries permanent value name) k s).0 in
    let (closed, found, first, second) = save_used permanent active c k1 s h t refl in
    (save-Offered fkey permanent c k1 refl t, closed, found, first, second)
edits_used fkey temporary active value name c k s h t =
    let k1 = (press_all active c (entries temporary value name) k s).0 in
    let (closed, found, first, second) = save_used temporary active c k1 s h t refl in
    (save-Offered fkey temporary c k1 refl t, closed, found, first, second)
