-- ===== src/Sidebar/Saved.antt =====
-- What a restart brings back: the commands saved with "Save Pinned", and whether the chat is shown.
use pair_admin.Base.{
  ℕ, zero, suc, ◌+◌, ◌≡◌, refl, Bool, true, false, Option, none, some, List, [], ◌∷◌, ◌++◌, Text,
  arith, map, any, ◌==◌, or_else, Distinct, IsUnused, any-append, eq_iff, append-nil, append_assoc,
  map-append_one, ap, ◌∙◌, sym,
}
use pair_admin.Command.{
  Command, CommandState, NewCommand, initial, add_pinned_command, entry, name_of, is_pinned_text,
}
use pair_admin.Sidebar.{
  pinned_commands, to_save, to_add, handle_save_pinned, restore_pinned, ChatVisible, load_visible,
  toggle_chat_visible,
}

-- What a card shows and sends, the text for its next use included, whatever its id and its time.
pub record Content : Type 0 where
  pub command : Text
  pub original_question : Text
  pub name : Option Text
  pub pinned : Bool
  pub temp_override : Option Text

abbrev pub content : Command → Content
content c = record {
  command = c.command;
  original_question = c.original_question;
  name = c.name;
  pinned = c.pinned;
  temp_override = c.temp_override;
}

-- What becomes of it on the way: an empty name is none, and a text for the next use is gone.
abbrev pub restored : Command → Content
restored c = record {
  command = c.command;
  original_question = c.original_question;
  name = name_of c.name;
  pinned = true;
  temp_override = none;
}

abbrev pub texts : List Command → List Text
texts cs = map (λ c. c.command) cs

-- No pinned command has any of the texts.
abbrev IsFree : List Text → List Command → Type 0
IsFree [] cs = Unit
IsFree (t ∷ ts) cs = (any (is_pinned_text t) cs ≡ false) × IsFree ts cs

IsFree-append :
    (ts : List Text) (c : Command) (cs : List Command)
    → IsUnused c.command ts
    → IsFree ts cs
    → IsFree ts (cs ++ c ∷ [])
IsFree-append [] c cs unused free = tt
IsFree-append (t ∷ ts) c cs unused free = (
  ground (arith, any-append (is_pinned_text t) cs (c ∷ []), eq_iff t c.command, eq_iff c.command t),
  IsFree-append ts c cs (ground arith) free.1,
)

IsFree-nil : (ts : List Text) → IsFree ts []
IsFree-nil [] = tt
IsFree-nil (t ∷ ts) = (refl, IsFree-nil ts)

name_of-or_else : (name : Option Text) → name_of (some (or_else name [])) ≡ name_of name
name_of-or_else none = refl
name_of-or_else (some []) = refl
name_of-or_else (some (c ∷ t)) = refl

content-entry :
    (id : Text) (now : ℕ) (c : Command)
    → content (entry id now [] (to_add (to_save c)) true) ≡ restored c
content-entry id now c = rw (name_of-or_else c.name) refl

add-free :
    (id : Text) (now : ℕ) (cmd : NewCommand) (s : CommandState)
    → any (is_pinned_text cmd.command) s.commands ≡ false
    → add_pinned_command id now [] cmd s
      ≡ record s { commands = s.commands ++ entry id now [] cmd true ∷ [] }
unfolding add_pinned_command
add-free id now cmd s h = rw h refl

restore-content :
    (ids : ℕ → Text) (times : ℕ → ℕ) (i : ℕ) (cs : List Command) (s : CommandState)
    → Distinct (texts cs)
    → IsFree (texts cs) s.commands
    → map content (restore_pinned ids times i (map to_save cs) s).commands
      ≡ map content s.commands ++ map restored cs
unfolding restore_pinned
restore-content ids times i [] s d free = sym (append-nil (map content s.commands))
restore-content ids times i (c ∷ cs) s d free =
    let e = entry (ids i) (times i) [] (to_add (to_save c)) true in
    let s' = record s { commands = s.commands ++ e ∷ [] } in
    ap (λ st. map content (restore_pinned ids times (i + 1) (map to_save cs) st).commands)
      (add-free (ids i) (times i) (to_add (to_save c)) s free.0)
    ∙ restore-content ids times (i + 1) cs s' d.1 (IsFree-append (texts cs) e s.commands d.0 free.1)
    ∙ rw (map-append_one content s.commands e, content-entry (ids i) (times i) c)
        (append_assoc (map content s.commands) (restored c ∷ []) (map restored cs))

-- Saving the pinned commands and starting anew brings them all back, in their order, with their texts,
-- questions and names, pinned and without a text for the next use, and no other command, provided that no
-- two of them have the same text.
pub restore_pinned-handle_save_pinned :
    (ids : ℕ → Text) (times : ℕ → ℕ) (s : CommandState)
    → Distinct (texts (pinned_commands s))
    → map content (restore_pinned ids times 0 (handle_save_pinned s).1 initial).commands
      ≡ map restored (pinned_commands s)
unfolding handle_save_pinned
restore_pinned-handle_save_pinned ids times s d =
    restore-content ids times 0 (pinned_commands s) initial d
      (IsFree-nil (texts (pinned_commands s)))

unfoldable pub toggles : ℕ → ChatVisible → ChatVisible
toggles zero v = v
toggles (suc n) v = toggle_chat_visible (toggles n v)

-- However often the chat is shown and hidden, from whatever was stored: a restart shows it as it was
-- left.
pub load_visible-toggles :
    (n : ℕ) (stored : Option Text)
    → (load_visible (toggles n (load_visible stored)).stored).visible
      ≡ (toggles n (load_visible stored)).visible
unfolding toggles load_visible toggle_chat_visible ◌==◌
load_visible-toggles zero stored = refl
load_visible-toggles (suc n) stored = ground arith
