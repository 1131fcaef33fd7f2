-- ===== src/Command.antt =====
-- frontend/src/stores/commandStore.ts: the commands of the sidebar. `randomUUID` and `Date.now` are
-- arguments of the operations that call them.
pub mod Unique
pub mod Actions
pub mod Reorder
pub mod Once
pub mod Tests
use mathlib.Core.Bool.{not}
use pair_admin.Base.{
  ℕ, ◌-◌, ◌&&◌, Bool, true, false, Option, none, some, List, [], ◌∷◌, ◌++◌, Text, ◌==◌,
  if◌then◌else◌, is_some, or_else, length, get_elem?, any, filter, find, find_index, modify_first,
  insert_at, erase_idx,
}

pub record Command : Type 0 where
  pub id : Text
  pub command : Text
  pub original_question : Text
  pub timestamp : ℕ
  pub tab_id : Text
  pub pinned : Bool
  pub temp_override : Option Text
  pub name : Option Text

pub record CommandState : Type 0 where
  pub commands : List Command
  pub add_command_dialog_open : Bool

abbrev pub initial : CommandState
initial = record { commands = []; add_command_dialog_open = false }

-- The argument of `addCommand` and `addPinnedCommand`.
pub record NewCommand : Type 0 where
  pub command : Text
  pub original_question : Text
  pub name : Option Text

-- A name is stored only if it is not empty.
abbrev pub name_of : Option Text → Option Text
name_of none = none
name_of (some []) = none
name_of (some (c ∷ s)) = some (c ∷ s)

abbrev pub entry : Text → ℕ → Text → NewCommand → Bool → Command
entry id now tab cmd pinned = record {
  id = id;
  command = cmd.command;
  original_question = cmd.original_question;
  timestamp = now;
  tab_id = tab;
  pinned = pinned;
  temp_override = none;
  name = name_of cmd.name;
}

abbrev pub has_id : Text → Command → Bool
has_id id c = c.id == id

abbrev pub set_add_command_dialog_open : Bool → CommandState → CommandState
set_add_command_dialog_open opened s = record s { add_command_dialog_open = opened }

unfoldable pub add_command : Text → ℕ → Text → NewCommand → CommandState → CommandState
add_command id now tab cmd s = record s { commands = s.commands ++ entry id now tab cmd false ∷ [] }

abbrev pub is_pinned_text : Text → Command → Bool
is_pinned_text text c = c.pinned && c.command == text

unfoldable pub add_pinned_command : Text → ℕ → Text → NewCommand → CommandState → CommandState
add_pinned_command id now tab cmd s =
    if any (is_pinned_text cmd.command) s.commands
    then s
    else record s { commands = s.commands ++ entry id now tab cmd true ∷ [] }

unfoldable pub clear_all : CommandState → CommandState
clear_all s = record s { commands = filter (λ c. c.pinned) s.commands }

unfoldable pub toggle_pin : Text → CommandState → CommandState
toggle_pin id s = record s {
  commands = modify_first (has_id id) (λ c. record c { pinned = not c.pinned }) s.commands;
}

unfoldable pub remove_command : Text → CommandState → CommandState
remove_command id s = record s { commands = filter (λ c. not (has_id id c)) s.commands }

unfoldable pub edit_command : Text → Text → CommandState → CommandState
edit_command id text s = record s {
  commands =
      modify_first (has_id id) (λ c. record c { command = text; temp_override = none }) s.commands;
}

unfoldable pub edit_for_next_use : Text → Text → CommandState → CommandState
edit_for_next_use id text s = record s {
  commands = modify_first (has_id id) (λ c. record c { temp_override = some text }) s.commands;
}

abbrev pub without_override : Command → Command
without_override c = record c { temp_override = none }

-- The text to send, and the state with the one-time override used up.
unfoldable pub consume_command_text : Text → CommandState → CommandState × Text
consume_command_text id s = elim (find (has_id id) s.commands) [
  | none ↦ (s, [])
  | some c ↦ (
    if is_some c.temp_override
        then record s { commands = modify_first (has_id id) without_override s.commands }
        else s,
    or_else c.temp_override c.command,
  )
]

-- `commands.splice(i, 0, moved)` with `findIndex`'s -1 as `none`: -1 counts from the end.
abbrev pub splice_in : Option ℕ → Command → List Command → List Command
splice_in none moved cs = insert_at (length cs - 1) moved cs
splice_in (some i) moved cs = insert_at i moved cs

-- The part behind the guards: take the element at `from` out, and put it before the target.
abbrev pub move_before : ℕ → Text → List Command → List Command
move_before from target cs = elim (get_elem? cs from) [
  | none ↦ cs
  | some moved ↦
      let rest = erase_idx from cs in splice_in (find_index (has_id target) rest) moved rest
]

abbrev pub reordered : Option ℕ → Option ℕ → Text → List Command → List Command
reordered none to target cs = cs
reordered (some from) none target cs = cs
reordered (some from) (some to) target cs = move_before from target cs

unfoldable pub reorder_pinned : Text → Text → CommandState → CommandState
reorder_pinned dragged target s = if dragged == target then s else record s {
  commands =
      reordered (find_index (has_id dragged) s.commands) (find_index (has_id target) s.commands)
        target s.commands;
}

-- `name || undefined`
unfoldable pub rename_command : Text → Text → CommandState → CommandState
rename_command id name s = record s {
  commands = modify_first (has_id id) (λ c. record c { name = name_of (some name) }) s.commands;
}
