-- ===== src/Command/Actions.antt =====
-- The store's operations as one type of actions, and the ids of the commands under them.
use pair_admin.Base.{
  ℕ, ◌≡◌, refl, Bool, Option, none, some, List, [], ◌∷◌, ◌++◌, Text, ◌==◌, any, find, get_elem?,
  erase_idx, modify_first, map-modify_first, map-append_one, IsUnused, Distinct, Distinct-append,
  Option-cases, Bool-cases, inl, inr, is_some,
}
use pair_admin.Command.Unique.{ids, Distinct-filter, Distinct-insert_at, Distinct-erase_idx}
use pair_admin.Command.{
  Command, CommandState, NewCommand, has_id, set_add_command_dialog_open, add_command,
  add_pinned_command, is_pinned_text, clear_all, toggle_pin, remove_command, edit_command,
  edit_for_next_use, consume_command_text, reorder_pinned, splice_in, move_before, reordered,
  rename_command, without_override,
}

pub data Action : Type 0 where
  set_dialog : Bool → Action
  add add_pinned : (id : Text) → ℕ → (tab : Text) → NewCommand → Action
  clear : Action
  toggle remove consume : (id : Text) → Action
  edit edit_next rename : (id text : Text) → Action
  reorder : (dragged target : Text) → Action

unfoldable pub step : Action → CommandState → CommandState
step (set_dialog opened) s = set_add_command_dialog_open opened s
step (add id now tab cmd) s = add_command id now tab cmd s
step (add_pinned id now tab cmd) s = add_pinned_command id now tab cmd s
step clear s = clear_all s
step (toggle id) s = toggle_pin id s
step (remove id) s = remove_command id s
step (consume id) s = (consume_command_text id s).0
step (edit id text) s = edit_command id text s
step (edit_next id text) s = edit_for_next_use id text s
step (rename id text) s = rename_command id text s
step (reorder dragged target) s = reorder_pinned dragged target s

-- The id that an action draws is not in use.
abbrev IsFresh : Action → CommandState → Type 0
IsFresh (add id now tab cmd) s = IsUnused id (ids s.commands)
IsFresh (add_pinned id now tab cmd) s = IsUnused id (ids s.commands)
IsFresh _ s = Unit

splice_in-Distinct :
    (i : Option ℕ) (c : Command) (cs : List Command)
    → IsUnused c.id (ids cs)
    → Distinct (ids cs)
    → Distinct (ids (splice_in i c cs))
splice_in-Distinct none c cs u d = Distinct-insert_at _ c cs u d
splice_in-Distinct (some i) c cs u d = Distinct-insert_at i c cs u d

move_before-Distinct :
    (from : ℕ) (target : Text) (cs : List Command)
    → Distinct (ids cs)
    → Distinct (ids (move_before from target cs))
move_before-Distinct from target cs d = elim (Option-cases (get_elem? cs from)) [
  | inl e ↦ rw (e, move_before) d
  | inr (moved, e) ↦
      let (rest, unused) = Distinct-erase_idx from cs moved e d in
      rw (e, move_before) (splice_in-Distinct _ moved (erase_idx from cs) unused rest)
]

reordered-Distinct :
    (from to : Option ℕ) (target : Text) (cs : List Command)
    → Distinct (ids cs)
    → Distinct (ids (reordered from to target cs))
reordered-Distinct none to target cs d = d
reordered-Distinct (some from) none target cs d = d
reordered-Distinct (some from) (some to) target cs d = move_before-Distinct from target cs d

modify-Distinct :
    (id : Text) (f : Command → Command) (cs : List Command)
    → ((c : Command) → (f c).id ≡ c.id)
    → Distinct (ids cs)
    → Distinct (ids (modify_first (has_id id) f cs))
modify-Distinct id f cs h d = rw (map-modify_first (λ (c : Command). c.id) (has_id id) f cs h) d

append-Distinct :
    (c : Command) (cs : List Command)
    → IsUnused c.id (ids cs)
    → Distinct (ids cs)
    → Distinct (ids (cs ++ c ∷ []))
append-Distinct c cs u d =
    rw (map-append_one (λ (c : Command). c.id) cs c) (Distinct-append _ _ d (refl, tt) (u, tt))

consume-ids :
    (id : Text) (s : CommandState) → ids (consume_command_text id s).0.commands ≡ ids s.commands
unfolding consume_command_text
consume-ids id s = elim (Option-cases (find (has_id id) s.commands)) [
  | inl e ↦ rw (e, consume_command_text)
  | inr (c, e) ↦ elim (Bool-cases (is_some c.temp_override)) [
    | inl once ↦
        rw (e, consume_command_text, once)
          (map-modify_first (λ (c : Command). c.id) (has_id id) without_override s.commands
            (λ c. refl))
    | inr plain ↦ rw (e, consume_command_text, plain)
  ]
]

-- If `randomUUID` returns an id that is not in use, an operation keeps the ids of the commands
-- distinct.
pub command_ids-Distinct :
    (a : Action) (s : CommandState)
    → IsFresh a s
    → Distinct (ids s.commands)
    → Distinct (ids (step a s).commands)
unfolding step add_command add_pinned_command clear_all toggle_pin remove_command edit_command
    edit_for_next_use reorder_pinned rename_command
command_ids-Distinct (set_dialog opened) s u d = d
command_ids-Distinct (add id now tab cmd) s u d = append-Distinct _ _ u d
command_ids-Distinct (add_pinned id now tab cmd) s u d =
    elim (Bool-cases (any (is_pinned_text cmd.command) s.commands)) [
      | inl there ↦ rw there d
      | inr new ↦ rw new (append-Distinct _ _ u d)
    ]
command_ids-Distinct clear s u d = Distinct-filter _ s.commands d
command_ids-Distinct (toggle id) s u d = modify-Distinct id _ _ (λ c. refl) d
command_ids-Distinct (remove id) s u d = Distinct-filter _ s.commands d
command_ids-Distinct (consume id) s u d = rw (consume-ids id s) d
command_ids-Distinct (edit id text) s u d = modify-Distinct id _ _ (λ c. refl) d
command_ids-Distinct (edit_next id text) s u d = modify-Distinct id _ _ (λ c. refl) d
command_ids-Distinct (rename id text) s u d = modify-Distinct id _ _ (λ c. refl) d
command_ids-Distinct (reorder dragged target) s u d = elim (Bool-cases (dragged == target)) [
  | inl e ↦ rw e d
  | inr e ↦ rw e (reordered-Distinct _ _ target s.commands d)
]
