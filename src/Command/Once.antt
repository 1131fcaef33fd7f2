-- ===== src/Command/Once.antt =====
-- One-time edits, and restoring pinned commands.
use pair_admin.Base.{
  ℕ, ◌≡◌, refl, none, some, Text, eq_refl, arith, is_some, or_else, any, any-append, find,
  modify_first, find-modify_first, if◌then◌else◌, Bool-cases, inl, inr,
}
use pair_admin.Command.{
  Command, CommandState, NewCommand, has_id, is_pinned_text, add_pinned_command, edit_for_next_use,
  without_override, consume_command_text,
}

pub consume-found :
    (id : Text) (s : CommandState) (c : Command)
    → find (has_id id) s.commands ≡ some c
    → consume_command_text id s ≡ (
      if is_some c.temp_override
          then record s { commands = modify_first (has_id id) without_override s.commands }
          else s,
      or_else c.temp_override c.command,
    )
unfolding consume_command_text
consume-found id s c h = rw (h, consume_command_text)

module _ (id text : Text) (s : CommandState) (c : Command) where
  find-edited :
      find (has_id id) s.commands ≡ some c
      → find (has_id id) (edit_for_next_use id text s).commands
        ≡ some (record c { temp_override = some text })
  unfolding edit_for_next_use
  find-edited h = rw (
    find-modify_first (has_id id) (λ c. record c { temp_override = some text }) s.commands
        (λ x. refl),
    h,
  )

  -- After a one-time edit of a command that is in the store the next use takes the edited text;
  -- every later use takes the command's own text again, and changes nothing.
  pub consume-edit_for_next_use :
      find (has_id id) s.commands ≡ some c
      → let once = consume_command_text id (edit_for_next_use id text s) in
        let twice = consume_command_text id once.0 in
        (once.1 ≡ text) × (twice.1 ≡ c.command) × (twice.0 ≡ once.0)
  consume-edit_for_next_use h =
      let s' = edit_for_next_use id text s in
      let used = record s' { commands = modify_first (has_id id) without_override s'.commands } in
      let once = consume-found id s' (record c { temp_override = some text }) (find-edited h) in
      let twice =
        consume-found id used (record c { temp_override = none })
          (rw (
            find-modify_first (has_id id) without_override s'.commands (λ x. refl),
            find-edited h,
          )) in
      rw once (refl, rw twice, rw twice)

-- Pinning a command with the same text a second time changes nothing, whatever ids and times the
-- two calls draw.
pub add_pinned_command_twice :
    (id id' : Text) (now now' : ℕ) (tab tab' : Text) (cmd cmd' : NewCommand) (s : CommandState)
    → cmd.command ≡ cmd'.command
    → add_pinned_command id' now' tab' cmd' (add_pinned_command id now tab cmd s)
      ≡ add_pinned_command id now tab cmd s
unfolding add_pinned_command
add_pinned_command_twice id id' now now' tab tab' cmd cmd' s h =
    elim (Bool-cases (any (is_pinned_text cmd.command) s.commands)) [
      | inl there ↦ rw (there, ← h, there)
      | inr new ↦
          rw (new, ← h, any-append (is_pinned_text cmd.command) s.commands, eq_refl cmd.command)
            (ground (arith, new))
    ]
