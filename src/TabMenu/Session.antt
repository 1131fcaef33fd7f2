-- ===== src/TabMenu/Session.antt =====
-- The tmux session that "Rename and Save tmux session" starts, saves and comes back to.
use pair_admin.Base.{
  ℕ, ◌≡◌, refl, ◌↔◌, true, some, [], ◌∷◌, Text, arith, split, get_elem?, Without, trim, is_truthy,
  find, modify_first, find-modify_first,
}
use pair_admin.Terminal.{
  TerminalTab, TerminalState, has_id, rename_tab, set_saved_host_id, with_saved_host,
}
use pair_admin.TabMenu.{
  TabMenu, save_tmux, write_input, save_remote_host, tmux_command, tmux_input, local_session,
  commit_rename, host_saved,
}

split-head : (sep : ℕ) (t : Text) → (get_elem? (split sep t) 0 ≡ some t) ↔ Without sep t
unfolding split
split-head sep [] = ground arith
split-head sep (c ∷ t) = ground (arith, split-head sep t)

-- Of the command's words, as blanks divide them, the session's name is the whole name of the tab
-- exactly if that has no blank in it: it is not quoted.
pub session_word :
    (name : Text) → (get_elem? (split b' ' (tmux_command name)) 4 ≡ some name) ↔ Without b' ' name
unfolding split
session_word name = split-head b' ' name

module _ {Term : Type 0} where
  -- A tab whose session has been saved keeps the id of its record: saving a session from it again,
  -- under any name, writes to that same record, and the tab has the new name.
  pub save_tmux_again :
      (tab : TerminalTab) (m : TabMenu) (s : TerminalState Term) (id : Text)
      → find (has_id tab.id) s.tabs ≡ some tab
      → m.renaming ≡ some save_tmux
      → is_truthy (trim m.rename_value) ≡ true
      → let s' = host_saved tab id (commit_rename tab m s).1 in
        let name = trim m.rename_value in
        (tab' : TerminalTab) × (find (has_id tab.id) s'.tabs ≡ some tab')
        × (tab'.name ≡ name)
        × ((commit_rename tab' m s').2
            ≡ write_input tab.id (tmux_input name)
              ∷ save_remote_host (local_session id name) [] []
              ∷ [])
  unfolding commit_rename host_saved rename_tab set_saved_host_id
  save_tmux_again tab m s id h k t = (
    with_saved_host id (record tab { name = trim m.rename_value }),
    rw
        (
          t,
          find-modify_first (has_id tab.id) (with_saved_host id)
              (modify_first (has_id tab.id) (λ x. record x { name = trim m.rename_value }) s.tabs)
              (λ x. refl),
          find-modify_first (has_id tab.id) (λ x. record x { name = trim m.rename_value }) s.tabs
              (λ x. refl),
          h,
        )
        refl,
    refl,
    rw (t, k) refl,
  )
