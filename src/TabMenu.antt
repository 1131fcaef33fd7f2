-- ===== src/TabMenu.antt =====
-- The menu of a tab: frontend/src/components/terminal/TerminalTab.tsx. A tab is renamed, closed or saved
-- as a host. The handlers return the terminal store, where they change it at once, and the calls of the
-- back end; what these return is applied by a function of its own.
pub mod Session
pub mod Saved
pub mod Tests
use pair_admin.Base.{
  ℕ, Bool, true, false, not, ◌&&◌, Option, none, some, List, [], ◌∷◌, ◌++◌, Text, codes,
  if◌then◌else◌, or_else, is_truthy, is_some, trim,
}
use pair_admin.Terminal.{
  AuthType, TabKind, TerminalTab, TerminalRemoteConnection, TerminalState, rename_tab, remove_tab,
  set_saved_host_id,
}
use pair_admin.Connect.{RemoteHost}

-- The rename flow that is active: a plain rename, or the one that saves a tmux session.
pub data Renaming : Type 0 where
  rename save_tmux : Renaming

pub record TabMenu : Type 0 where
  pub renaming : Option Renaming
  pub rename_value : Text

pub data MenuCall : Type 0 where
  close_terminal : (id : Text) → MenuCall
  write_input : (id input : Text) → MenuCall
  save_remote_host : RemoteHost → (password passphrase : Text) → MenuCall
  rename_remote_host : (id name : Text) → MenuCall

unfoldable pub start_rename : TerminalTab → TabMenu → TabMenu
start_rename tab m = record m { rename_value = tab.name; renaming = some rename }

unfoldable pub start_rename_and_save_tmux : TerminalTab → TabMenu → TabMenu
start_rename_and_save_tmux tab m = record m { rename_value = tab.name; renaming = some save_tmux }

unfoldable pub cancel_rename : TabMenu → TabMenu
cancel_rename m = record m { renaming = none }

-- The input of the field, as the user edits it.
unfoldable pub edit_name : Text → TabMenu → TabMenu
edit_name value m = record m { rename_value = value }

-- The command that starts or attaches the session, and the line end that submits it.
abbrev pub tmux_command : Text → Text
tmux_command name = codes "tmux new-session -A -s " ++ name

abbrev pub tmux_input : Text → Text
tmux_input name = tmux_command name ++ codes "\r"

abbrev pub local_session : Text → Text → RemoteHost
local_session id name = record {
  id = id;
  kind = TabKind.local;
  name = name;
  host = [];
  port = 0;
  username = [];
  auth_type = AuthType.unset;
  private_key_path = [];
  use_tmux = false;
  tmux_session_name = name;
  use_tls = false;
  insecure_skip_verify = false;
}

abbrev is_save_tmux : Option Renaming → Bool
is_save_tmux (some save_tmux) = true
is_save_tmux _ = false

-- `tab.savedHostId || ""`
abbrev saved_host_id_or_empty : TerminalTab → Text
saved_host_id_or_empty tab = or_else tab.details.saved_host_id []

abbrev rename_calls : Option Renaming → TerminalTab → Text → List MenuCall
rename_calls mode tab name =
    let id = saved_host_id_or_empty tab in
    if is_save_tmux mode
    then write_input tab.id (tmux_input name) ∷ save_remote_host (local_session id name) [] [] ∷ []
    else if is_truthy id
    then rename_remote_host id name ∷ []
    else []

abbrev save_kind : Option TabKind → TabKind
save_kind (some TabKind.winrm) = TabKind.winrm
save_kind _ = TabKind.ssh

abbrev host_of_tab : TerminalTab → TerminalRemoteConnection → RemoteHost
host_of_tab tab r = record {
  id = [];
  kind = save_kind tab.details.kind;
  name = tab.name;
  host = r.host;
  port = r.port;
  username = r.username;
  auth_type = r.auth_type;
  private_key_path = r.private_key_path;
  use_tmux = r.use_tmux;
  tmux_session_name = r.tmux_session_name;
  use_tls = false;
  insecure_skip_verify = false;
}

unfoldable pub handle_save_terminal : TerminalTab → List MenuCall
handle_save_terminal tab = elim tab.details.remote [
  | none ↦ []
  | some r ↦ save_remote_host (host_of_tab tab r) [] [] ∷ []
]

unfoldable pub handle_close : TerminalTab → List MenuCall
handle_close tab = close_terminal tab.id ∷ []

abbrev non_empty_host : TerminalTab → Bool
non_empty_host tab = is_truthy (or_else tab.details.host [])

abbrev pub is_local : Option TabKind → Bool
is_local (some TabKind.local) = true
is_local _ = false

-- The entries of the menu behind "Rename".
pub data MenuItem : Type 0 where
  rename_and_save saved save_terminal : MenuItem

unfoldable pub menu_items : TerminalTab → List MenuItem
menu_items tab =
    let last =
      if is_truthy (saved_host_id_or_empty tab)
      then saved ∷ []
      else if non_empty_host tab
      then save_terminal ∷ []
      else [] in
    if is_local tab.details.kind && not (non_empty_host tab) then rename_and_save ∷ last else last

module _ {Term : Type 0} where
  unfoldable pub commit_rename :
      TerminalTab → TabMenu → TerminalState Term → TabMenu × TerminalState Term × List MenuCall
  commit_rename tab m s =
      let m' = record m { renaming = none } in
      let trimmed = trim m.rename_value in
      if not (is_truthy trimmed)
      then (m', s, [])
      else (m', rename_tab tab.id trimmed s, rename_calls m.renaming tab trimmed)

  -- `SaveRemoteHost` has returned the id of the record.
  unfoldable pub host_saved : TerminalTab → Text → TerminalState Term → TerminalState Term
  host_saved tab id s = set_saved_host_id tab.id id s

  -- `CloseTerminal` has come to an end, whichever.
  unfoldable pub closed : TerminalTab → TerminalState Term → TerminalState Term
  closed tab s = remove_tab tab.id s
