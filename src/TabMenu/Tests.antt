-- ===== src/TabMenu/Tests.antt =====
-- The menu of a tab, at a WinRM tab over TLS and at a local one.
use pair_admin.Base.{
  ◌≡◌, refl, true, false, none, some, [], ◌∷◌, Text, codes, trim, trim_start, trim_end, is_space,
}
use pair_admin.Terminal.{AuthType, TabKind, TerminalTab, TerminalState, initial, no_details}
use pair_admin.Connect.{
  ConnectRemoteParams, RemoteHost, open_remote_terminal, open_request, record_to_save, save_call,
}
use pair_admin.Connect.Dialog.{Dialog, Step, ConnectStatus, handle_reconnect, handle_connect_remote}
use pair_admin.Connect.Wizard.{connect_host}
use pair_admin.Connect.Form.{typed}
use pair_admin.TabMenu.{
  TabMenu, save_tmux, save_remote_host, commit_rename, handle_save_terminal, menu_items,
  rename_and_save,
}
use pair_admin.TabMenu.Saved.{
  again, tab_of, handle_save_terminal-connect_host, save_call-handle_reconnect,
}

abbrev windows : ConnectRemoteParams
windows = record {
  kind = TabKind.winrm;
  host = codes "win";
  port = 5986;
  username = codes "admin";
  auth_type = AuthType.password;
  password = codes "pw";
  private_key_path = [];
  passphrase = [];
  save_terminal = true;
  use_tmux = false;
  tmux_session_name = [];
  use_tls = true;
  insecure_skip_verify = false;
  saved_host_id = none;
  name = none;
  trust_new_host_key = false;
}

abbrev dialog : Dialog
dialog = record {
  step = Step.type;
  form = windows;
  prompt_new_host_keys = false;
  host_key_confirm = none;
  connect_status = ConnectStatus.idle;
  connect_error = [];
  save_warning = [];
  checks = [];
}

handle_save_terminal-connect_host_example :
    (h : RemoteHost) × (handle_save_terminal (tab_of (codes "t") (codes "win") none windows)
      ≡ save_remote_host h [] [] ∷ [])
    × (let (d', calls) =
          connect_host
            (record { host = record h { id = codes "h" }; has_credential = false })
            dialog in
        (calls ≡ [])
        × (d'.step ≡ Step.form)
        × ((handle_connect_remote (typed (codes "pw") [] d')).1
            ≡ open_remote_terminal (record (open_request windows) {
              save_password = true;
              saved_host_id = codes "h";
              trust_new_host_key = false;
              use_tls = false;
              insecure_skip_verify = false;
            })
              ∷ []))
handle_save_terminal-connect_host_example =
    handle_save_terminal-connect_host (codes "t") (codes "win") (codes "h") none windows dialog refl
      refl

save_call-handle_reconnect_example :
    (handle_reconnect (record (record_to_save [] [] windows) { id = codes "h" }) dialog).1
    ≡ open_remote_terminal (again (codes "h") windows) ∷ []
unfolding save_call
save_call-handle_reconnect_example =
    save_call-handle_reconnect windows (record_to_save [] [] windows) (codes "pw") [] (codes "h")
      dialog refl refl

abbrev local : TerminalTab
local = record {
  id = codes "a";
  name = codes "Terminal 1";
  details = record no_details { kind = some TabKind.local };
}

abbrev one_tab : TerminalState Text
one_tab = record initial { tabs = local ∷ [] }

abbrev naming : TabMenu
naming = record { renaming = some save_tmux; rename_value = codes " work " }

test_blank : (commit_rename local (record naming { rename_value = codes "  " }) one_tab).2 ≡ []
unfolding commit_rename trim trim_start trim_end is_space
test_blank = refl

test_menu : menu_items local ≡ rename_and_save ∷ []
unfolding menu_items
test_menu = refl
