-- ===== src/Network/PanelTests.antt =====
-- The Network panel after a scan that found one host with an SSH server, and one without.
use mathlib.Core.List.{Memᴰ}
use pair_admin.Base.{
  ◌≡◌, ◌↔◌, refl, true, false, none, some, [], ◌∷◌, codes, Option, Text, ℤ, Offered,
}
use pair_admin.Scanner.{ScannerState, ScannerStatus, HostRow, HostState}
use pair_admin.Terminal.{TabKind}
use pair_admin.Connect.{list_remote_hosts, get_settings}
use pair_admin.Connect.Dialog.{Dialog, Step, ConnectStatus}
use pair_admin.Connect.Wizard.{on_open, form_at_open}
use pair_admin.Network.{is_actionable, ssh_port}
use pair_admin.Network.Panel.{
  Panel, search_clicked, stop_clicked, add_to_hosts, press, is_scanning, view,
}
use pair_admin.Network.Controls.{IsShown, add_iff, controls_lem, added_lem}

abbrev server : HostRow
server = record {
  ip = codes "10.0.0.5";
  port = 22;
  state = HostState.ssh;
  ssh = some (record {
    port = 2222;
    banner = codes "SSH-2.0";
    software = codes "OpenSSH";
    host_key_type = codes "ed25519";
    host_key_fingerprint = codes "SHA256:x";
  });
}

abbrev quiet : HostRow
quiet = record server { ip = codes "10.0.0.6"; state = HostState.closed; ssh = none }

abbrev panel : Panel
panel = record {
  scanner = record pair_admin.Scanner.initial {
    status = ScannerStatus.done;
    rows = quiet ∷ server ∷ [];
  };
  enabled = some true;
  expanded = true;
  target = [];
  ports_raw = [];
  dialog_open = false;
  dialog_initial = none;
}

abbrev dialog : Dialog
dialog = record {
  step = Step.type;
  form = record (form_at_open none) { password = codes "old" };
  prompt_new_host_keys = true;
  host_key_confirm = none;
  connect_status = ConnectStatus.idle;
  connect_error = [];
  save_warning = [];
  checks = [];
}

abbrev no_number : Text → Option ℤ
no_number t = none

server-Offered : Offered (add_to_hosts server) (view panel)
server-Offered = (add_iff server panel).1 ((refl, refl), Memᴰ.tail (Memᴰ.head refl), refl)

controls_lem_example :
    (Offered search_clicked (view panel)
      ↔ (IsShown panel × (is_scanning panel.scanner.status ≡ false)))
    × (Offered stop_clicked (view panel)
        ↔ (IsShown panel × (is_scanning panel.scanner.status ≡ true)))
    × ((r : HostRow)
        → Offered (add_to_hosts r) (view panel)
          ↔ (IsShown panel × Memᴰ r panel.scanner.rows × (is_actionable r.state ≡ true)))
controls_lem_example = controls_lem panel

added_lem_example :
    let p' = (press no_number (add_to_hosts server) panel).0 in
    let (d', calls) = on_open p'.dialog_initial dialog in
    Memᴰ server panel.scanner.rows
    × (is_actionable server.state ≡ true)
    × (p'.dialog_open ≡ true)
    × (d'.step ≡ Step.form)
    × (d'.form.kind ≡ TabKind.ssh)
    × (d'.form.host ≡ server.ip)
    × (d'.form.port ≡ ssh_port server)
    × (d'.form.password ≡ [])
    × (d'.form.passphrase ≡ [])
    × (d'.form.trust_new_host_key ≡ false)
    × (calls ≡ list_remote_hosts ∷ get_settings ∷ [])
added_lem_example = added_lem no_number server panel dialog server-Offered
