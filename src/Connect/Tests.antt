-- ===== src/Connect/Tests.antt =====
-- The dialog at a concrete SSH host.
use pair_admin.Base.{
  ◌≡◌, refl, ◌⊎◌, length, includes, trim, trim_start, trim_end, is_space, to_lower, lower_code,
  starts_with, true, false, none, some, List, [], ◌∷◌, Text, codes,
}
use pair_admin.Scanner.{Rejection}
use pair_admin.Terminal.{AuthType, TabKind, TerminalState}
use pair_admin.Connect.{
  ConnectRemoteParams, OpenRequest, RemoteHost, save_remote_host, save_call, open_request, saved,
  connected, wails_error_message,
}
use pair_admin.Connect.Dialog.{
  Dialog, Step, ConnectStatus, HostKeyStatus, Event, connect, accept, check_answered, on_event, run,
  handle_connect_remote, maybe_connect_to_remote, checked, handle_accept_host_key,
  connect_to_remote, connect_params,
}
use pair_admin.Connect.Trust.{Accepted, LetThrough, ssh_opens}
use pair_admin.Connect.Wizard.{RemoteHostStatus, connect_host}
use pair_admin.Connect.Recent.{filtered_recent_hosts}
use pair_admin.Connect.Form.{resaved, typed, connect_host-save_call}
use pair_admin.Connect.Secrets.{with_secrets, connected-secrets}

abbrev web : ConnectRemoteParams
web = record {
  kind = TabKind.ssh;
  host = codes "web";
  port = 22;
  username = codes "root";
  auth_type = AuthType.password;
  password = codes "hunter2";
  private_key_path = [];
  passphrase = [];
  save_terminal = true;
  use_tmux = false;
  tmux_session_name = [];
  use_tls = false;
  insecure_skip_verify = false;
  saved_host_id = none;
  name = none;
  trust_new_host_key = false;
}

abbrev dialog : Dialog
dialog = record {
  step = Step.form;
  form = web;
  prompt_new_host_keys = true;
  host_key_confirm = none;
  connect_status = ConnectStatus.idle;
  connect_error = [];
  save_warning = [];
  checks = [];
}

abbrev nas : RemoteHost
nas = record {
  id = codes "h1";
  kind = TabKind.ssh;
  name = codes "My nas";
  host = codes "10.0.0.2";
  port = 22;
  username = codes "root";
  auth_type = AuthType.password;
  private_key_path = [];
  use_tmux = false;
  tmux_session_name = [];
  use_tls = false;
  insecure_skip_verify = false;
}

abbrev unknown : HostKeyStatus
unknown = record {
  known = false;
  changed = false;
  key_type = codes "ssh-ed25519";
  fingerprint = codes "SHA256:x";
}

abbrev history : List Event
history = connect ∷ check_answered 0 (some unknown) ∷ []

abbrev consented : OpenRequest
consented = record {
  kind = TabKind.ssh;
  host = codes "web";
  port = 22;
  username = codes "root";
  auth_type = AuthType.password;
  password = codes "hunter2";
  private_key_path = [];
  passphrase = [];
  save_password = true;
  saved_host_id = [];
  use_tmux = false;
  tmux_session_name = [];
  use_tls = false;
  insecure_skip_verify = false;
  trust_new_host_key = true;
}

ssh_opens_example :
    Accepted accept (run history dialog) consented
    ⊎ LetThrough accept (run history dialog) consented
unfolding run on_event handle_connect_remote maybe_connect_to_remote checked handle_accept_host_key
    connect_to_remote open_request
ssh_opens_example = ssh_opens history accept dialog consented refl refl refl refl

abbrev no_tabs : TerminalState Text
no_tabs = pair_admin.Terminal.initial

connected-secrets_example :
    connected
      (with_secrets (codes "x") (codes "y") web)
      (codes "ssh:1")
      (some (saved (codes "h")))
      no_tabs
    ≡ connected web (codes "ssh:1") (some (saved (codes "h"))) no_tabs
connected-secrets_example =
    connected-secrets (codes "x") (codes "y") (codes "ssh:1") web (some (saved (codes "h"))) no_tabs

test_error :
    wails_error_message (Rejection.text []) (codes "Connection failed") ≡ codes "Connection failed"
unfolding wails_error_message
test_error = refl

abbrev two_hosts : List RemoteHostStatus
two_hosts =
    record { host = nas; has_credential = false }
    ∷ record { host = nas; has_credential = true }
    ∷ []

test_search : length (filtered_recent_hosts (codes " NAS") two_hosts) ≡ 2
unfolding includes trim trim_start trim_end is_space to_lower lower_code starts_with
test_search = refl

connect_host-save_call_example :
    let (form, calls) = connect_host (record { host = nas; has_credential = false }) dialog in
    (calls ≡ [])
    × (save_call (connect_params (typed (codes "pw") (codes "x") form))
        ≡ some (save_remote_host (resaved nas) (codes "pw") []))
connect_host-save_call_example =
    connect_host-save_call nas (codes "pw") (codes "x") dialog refl refl

abbrev known : HostKeyStatus
known = record unknown { known = true }
