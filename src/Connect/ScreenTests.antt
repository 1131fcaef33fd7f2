-- ===== src/Connect/ScreenTests.antt =====
-- The dialog as the user sees it: the form of an SSH host, and the prompt for its key.
use pair_admin.Base.{
  ◌≡◌, refl, true, false, none, some, [], ◌∷◌, codes, arith, shows, has_field, fields_of, leb,
  length, map, Text, Offered,
}
use pair_admin.Terminal.{AuthType, TabKind}
use pair_admin.Connect.{ConnectRemoteParams, OpenRequest, open_remote_terminal, open_request}
use pair_admin.Connect.Dialog.{
  Dialog, Step, ConnectStatus, HostKeyStatus, HostKeyConfirmState, handle_connect_remote,
  maybe_connect_to_remote, checked, handle_accept_host_key, connect_to_remote, connect_params,
}
use pair_admin.Connect.Wizard.{select_kind}
use pair_admin.Connect.Fields.{
  Action, accept_key, connect_form, address, form_step, form_buttons, address_fields, auth_fields,
  save_fields, transport_fields, messages, host_key_step,
}
use pair_admin.Connect.Screen.{Screen, view, press}
use pair_admin.Connect.History.{pressed, check_answered, on_event, move, Reach, here, next_move}
use pair_admin.Connect.Reachable.{consent_shown}
use pair_admin.Connect.SecretFields.{password, label, sent, text_in, ssh_sends_shown}
use pair_admin.Connect.Hidden.{typed, winrm_sends_hidden}

abbrev web : ConnectRemoteParams
web = record {
  kind = TabKind.ssh;
  host = codes "web";
  port = 22;
  username = codes "root";
  auth_type = AuthType.password;
  password = codes "hunter2";
  private_key_path = [];
  passphrase = codes "old";
  save_terminal = false;
  use_tmux = false;
  tmux_session_name = [];
  use_tls = false;
  insecure_skip_verify = false;
  saved_host_id = none;
  name = none;
  trust_new_host_key = false;
}

abbrev dialog : Dialog
dialog = record {
  step = Step.form;
  form = web;
  prompt_new_host_keys = true;
  host_key_confirm = none;
  connect_status = ConnectStatus.idle;
  connect_error = [];
  save_warning = [];
  checks = [];
}

abbrev first : Screen
first = record {
  is_open = true;
  dialog = dialog;
  recent_hosts = [];
  recent_search = [];
  recent_page = 0;
}

abbrev unknown : HostKeyStatus
unknown = record {
  known = false;
  changed = false;
  key_type = codes "ssh-ed25519";
  fingerprint = codes "SHA256:x";
}

abbrev asked : Screen
asked = (on_event (check_answered 0 (some unknown)) (on_event (pressed [] connect_form) first).0).0

form_buttons-Offered : Offered connect_form (view first)
unfolding view form_step address_fields auth_fields save_fields transport_fields messages
    form_buttons
form_buttons-Offered = ground arith

asked-Offered : Offered accept_key (view asked)
unfolding view on_event press handle_connect_remote maybe_connect_to_remote checked host_key_step
    messages
asked-Offered = ground arith

asked-Reach : Reach first asked
asked-Reach =
    next_move (next_move here (move (pressed [] connect_form) form_buttons-Offered refl))
      (move (check_answered 0 (some unknown)) tt refl)

abbrev consented : OpenRequest
consented = open_request (record (connect_params dialog) { trust_new_host_key = true })

asked-opens : (on_event (pressed [] accept_key) asked).1 ≡ open_remote_terminal consented ∷ []
unfolding on_event press handle_connect_remote maybe_connect_to_remote checked
    handle_accept_host_key connect_to_remote
asked-opens = refl

consented-trust : consented.trust_new_host_key ≡ true
unfolding open_request
consented-trust = refl

consent_shown_example :
    (c : HostKeyConfirmState) × (asked.dialog.host_key_confirm ≡ some c)
    × (c.changed ≡ false)
    × Offered accept_key (view asked)
    × (shows c.fingerprint (view asked) ≡ true)
    × (shows c.key_type (view asked) ≡ true)
    × (shows (address c) (view asked) ≡ true)
    × (consented ≡ open_request (record c.params { trust_new_host_key = true }))
consent_shown_example =
    consent_shown consented refl asked-Reach (move (pressed [] accept_key) asked-Offered refl)
      asked-opens consented-trust

ssh_sends_shown_example :
    let fs = fields_of (label password) (form_step first.dialog) in
    (leb (length fs) 1 ≡ true)
    × (sent password (open_request (connect_params first.dialog)) ≡ text_in fs)
    × (map
          (λ ((value, f) : Text × (Text → Action)).
            sent password
              (open_request (connect_params (press [] (f (codes "new")) first).0.dialog)))
          fs
        ≡ map (λ ((value, f) : Text × (Text → Action)). codes "new") fs)
ssh_sends_shown_example = ssh_sends_shown password [] (codes "new") first refl

abbrev keyed : Dialog
keyed = record dialog { form = record web { auth_type = AuthType.privatekey } }

winrm_sends_hidden_example :
    let d' = typed (codes "p") (codes "q") (codes "~/k") (select_kind [] TabKind.winrm keyed).0 in
    let r = open_request (connect_params d') in
    let ws = form_step d' in
    (has_field (codes "Password") ws ≡ true)
    × (r.password ≡ [])
    × (has_field (codes "Passphrase (optional)") ws ≡ false)
    × (r.passphrase ≡ codes "q")
    × (has_field (codes "Private key file path") ws ≡ false)
    × (r.private_key_path ≡ codes "~/k")
winrm_sends_hidden_example = winrm_sends_hidden [] keyed (codes "p") (codes "q") (codes "~/k") refl
