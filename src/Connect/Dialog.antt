-- ===== src/Connect/Dialog.antt =====
-- The dialog's handlers up to the call of `OpenRemoteTerminal`, and the prompt for unknown host keys.
use pair_admin.Base.{
  ℕ, Bool, true, false, not, ◌&&◌, ◌||◌, Option, none, some, List, [], ◌∷◌, ◌++◌, Text, codes,
  if◌then◌else◌, is_truthy, get_elem?, erase_idx,
}
use pair_admin.Scanner.{Rejection}
use pair_admin.Connect.{
  ConnectRemoteParams, RemoteHost, Call, open_remote_terminal, check_host_key_trust, is_ssh,
  is_winrm, open_request, wails_error_message,
}

pub data Step : Type 0 where
  type form recent_all host_key_confirm : Step

pub data ConnectStatus : Type 0 where
  idle connecting error : ConnectStatus

-- What `CheckHostKeyTrust` returns.
pub record HostKeyStatus : Type 0 where
  pub known : Bool
  pub changed : Bool
  pub key_type : Text
  pub fingerprint : Text

pub record HostKeyConfirmState : Type 0 where
  pub params : ConnectRemoteParams
  pub key_type : Text
  pub fingerprint : Text
  pub changed : Bool

-- The fields of the form; `name` and the id of a saved host are those of the host to reconnect to.
pub record Dialog : Type 0 where
  pub step : Step
  pub form : ConnectRemoteParams
  pub prompt_new_host_keys : Bool
  pub host_key_confirm : Option HostKeyConfirmState
  pub connect_status : ConnectStatus
  pub connect_error : Text
  pub save_warning : Text
  -- the checks of host keys that are awaited
  pub checks : List ConnectRemoteParams

unfoldable pub connect_to_remote : ConnectRemoteParams → Dialog → Dialog × List Call
connect_to_remote p d = (
  record d { connect_status = connecting; connect_error = []; save_warning = [] },
  open_remote_terminal (open_request p) ∷ [],
)

unfoldable pub maybe_connect_to_remote : ConnectRemoteParams → Dialog → Dialog × List Call
maybe_connect_to_remote p d =
    if not (is_ssh p.kind) || not d.prompt_new_host_keys
    then connect_to_remote p d
    else (record d { checks = d.checks ++ p ∷ [] }, check_host_key_trust p.host p.port ∷ [])

abbrev confirmation : ConnectRemoteParams → HostKeyStatus → HostKeyConfirmState
confirmation p status = record {
  params = p;
  key_type = status.key_type;
  fingerprint = status.fingerprint;
  changed = status.changed;
}

-- The rest of `maybeConnectToRemote`, with `none` for a check that throws.
unfoldable pub checked : ConnectRemoteParams → Option HostKeyStatus → Dialog → Dialog × List Call
checked p none d = connect_to_remote p d
checked p (some status) d =
    if status.known
    then connect_to_remote p d
    else (record d { host_key_confirm = some (confirmation p status); step = host_key_confirm }, [])

-- `x || undefined`
abbrev non_empty : Option Text → Option Text
non_empty none = none
non_empty (some t) = if is_truthy t then some t else none

-- What the form connects with.
abbrev pub connect_params : Dialog → ConnectRemoteParams
connect_params d =
    let f = d.form in
    record f {
      use_tls = is_winrm f.kind && f.use_tls;
      insecure_skip_verify = is_winrm f.kind && f.insecure_skip_verify;
      saved_host_id = non_empty f.saved_host_id;
      name = non_empty f.name;
      trust_new_host_key = false;
    }

unfoldable pub handle_connect_remote : Dialog → Dialog × List Call
handle_connect_remote d = maybe_connect_to_remote (connect_params d) d

-- `applyHostToForm`; the fields that it does not set stay.
abbrev pub apply_host_to_form : RemoteHost → ConnectRemoteParams → ConnectRemoteParams
apply_host_to_form h f = record f {
  kind = h.kind;
  host = h.host;
  port = h.port;
  username = h.username;
  auth_type = h.auth_type;
  private_key_path = h.private_key_path;
  use_tmux = h.use_tmux;
  tmux_session_name = h.tmux_session_name;
  use_tls = is_winrm h.kind && h.use_tls;
  insecure_skip_verify = h.insecure_skip_verify;
}

-- What a saved host is reconnected with: no secret, and no consent to a new host key.
abbrev pub reconnect_params : RemoteHost → ConnectRemoteParams
reconnect_params h = record {
  kind = h.kind;
  host = h.host;
  port = h.port;
  username = h.username;
  auth_type = h.auth_type;
  password = [];
  private_key_path = h.private_key_path;
  passphrase = [];
  save_terminal = false;
  use_tmux = h.use_tmux;
  tmux_session_name = h.tmux_session_name;
  use_tls = is_winrm h.kind && h.use_tls;
  insecure_skip_verify = is_winrm h.kind && h.insecure_skip_verify;
  saved_host_id = some h.id;
  name = non_empty (some h.name);
  trust_new_host_key = false;
}

unfoldable pub handle_reconnect : RemoteHost → Dialog → Dialog × List Call
handle_reconnect h d =
    maybe_connect_to_remote (reconnect_params h) (record d { form = apply_host_to_form h d.form })

unfoldable pub handle_accept_host_key : Dialog → Dialog × List Call
handle_accept_host_key d = elim d.host_key_confirm [
  | none ↦ (d, [])
  | some c ↦ connect_to_remote (record c.params { trust_new_host_key = true }) d
]

unfoldable pub handle_reject_host_key : Dialog → Dialog × List Call
handle_reject_host_key d = (record d { host_key_confirm = none; step = form }, [])

unfoldable pub open_failed : Rejection → Dialog → Dialog × List Call
open_failed err d = (
  record d {
    connect_status = error;
    connect_error = wails_error_message err (codes "Connection failed");
  },
  [],
)

-- The form's fields as the user edits them.
unfoldable pub edit_form : ConnectRemoteParams → Dialog → Dialog × List Call
edit_form f d = (record d { form = f }, [])

pub data Event : Type 0 where
  connect accept reject : Event
  reconnect : RemoteHost → Event
  edit : ConnectRemoteParams → Event
  check_answered : (i : ℕ) → Option HostKeyStatus → Event
  failed_to_open : Rejection → Event

-- The answer to the i-th check that is awaited.
abbrev pub answer_check : ℕ → Option HostKeyStatus → Dialog → Dialog × List Call
answer_check i status d = elim (get_elem? d.checks i) [
  | none ↦ (d, [])
  | some p ↦ checked p status (record d { checks = erase_idx i d.checks })
]

unfoldable pub on_event : Event → Dialog → Dialog × List Call
on_event connect d = handle_connect_remote d
on_event accept d = handle_accept_host_key d
on_event reject d = handle_reject_host_key d
on_event (reconnect h) d = handle_reconnect h d
on_event (edit f) d = edit_form f d
on_event (check_answered i status) d = answer_check i status d
on_event (failed_to_open err) d = open_failed err d

unfoldable pub run : List Event → Dialog → Dialog
run [] d = d
run (e ∷ es) d = run es (on_event e d).0
