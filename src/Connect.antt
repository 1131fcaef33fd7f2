-- ===== src/Connect.antt =====
-- New terminals, local and remote: the connection logic of
-- frontend/src/components/terminal/NewTerminalDialog.tsx, with frontend/src/utils/wailsError.ts. The
-- handlers return the calls of the back end that they make; the answers are events, or arguments of the
-- function that goes on. A check of a host key that is awaited keeps its parameters in a list.
pub mod Dialog
pub mod Checks
pub mod Trust
pub mod Secrets
pub mod Local
pub mod Wizard
pub mod Recent
pub mod Form
pub mod Fields
pub mod Screen
pub mod Consent
pub mod History
pub mod Reachable
pub mod SecretFields
pub mod Hidden
pub mod ScreenTests
pub mod Tests
use pair_admin.Base.{
  ℕ, Bool, true, false, not, ◌&&◌, ◌||◌, Option, none, some, List, [], ◌∷◌, ◌++◌, Text, codes,
  if◌then◌else◌, or_else, is_truthy, get_elem?, erase_idx,
}
use pair_admin.Scanner.{Rejection}
use pair_admin.Terminal.{
  AuthType, TabKind, TabDetails, TerminalRemoteConnection, TerminalState, add_tab, set_active_tab,
}

pub record ConnectRemoteParams : Type 0 where
  pub kind : TabKind
  pub host : Text
  pub port : ℕ
  pub username : Text
  pub auth_type : AuthType
  pub password : Text
  pub private_key_path : Text
  pub passphrase : Text
  pub save_terminal : Bool
  pub use_tmux : Bool
  pub tmux_session_name : Text
  pub use_tls : Bool
  pub insecure_skip_verify : Bool
  pub saved_host_id : Option Text
  pub name : Option Text
  pub trust_new_host_key : Bool

-- The argument of `OpenRemoteTerminal`.
pub record OpenRequest : Type 0 where
  pub kind : TabKind
  pub host : Text
  pub port : ℕ
  pub username : Text
  pub auth_type : AuthType
  pub password : Text
  pub private_key_path : Text
  pub passphrase : Text
  pub save_password : Bool
  pub saved_host_id : Text
  pub use_tmux : Bool
  pub tmux_session_name : Text
  pub use_tls : Bool
  pub insecure_skip_verify : Bool
  pub trust_new_host_key : Bool

-- A saved host, as the back end keeps it, less `LastUsed`, which is always sent empty.
pub record RemoteHost : Type 0 where
  pub id : Text
  pub kind : TabKind
  pub name : Text
  pub host : Text
  pub port : ℕ
  pub username : Text
  pub auth_type : AuthType
  pub private_key_path : Text
  pub use_tmux : Bool
  pub tmux_session_name : Text
  pub use_tls : Bool
  pub insecure_skip_verify : Bool

pub data Call : Type 0 where
  open_remote_terminal : OpenRequest → Call
  check_host_key_trust : (host : Text) → (port : ℕ) → Call
  save_remote_host : RemoteHost → (password passphrase : Text) → Call
  touch_remote_host : (id : Text) → Call
  open_new_terminal : (id : Text) → Call
  forget_remote_host : (id : Text) → Call
  list_remote_hosts get_settings : Call

abbrev pub is_ssh : TabKind → Bool
is_ssh TabKind.ssh = true
is_ssh _ = false

abbrev pub is_winrm : TabKind → Bool
is_winrm TabKind.winrm = true
is_winrm _ = false

abbrev pub is_password : AuthType → Bool
is_password AuthType.password = true
is_password _ = false

abbrev pub is_private_key : AuthType → Bool
is_private_key AuthType.privatekey = true
is_private_key _ = false

-- `b ? t : ""`
abbrev pub text_if : Bool → Text → Text
text_if b t = if b then t else []

unfoldable pub open_request : ConnectRemoteParams → OpenRequest
open_request p = record {
  kind = p.kind;
  host = p.host;
  port = p.port;
  username = p.username;
  auth_type = p.auth_type;
  password = text_if (is_password p.auth_type) p.password;
  private_key_path = text_if (is_private_key p.auth_type) p.private_key_path;
  passphrase = text_if (is_private_key p.auth_type) p.passphrase;
  save_password = p.save_terminal;
  saved_host_id = or_else p.saved_host_id [];
  use_tmux = is_ssh p.kind && p.use_tmux;
  tmux_session_name = text_if (is_ssh p.kind) p.tmux_session_name;
  use_tls = is_winrm p.kind && p.use_tls;
  insecure_skip_verify = is_winrm p.kind && p.insecure_skip_verify;
  trust_new_host_key = is_ssh p.kind && p.trust_new_host_key;
}

abbrev pub record_to_save : Text → Text → ConnectRemoteParams → RemoteHost
record_to_save id name p = record {
  id = id;
  kind = p.kind;
  name = name;
  host = p.host;
  port = p.port;
  username = p.username;
  auth_type = p.auth_type;
  private_key_path = text_if (is_private_key p.auth_type) p.private_key_path;
  use_tmux = is_ssh p.kind && p.use_tmux;
  tmux_session_name = text_if (is_ssh p.kind) p.tmux_session_name;
  use_tls = is_winrm p.kind && p.use_tls;
  insecure_skip_verify = is_winrm p.kind && p.insecure_skip_verify;
}

-- The call that records the host once the terminal is open.
unfoldable pub save_call : ConnectRemoteParams → Option Call
save_call p =
    let password = text_if (is_password p.auth_type) p.password in
    let passphrase = text_if (is_private_key p.auth_type) p.passphrase in
    let id = or_else p.saved_host_id [] in
    if is_truthy id && p.save_terminal
    then some (save_remote_host (record_to_save id (or_else p.name []) p) password passphrase)
    else if is_truthy id
    then some (touch_remote_host id)
    else if p.save_terminal
    then some (save_remote_host (record_to_save [] [] p) password passphrase)
    else none

-- `wailsErrorMessage`
unfoldable pub wails_error_message : Rejection → Text → Text
wails_error_message (Rejection.error_object m) fallback = m
wails_error_message (Rejection.text m) fallback = if is_truthy m then m else fallback
wails_error_message (Rejection.other m) fallback = fallback

-- How that call came out: a host saved under an id, a time touched, or a failure.
pub data SaveOutcome : Type 0 where
  saved : (id : Text) → SaveOutcome
  touched : SaveOutcome
  failed : Rejection → SaveOutcome

abbrev saved_id : Option SaveOutcome → Option Text → Option Text
saved_id (some (saved id)) before = some id
saved_id _ before = before

abbrev pub is_touch : Option Call → Bool
is_touch (some (touch_remote_host id)) = true
is_touch _ = false

abbrev pub warning_of : Bool → Option SaveOutcome → Text
warning_of touching (some (failed err)) = wails_error_message err (
    if touching
    then codes "Failed to update last-used time for this saved host"
    else codes "Connected, but failed to save this connection for later")
warning_of touching _ = []

abbrev display_name : ConnectRemoteParams → Text
display_name p =
    let name = or_else p.name [] in if is_truthy name then name else p.username ++ b'@' ∷ p.host

abbrev pub tab_details : Option Text → ConnectRemoteParams → TabDetails
tab_details id p = record {
  degraded = some (is_winrm p.kind);
  degraded_msg =
      if is_winrm p.kind
      then some (codes "WinRM: command/response only — not a live shell")
      else none;
  kind = some p.kind;
  saved_host_id = id;
  host = some p.host;
  port = some p.port;
  remote = some (record {
    host = p.host;
    port = p.port;
    username = p.username;
    auth_type = p.auth_type;
    private_key_path = text_if (is_private_key p.auth_type) p.private_key_path;
    use_tmux = is_ssh p.kind && p.use_tmux;
    tmux_session_name = text_if (is_ssh p.kind) p.tmux_session_name;
  });
}

-- From the return of `OpenRemoteTerminal` with an id, and of `save_call` if one was made, to the end: the
-- terminal store, the warning, and whether the dialog closes.
unfoldable pub connected :
    {Term : Type 0}
    → ConnectRemoteParams
    → Text
    → Option SaveOutcome
    → TerminalState Term
    → TerminalState Term × Text × Bool
connected p id outcome s =
    let warning = warning_of (is_touch (save_call p)) outcome in
    (
      set_active_tab id
          (add_tab id (display_name p) (tab_details (saved_id outcome p.saved_host_id) p) s),
      warning,
      not (is_truthy warning),
    )
