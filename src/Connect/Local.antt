-- ===== src/Connect/Local.antt =====
-- Local terminals: a fresh shell, and a saved tmux session that is attached again.
use pair_admin.Base.{
  Bool, false, not, Option, none, some, List, [], ◌∷◌, ◌++◌, Text, codes, if◌then◌else◌, is_truthy,
  show,
}
use pair_admin.Scanner.{Rejection}
use pair_admin.Terminal.{
  AuthType, TabKind, TabDetails, TerminalState, no_details, add_tab, set_active_tab,
  take_next_tab_number,
}
use pair_admin.Connect.{
  OpenRequest, RemoteHost, Call, open_remote_terminal, touch_remote_host, open_new_terminal,
  wails_error_message,
}
use pair_admin.Connect.Dialog.{Dialog, connecting, error}

-- With the id that `crypto.randomUUID` returns.
unfoldable pub handle_connect_local : Text → Dialog → Dialog × List Call
handle_connect_local id d = (record d { connect_status = connecting }, open_new_terminal id ∷ [])

unfoldable pub local_failed : Rejection → Dialog → Dialog
local_failed err d = record d {
  connect_status = error;
  connect_error = wails_error_message err (codes "Failed to open terminal");
}

abbrev local_details : Option Text → TabDetails
local_details host = record no_details {
  degraded = some false;
  kind = some TabKind.local;
  saved_host_id = host;
}

-- The request for a saved session; it names no secret.
abbrev local_request : RemoteHost → OpenRequest
local_request h = record {
  kind = TabKind.local;
  host = [];
  port = 0;
  username = [];
  auth_type = AuthType.unset;
  password = [];
  private_key_path = [];
  passphrase = [];
  save_password = false;
  saved_host_id = h.id;
  use_tmux = false;
  tmux_session_name = h.tmux_session_name;
  use_tls = false;
  insecure_skip_verify = false;
  trust_new_host_key = false;
}

unfoldable pub handle_connect_local_saved : RemoteHost → Dialog → Dialog × List Call
handle_connect_local_saved h d = (
  record d { connect_status = connecting; connect_error = []; save_warning = [] },
  open_remote_terminal (local_request h) ∷ [],
)

-- `OpenRemoteTerminal` has returned.
abbrev pub session_opened : RemoteHost → List Call
session_opened h = touch_remote_host h.id ∷ []

-- `h.Name || h.TmuxSessionName || "Local session"`
abbrev pub session_name : RemoteHost → Text
session_name h =
    if is_truthy h.name
    then h.name
    else if is_truthy h.tmux_session_name
    then h.tmux_session_name
    else codes "Local session"

unfoldable pub session_failed : Rejection → Dialog → Dialog
session_failed err d = record d {
  connect_status = error;
  connect_error = wails_error_message err (codes "Connection failed");
}

module _ {Term : Type 0} where
  -- `OpenNewTerminal` has returned an id, which may be empty; the dialog then closes.
  unfoldable pub local_opened : Text → TerminalState Term → TerminalState Term
  local_opened id s =
      let (s', num) = take_next_tab_number s in
      if is_truthy id
      then set_active_tab id (add_tab id (codes "Terminal " ++ show num) (local_details none) s')
      else s

  -- `TouchRemoteHost` has come to an end. The warning that the handler was made with decides whether the
  -- dialog closes.
  unfoldable pub session_touched :
      RemoteHost
      → Text
      → (warning_at_click : Text) → Option Rejection
      → Dialog
      → TerminalState Term
      → Dialog × TerminalState Term × Bool
  session_touched h id warning_at_click outcome d s = (
    elim outcome [
      | none ↦ d
      | some err ↦ record d {
        save_warning =
            wails_error_message err (codes "Failed to update last-used time for this saved host");
      }
    ],
    set_active_tab id (add_tab id (session_name h) (local_details (some h.id)) s),
    not (is_truthy warning_at_click),
  )
