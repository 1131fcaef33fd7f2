-- ===== src/Connect/Form.antt =====
-- What the form of the dialog connects with: a host without a credential, the kinds and the transports that
-- the user tries, a second click, and a second session.
use pair_admin.Base.{
  ◌≡◌, ◌↔◌, ◌≢◌, true, false, not, ◌&&◌, ◌||◌, Option, none, some, [], ◌∷◌, Text, arith, is_truthy,
  if◌then◌else◌,
}
use pair_admin.Scanner.{Rejection}
use pair_admin.Terminal.{AuthType, TabKind, TerminalState}
use pair_admin.Connect.{
  ConnectRemoteParams, RemoteHost, open_remote_terminal, save_remote_host, is_ssh, is_winrm,
  is_password, is_private_key, text_if, open_request, save_call,
}
use pair_admin.Connect.Dialog.{
  Dialog, HostKeyStatus, connect, check_answered, connect_params, connect_to_remote,
  maybe_connect_to_remote, checked, handle_connect_remote, on_event, run,
}
use pair_admin.Connect.Local.{session_touched, handle_connect_local_saved}
use pair_admin.Connect.Wizard.{
  Prefill, on_open, select_kind, handle_use_tls_toggle, connect_host, form_at_open,
}

-- What the dialog keeps of a saved host when it saves it again.
abbrev pub resaved : RemoteHost → RemoteHost
resaved h = record h {
  private_key_path = text_if (is_private_key h.auth_type) h.private_key_path;
  use_tmux = is_ssh h.kind && h.use_tmux;
  tmux_session_name = text_if (is_ssh h.kind) h.tmux_session_name;
  use_tls = is_winrm h.kind && h.use_tls;
  insecure_skip_verify = is_winrm h.kind && h.insecure_skip_verify;
}

-- The form with the secrets typed in.
abbrev pub typed : Text → Text → Dialog → Dialog
typed password passphrase d =
    let f = d.form in record d { form = record f { password = password; passphrase = passphrase } }

-- A saved host without a credential: its "Connect" opens no terminal but fills the form. Once the
-- secrets are typed in, what is saved is that host again: under its id and its name, and with the same
-- coordinates, so that no second entry appears; the secret that its kind of authentication needs goes
-- with it.
pub connect_host-save_call :
    (h : RemoteHost) (password passphrase : Text) (d : Dialog)
    → (is_ssh h.kind || is_winrm h.kind) ≡ true
    → is_truthy h.id ≡ true
    → let (form, calls) = connect_host (record { host = h; has_credential = false }) d in
      (calls ≡ [])
      × (save_call (connect_params (typed password passphrase form))
          ≡ some (
              save_remote_host
                (resaved h)
                (text_if (is_password h.auth_type) password)
                (text_if (is_private_key h.auth_type) passphrase)))
unfolding connect_host save_call
connect_host-save_call h password passphrase d remote id = ground arith

-- The password of a WinRM connection is lost if a private key had been chosen for SSH before: choosing
-- WinRM keeps that choice, which the form does not show for WinRM, and the request then carries no
-- password, whatever is typed in.
pub winrm_password_lost :
    (id password : Text) (d : Dialog)
    → d.form.auth_type ≡ AuthType.privatekey
    → let d' = typed password [] (select_kind id TabKind.winrm d).0 in
      ((handle_connect_remote d').1 ≡ open_remote_terminal (open_request (connect_params d')) ∷ [])
      × ((open_request (connect_params d')).password ≡ [])
unfolding select_kind handle_connect_remote maybe_connect_to_remote connect_to_remote open_request
winrm_password_lost id password d h = ground arith

-- While the key of a host is being checked the dialog does not read as connecting: a second click on
-- Connect awaits a second check, and when both say that the key is known, the same terminal is opened
-- twice.
pub double_connect :
    (status : HostKeyStatus) (d : Dialog)
    → d.checks ≡ []
    → d.prompt_new_host_keys ≡ true
    → is_ssh d.form.kind ≡ true
    → status.known ≡ true
    → let d' = run (connect ∷ connect ∷ []) d in
      let answered = on_event (check_answered 0 (some status)) in
      let opened = open_remote_terminal (open_request (connect_params d)) ∷ [] in
      (d'.connect_status ≡ d.connect_status)
      × ((answered d').1 ≡ opened)
      × ((answered (answered d').0).1 ≡ opened)
unfolding run on_event handle_connect_remote maybe_connect_to_remote checked connect_to_remote
double_connect status d none_yet on ssh known = ground arith

-- A check that is awaited when the dialog is closed and opened anew still opens its own terminal, with
-- the secrets of the session before, though the form has been cleared.
pub check_survives :
    (pre : Option Prefill) (status : HostKeyStatus) (d : Dialog)
    → d.checks ≡ []
    → d.prompt_new_host_keys ≡ true
    → is_ssh d.form.kind ≡ true
    → status.known ≡ true
    → let d' = (on_open pre (on_event connect d).0).0 in
      (d'.form ≡ form_at_open pre)
      × ((on_event (check_answered 0 (some status)) d').1
          ≡ open_remote_terminal (open_request (connect_params d)) ∷ [])
unfolding on_open on_event handle_connect_remote maybe_connect_to_remote checked connect_to_remote
check_survives pre status d none_yet on ssh known = ground arith

-- Switching TLS off and on again, or on and off, gives back the port exactly if it was not the default
-- of the other transport.
pub toggle_twice :
    (f : ConnectRemoteParams)
    → ((handle_use_tls_toggle f.use_tls (handle_use_tls_toggle (not f.use_tls) f)).port ≡ f.port)
      ↔ (f.port ≢ (if f.use_tls then 5985 else 5986))
unfolding handle_use_tls_toggle
toggle_twice f = ground arith

-- Attaching a saved session: whether the dialog closes depends on the warning that stood there at the
-- click, not on the new one. Without one it closes over a time that could not be updated; with one it
-- stays open though all went well, and shows none.
pub stale_warning :
    {Term : Type 0} (h : RemoteHost) (id old : Text) (err : Rejection) (d : Dialog)
    (s : TerminalState Term)
    → is_truthy old ≡ true
    → let started = (handle_connect_local_saved h d).0 in
      ((session_touched h id [] (some err) started s).2 ≡ true)
      × ((session_touched h id old none started s).2 ≡ false)
      × ((session_touched h id old none started s).0.save_warning ≡ [])
unfolding session_touched handle_connect_local_saved
stale_warning h id old err d s stood = ground arith
