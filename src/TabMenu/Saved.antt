-- ===== src/TabMenu/Saved.antt =====
-- Saving a connection and coming back to it.
use pair_admin.Base.{◌≡◌, refl, true, false, ◌||◌, Option, some, [], ◌∷◌, Text, arith}
use pair_admin.Terminal.{TerminalTab}
use pair_admin.Connect.{
  ConnectRemoteParams, OpenRequest, RemoteHost, open_remote_terminal, is_ssh, is_winrm,
  open_request, tab_details, save_call,
}
use pair_admin.Connect.Dialog.{
  Dialog, reconnect_params, Step, handle_connect_remote, handle_reconnect, maybe_connect_to_remote,
  connect_to_remote,
}
use pair_admin.Connect.Wizard.{connect_host}
use pair_admin.Connect.Form.{typed}
use pair_admin.TabMenu.{save_remote_host, handle_save_terminal}

-- The request to a host that is reached again: as before, less the secrets, and with the id of its
-- record.
abbrev pub again : Text → ConnectRemoteParams → OpenRequest
again id p = record (open_request p) {
  password = [];
  passphrase = [];
  save_password = false;
  saved_host_id = id;
  trust_new_host_key = false;
}

-- The tab of a connection.
abbrev pub tab_of : (id name : Text) → Option Text → ConnectRemoteParams → TerminalTab
tab_of id name host p = record { id = id; name = name; details = tab_details host p }

reconnect-direct :
    (h : RemoteHost) (d : Dialog)
    → d.prompt_new_host_keys ≡ false
    → (handle_reconnect h d).1 ≡ open_remote_terminal (open_request (reconnect_params h)) ∷ []
unfolding handle_reconnect maybe_connect_to_remote connect_to_remote
reconnect-direct h d off = ground arith

-- "Save Terminal" on the tab of a connection, SSH or WinRM, stores no secret, so that the host has no
-- credential: "Connect" beside it opens no terminal but the form. Once the same secrets are typed in there,
-- the Connect of the form, with the prompt for host keys off, opens the same terminal again for the record
-- that was saved, except that TLS is off, and with it the choice to skip the check of the certificate.
pub handle_save_terminal-connect_host :
    (id name new : Text) (host : Option Text) (p : ConnectRemoteParams) (d : Dialog)
    → (is_ssh p.kind || is_winrm p.kind) ≡ true
    → d.prompt_new_host_keys ≡ false
    → (h : RemoteHost) × (handle_save_terminal (tab_of id name host p)
        ≡ save_remote_host h [] [] ∷ [])
      × (let (d', calls) =
            connect_host (record { host = record h { id = new }; has_credential = false }) d in
          (calls ≡ [])
          × (d'.step ≡ Step.form)
          × ((handle_connect_remote (typed p.password p.passphrase d')).1
              ≡ open_remote_terminal (record (open_request p) {
                save_password = true;
                saved_host_id = new;
                trust_new_host_key = false;
                use_tls = false;
                insecure_skip_verify = false;
              })
                ∷ []))
unfolding handle_save_terminal connect_host handle_connect_remote maybe_connect_to_remote
    connect_to_remote open_request
handle_save_terminal-connect_host id name new host p d remote off =
    (_, refl, (ground arith, ground arith, ground arith))

-- A connection that the dialog saves, and its reconnection with the prompt for host keys off: the same
-- terminal is opened again, TLS included, without a secret.
pub save_call-handle_reconnect :
    (p : ConnectRemoteParams) (h : RemoteHost) (password passphrase new : Text) (d : Dialog)
    → save_call p ≡ some (pair_admin.Connect.save_remote_host h password passphrase)
    → d.prompt_new_host_keys ≡ false
    → (handle_reconnect (record h { id = new }) d).1 ≡ open_remote_terminal (again new p) ∷ []
unfolding save_call open_request
save_call-handle_reconnect p h password passphrase new d e off =
    rw (reconnect-direct _ d off) (ground arith)
