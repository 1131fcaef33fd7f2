-- ===== src/Connect/Fields.antt =====
-- What the user can do in the dialog, and the fields and buttons of its form and of the prompt for a host
-- key: the markup of frontend/src/components/terminal/NewTerminalDialog.tsx. The port holds a whole
-- number; a long explanation is cut after its first sentence.
use pair_admin.Base.{
  Bool, true, false, not, ◌&&◌, ◌||◌, List, [], ◌∷◌, ◌++◌, Text, codes, if◌then◌else◌, is_truthy,
  show, Widget, words, alert, button, text_field, secret_field, number_field, checkbox, choice,
  when,
}
use pair_admin.Terminal.{AuthType, TabKind}
use pair_admin.Connect.{ConnectRemoteParams, is_ssh, is_winrm, is_password, is_private_key}
use pair_admin.Connect.Dialog.{Dialog, ConnectStatus, error, HostKeyConfirmState}
use pair_admin.Connect.Wizard.{RemoteHostStatus, is_connecting, handle_use_tls_toggle}

pub data Action : Type 0 where
  pick_kind : TabKind → Action
  show_all go_back accept_key reject_key connect_form : Action
  search : Text → Action
  previous next : Action
  connect_saved : RemoteHostStatus → Action
  forget : Text → Action
  edit : ConnectRemoteParams → Action

abbrev pub is_error : ConnectStatus → Bool
is_error error = true
is_error _ = false

-- The warning and the error below every step.
unfoldable pub messages : Dialog → List (Widget Action)
messages d =
    when (is_truthy d.save_warning) (alert d.save_warning ∷ [])
    ++ when (is_error d.connect_status) (alert d.connect_error ∷ [])

abbrev pub address : HostKeyConfirmState → Text
address c = c.params.host ++ codes ":" ++ show c.params.port

abbrev plain_question : Text
plain_question = codes "Verify new host key"

abbrev changed_warning : Text
changed_warning = codes "Warning: this host's key has changed"

-- What is said of a host key.
abbrev pub host_key_text : HostKeyConfirmState → List (Widget Action)
host_key_text c =
    (if c.changed then alert changed_warning else words plain_question)
    ∷ words (address c)
    ∷ words c.key_type
    ∷ words c.fingerprint
    ∷ []

abbrev pub host_key_buttons : HostKeyConfirmState → Dialog → List (Widget Action)
host_key_buttons c d =
    button (if c.changed then codes "Back" else codes "Reject") false reject_key
    ∷ when (not c.changed) (
        button
          (if is_connecting d.connect_status
            then codes "Connecting..."
            else codes "Accept & Connect")
          (is_connecting d.connect_status) accept_key
        ∷ [])

-- The prompt for a host key, or the refusal of one that has changed.
unfoldable pub host_key_step : HostKeyConfirmState → Dialog → List (Widget Action)
host_key_step c d = host_key_text c ++ (messages d ++ host_key_buttons c d)

-- The way of authentication, and the fields of its secrets.
unfoldable pub auth_fields : ConnectRemoteParams → List (Widget Action)
auth_fields f =
    when (is_ssh f.kind) (
      choice (codes "Authentication") (
        (codes "Password", edit (record f { auth_type = AuthType.password }))
        ∷ (codes "Private key file", edit (record f { auth_type = AuthType.privatekey }))
        ∷ [])
      ∷ [])
    ++ when (is_winrm f.kind) (words (codes "WinRM supports password authentication only.") ∷ [])
    ++ when (is_winrm f.kind || is_password f.auth_type)
        (secret_field (codes "Password") f.password (λ t. edit (record f { password = t })) ∷ [])
    ++ when (is_ssh f.kind && is_private_key f.auth_type) (
        text_field (codes "Private key file path") f.private_key_path
          (λ t. edit (record f { private_key_path = t }))
        ∷ secret_field (codes "Passphrase (optional)") f.passphrase
            (λ t. edit (record f { passphrase = t }))
        ∷ [])

-- "Save Terminal" and tmux.
unfoldable pub save_fields : ConnectRemoteParams → List (Widget Action)
save_fields f =
    checkbox (codes "Save Terminal") f.save_terminal false
      (λ b. edit (record f { save_terminal = b }))
    ∷ when (f.save_terminal && is_ssh f.kind) (
        checkbox (codes "Use tmux if available") f.use_tmux false
          (λ b. edit (record f { use_tmux = b }))
        ∷ when f.use_tmux (
            text_field (codes "tmux session name") f.tmux_session_name
              (λ t. edit (record f { tmux_session_name = t }))
            ∷ []))

abbrev prompt_note : Text
prompt_note = codes "You'll be asked to confirm this host's key the first time you connect to it."

abbrev trust_note : Text
trust_note = codes "The first connection to a new host trusts and remembers its key automatically."

abbrev pub plaintext_alert : Text
plaintext_alert = codes "⚠ Plaintext WinRM"

-- What the form says about keys, and the transport of WinRM.
unfoldable pub transport_fields : Bool → ConnectRemoteParams → List (Widget Action)
transport_fields prompt_new_host_keys f =
    when (is_ssh f.kind) (words (if prompt_new_host_keys then prompt_note else trust_note) ∷ [])
    ++ when (is_winrm f.kind) (
        checkbox (codes "Use TLS") f.use_tls false (λ b. edit (handle_use_tls_toggle b f))
          ∷ when f.use_tls (
              checkbox (codes "Skip certificate verification (self-signed)") f.insecure_skip_verify
                false (λ b. edit (record f { insecure_skip_verify = b }))
              ∷ [])
        ++ when (not f.use_tls) (alert plaintext_alert ∷ []))

unfoldable pub form_buttons : Dialog → List (Widget Action)
form_buttons d =
    button (codes "Back") false go_back
    ∷ button (if is_connecting d.connect_status then codes "Connecting..." else codes "Connect")
        (is_connecting d.connect_status
          || not (is_truthy d.form.host)
          || not (is_truthy d.form.username))
        connect_form
    ∷ []

-- The host, its port and the user.
unfoldable pub address_fields : ConnectRemoteParams → List (Widget Action)
address_fields f =
    text_field (codes "Host") f.host (λ t. edit (record f { host = t }))
    ∷ number_field (codes "Port") f.port (λ n. edit (record f { port = n }))
    ∷ text_field (codes "Username") f.username (λ t. edit (record f { username = t }))
    ∷ []

unfoldable pub form_step : Dialog → List (Widget Action)
form_step d =
    let f = d.form in
    address_fields f
    ++ (auth_fields f
        ++ (save_fields f
            ++ (transport_fields d.prompt_new_host_keys f ++ (messages d ++ form_buttons d))))
