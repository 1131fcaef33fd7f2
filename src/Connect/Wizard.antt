-- ===== src/Connect/Wizard.antt =====
-- The steps of the dialog around the connection: opening it, the kind of terminal, the transport of WinRM,
-- a click on a saved host, and the Enter key. The id and the name of `reconnectHost` are those of the
-- form's record.
use pair_admin.Base.{
  ℕ, Bool, true, false, not, ◌||◌, Option, none, some, List, [], ◌∷◌, Text, codes, if◌then◌else◌,
  is_truthy, nat_eq, or_else,
}
use pair_admin.Scanner.{Rejection}
use pair_admin.Terminal.{AuthType, TabKind}
use pair_admin.Connect.{
  ConnectRemoteParams, RemoteHost, Call, forget_remote_host, list_remote_hosts, get_settings,
  wails_error_message,
}
use pair_admin.Connect.Dialog.{
  Dialog, Step, ConnectStatus, connecting, idle, apply_host_to_form, handle_connect_remote,
  handle_reconnect,
}
use pair_admin.Connect.Local.{handle_connect_local, handle_connect_local_saved}

-- An entry of `ListRemoteHostsWithStatus`.
pub record RemoteHostStatus : Type 0 where
  pub host : RemoteHost
  pub has_credential : Bool

-- A host of the Network panel, to fill the form with.
pub record Prefill : Type 0 where
  pub host : Text
  pub port : ℕ

abbrev prefill_step : Option Prefill → Step
prefill_step none = Step.type
prefill_step (some pre) = Step.form

abbrev prefill_kind : Option Prefill → TabKind
prefill_kind none = TabKind.local
prefill_kind (some pre) = TabKind.ssh

abbrev prefill_host : Option Prefill → Text
prefill_host none = []
prefill_host (some pre) = pre.host

abbrev prefill_port : Option Prefill → ℕ
prefill_port none = 22
prefill_port (some pre) = pre.port

abbrev pub form_at_open : Option Prefill → ConnectRemoteParams
form_at_open pre = record {
  kind = prefill_kind pre;
  host = prefill_host pre;
  port = prefill_port pre;
  username = [];
  auth_type = AuthType.password;
  password = [];
  private_key_path = [];
  passphrase = [];
  save_terminal = false;
  use_tmux = false;
  tmux_session_name = [];
  use_tls = true;
  insecure_skip_verify = false;
  saved_host_id = none;
  name = none;
  trust_new_host_key = false;
}

-- The effect that runs when the dialog opens.
unfoldable pub on_open : Option Prefill → Dialog → Dialog × List Call
on_open pre d = (
  record d {
    step = prefill_step pre;
    form = form_at_open pre;
    host_key_confirm = none;
    connect_status = idle;
    connect_error = [];
    save_warning = [];
  },
  list_remote_hosts ∷ get_settings ∷ [],
)

-- `PromptNewHostKeys` of the settings, `none` where the call fails or the field is absent.
unfoldable pub prompt_loaded : Option Bool → Dialog → Dialog
prompt_loaded prompt d = record d { prompt_new_host_keys = or_else prompt false }

unfoldable pub handle_forget : Text → Dialog → Dialog × List Call
handle_forget id d = (d, forget_remote_host id ∷ [])

unfoldable pub forgotten : Option Rejection → Dialog → Dialog × List Call
forgotten none d = (d, list_remote_hosts ∷ [])
forgotten (some err) d =
    (record d { save_warning = wails_error_message err (codes "Failed to remove saved host") }, [])

-- `k === "ssh" ? 22 : k === "winrm" ? 5986 : 5985`
abbrev default_port : TabKind → ℕ
default_port TabKind.ssh = 22
default_port TabKind.winrm = 5986
default_port TabKind.local = 5985

abbrev tls_of_kind : TabKind → Bool → Bool
tls_of_kind TabKind.winrm before = true
tls_of_kind _ before = before

abbrev to_form : TabKind → Dialog → Dialog
to_form k d =
    let f = d.form in
    record d {
      step = Step.form;
      form = record f {
        kind = k;
        port = default_port k;
        use_tls = tls_of_kind k f.use_tls;
        saved_host_id = none;
        name = none;
      };
    }

-- With the id that `crypto.randomUUID` returns for a local terminal.
unfoldable pub select_kind : Text → TabKind → Dialog → Dialog × List Call
select_kind id TabKind.local d = handle_connect_local id d
select_kind id TabKind.ssh d = (to_form TabKind.ssh d, [])
select_kind id TabKind.winrm d = (to_form TabKind.winrm d, [])

unfoldable pub handle_use_tls_toggle : Bool → ConnectRemoteParams → ConnectRemoteParams
handle_use_tls_toggle on f = record f {
  use_tls = on;
  port = if nat_eq f.port 5986 || nat_eq f.port 5985 then if on then 5986 else 5985 else f.port;
}

abbrev ask_credential : RemoteHost → Dialog → Dialog
ask_credential h d =
    let f = apply_host_to_form h d.form in
    record d {
      step = Step.form;
      form = record f { save_terminal = true; saved_host_id = some h.id; name = some h.name };
    }

abbrev pub is_local : TabKind → Bool
is_local TabKind.local = true
is_local _ = false

-- "Connect" beside a saved host.
unfoldable pub connect_host : RemoteHostStatus → Dialog → Dialog × List Call
connect_host st d =
    if is_local st.host.kind
    then handle_connect_local_saved st.host d
    else if st.has_credential
    then handle_reconnect st.host d
    else (ask_credential st.host d, [])

abbrev pub is_connecting : ConnectStatus → Bool
is_connecting connecting = true
is_connecting _ = false

-- A keydown in the form: whether the key is Enter, and whether its target is an input that is no checkbox.
unfoldable pub handle_form_key_down : Bool → Bool → Dialog → Dialog × List Call
handle_form_key_down is_enter in_text_input d =
    if not is_enter || not in_text_input
    then (d, [])
    else if is_connecting d.connect_status
        || not (is_truthy d.form.host)
        || not (is_truthy d.form.username)
    then (d, [])
    else handle_connect_remote d

unfoldable pub back : Dialog → Dialog
back d = record d { step = Step.type }
