-- ===== src/Connect/Screen.antt =====
-- What the dialog shows, step by step, and what its buttons and fields do: the markup of
-- frontend/src/components/terminal/NewTerminalDialog.tsx.
use pair_admin.Base.{
  ℕ, ◌+◌, ◌-◌, Bool, false, not, ◌&&◌, Option, none, some, List, [], ◌∷◌, ◌++◌, Text, codes,
  if◌then◌else◌, is_truthy, leb, nat_eq, ltb, show, length, take, Widget, words, alert, button,
  text_field, when,
}
use pair_admin.Terminal.{TabKind}
use pair_admin.Connect.{RemoteHost, Call}
use pair_admin.Connect.Dialog.{
  Dialog, Step, ConnectStatus, HostKeyConfirmState, handle_connect_remote, handle_accept_host_key,
  handle_reject_host_key, edit_form,
}
use pair_admin.Connect.Local.{session_name}
use pair_admin.Connect.Wizard.{
  RemoteHostStatus, is_local, is_connecting, connect_host, handle_forget, select_kind, back,
}
use pair_admin.Connect.Recent.{
  kind_text, filtered_recent_hosts, recent_all_page_count, clamped_recent_page, paged_recent_hosts,
  previous_page, next_page,
}
use pair_admin.Connect.Fields.{
  Action, pick_kind, show_all, go_back, accept_key, reject_key, connect_form, search, previous,
  next, connect_saved, forget, edit, messages, host_key_step, form_step,
}

-- The dialog with its list of saved hosts.
pub record Screen : Type 0 where
  pub is_open : Bool
  pub dialog : Dialog
  pub recent_hosts : List RemoteHostStatus
  pub recent_search : Text
  pub recent_page : ℕ

abbrev pub recent_inline_cap : ℕ
recent_inline_cap = 6

abbrev host_name : RemoteHost → Text
host_name h =
    if is_local h.kind
    then session_name h
    else if is_truthy h.name
    then h.name
    else h.username ++ codes "@" ++ h.host

-- An entry of the list of saved hosts.
unfoldable pub render_host_row : ConnectStatus → RemoteHostStatus → List (Widget Action)
render_host_row status st =
    words (host_name st.host)
      ∷ words (kind_text st.host.kind)
      ∷ when (not (is_local st.host.kind) && not st.has_credential) (
          alert (codes "No stored credential — you'll be prompted to authenticate on connect") ∷ [])
    ++ button (codes "Connect") (is_connecting status) (connect_saved st)
      ∷ button (codes "×") false (forget st.host.id)
      ∷ []

unfoldable pub host_rows : ConnectStatus → List RemoteHostStatus → List (Widget Action)
host_rows status [] = []
host_rows status (st ∷ sts) = render_host_row status st ++ host_rows status sts

-- The first of the `n` saved hosts.
unfoldable pub recent_part : ℕ → ConnectStatus → List RemoteHostStatus → List (Widget Action)
recent_part n status sts =
    words (codes "Recent") ∷ host_rows status sts
    ++ when (ltb recent_inline_cap n)
        (button (codes "Show All (" ++ show n ++ codes ")") false show_all ∷ [])

unfoldable pub type_step : Screen → List (Widget Action)
type_step s =
    let n = length s.recent_hosts in
    let first = take recent_inline_cap s.recent_hosts in
    button (codes "Local") false (pick_kind TabKind.local)
      ∷ button (codes "Unix / Linux (SSH)") false (pick_kind TabKind.ssh)
      ∷ button (codes "Remote Windows (WinRM)") false (pick_kind TabKind.winrm)
      ∷ when (ltb 0 n) (recent_part n s.dialog.connect_status first)
    ++ messages s.dialog

abbrev pub page_buttons : ℕ → ℕ → List (Widget Action)
page_buttons page count =
    button (codes "← Prev") (nat_eq page 0) previous
    ∷ words (codes "Page " ++ show (page + 1) ++ codes " of " ++ show count)
    ∷ button (codes "Next →") (leb (count - 1) page) next
    ∷ []

abbrev pub rows_or_none : Text → ConnectStatus → List RemoteHostStatus → List (Widget Action)
rows_or_none query status [] =
    words (codes "No saved connections match \"" ++ query ++ codes "\"") ∷ []
rows_or_none query status (st ∷ sts) = host_rows status (st ∷ sts)

unfoldable pub recent_all_step : Screen → List (Widget Action)
recent_all_step s =
    let n = length (filtered_recent_hosts s.recent_search s.recent_hosts) in
    let count = recent_all_page_count n in
    text_field (codes "Filter by name, host, or username...") s.recent_search search
      ∷ rows_or_none s.recent_search s.dialog.connect_status
          (paged_recent_hosts s.recent_search s.recent_page s.recent_hosts)
    ++ (when (ltb 1 count) (page_buttons (clamped_recent_page s.recent_page n) count)
        ++ (messages s.dialog ++ button (codes "Back") false go_back ∷ []))

abbrev pub host_key_shown : Option HostKeyConfirmState → Dialog → List (Widget Action)
host_key_shown none d = []
host_key_shown (some c) d = host_key_step c d

abbrev pub step_shown : Step → Screen → List (Widget Action)
step_shown Step.type s = type_step s
step_shown Step.recent_all s = recent_all_step s
step_shown Step.host_key_confirm s = host_key_shown s.dialog.host_key_confirm s.dialog
step_shown Step.form s = form_step s.dialog

unfoldable pub view : Screen → List (Widget Action)
view s = when s.is_open (step_shown s.dialog.step s)

abbrev pub with_dialog : Screen → Dialog × List Call → Screen × List Call
with_dialog s (d, calls) = (record s { dialog = d }, calls)

abbrev pub found : Screen → ℕ
found s = length (filtered_recent_hosts s.recent_search s.recent_hosts)

-- A click, or a change of a field; `id` is what `crypto.randomUUID` returns for a local terminal.
unfoldable pub press : Text → Action → Screen → Screen × List Call
press id (pick_kind k) s = with_dialog s (select_kind id k s.dialog)
press id show_all s = (
  record s {
    dialog = record s.dialog { step = Step.recent_all };
    recent_search = [];
    recent_page = 0;
  },
  [],
)
press id go_back s = with_dialog s (back s.dialog, [])
press id accept_key s = with_dialog s (handle_accept_host_key s.dialog)
press id reject_key s = with_dialog s (handle_reject_host_key s.dialog)
press id connect_form s = with_dialog s (handle_connect_remote s.dialog)
press id (search t) s = (record s { recent_search = t; recent_page = 0 }, [])
press id previous s = (record s { recent_page = previous_page s.recent_page }, [])
press id next s = (record s { recent_page = next_page (found s) s.recent_page }, [])
press id (connect_saved st) s = with_dialog s (connect_host st s.dialog)
press id (forget host_id) s = with_dialog s (handle_forget host_id s.dialog)
press id (edit f) s = with_dialog s (edit_form f s.dialog)
