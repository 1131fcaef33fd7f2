-- ===== src/Connect/History.antt =====
-- Histories of the dialog: what the user does with what is on display, and what the back end answers.
use pair_admin.Base.{
  ℕ, ◌≡◌, ◌≢◌, ◌⊎◌, refl, Bool, true, false, Option, List, [], ◌∷◌, Text, arith, Offered, All,
  Bool-cases, inl, inr, ◌&&◌, if◌then◌else◌, is_truthy, codes, none, some,
}
use pair_admin.Terminal.{TabKind}
use pair_admin.Scanner.{Rejection}
use pair_admin.Connect.{
  SaveOutcome, warning_of, is_touch, save_call, wails_error_message, ConnectRemoteParams,
  OpenRequest, Call, open_remote_terminal, open_request,
}
use pair_admin.Connect.Dialog.{
  Dialog, Step, HostKeyStatus, connect_to_remote, maybe_connect_to_remote, answer_check,
  handle_connect_remote, handle_reconnect, handle_reject_host_key, open_failed, edit_form,
  connect_params, reconnect_params, apply_host_to_form,
}
use pair_admin.Connect.Local.{
  handle_connect_local, handle_connect_local_saved, local_failed, session_failed,
}
use pair_admin.Connect.Wizard.{
  Prefill, RemoteHostStatus, on_open, prompt_loaded, forgotten, handle_form_key_down, connect_host,
  select_kind, handle_forget, back, is_local,
}
use pair_admin.Connect.Checks.{IsUntrusting, maybe-checks, accept-checks}
use pair_admin.Connect.Fields.{
  Action, pick_kind, show_all, go_back, accept_key, reject_key, connect_form, search, previous,
  next, connect_saved, forget, edit,
}
use pair_admin.Connect.Screen.{Screen, with_dialog, view, press}

pub data Event : Type 0 where
  pressed : (id : Text) → Action → Event
  -- a keydown in the form
  key_down : (is_enter in_text_input : Bool) → Event
  opened : Option Prefill → Event
  closed : Event
  hosts_loaded : List RemoteHostStatus → Event
  prompt_answered : Option Bool → Event
  forget_answered : Option Rejection → Event
  check_answered : ℕ → Option HostKeyStatus → Event
  open_rejected local_rejected session_rejected : Rejection → Event
  -- a remote terminal is open, and the call that records its host has come to an end
  open_resolved : ConnectRemoteParams → Option SaveOutcome → Event
  -- a saved session is attached, with the warning that stood there at the click
  session_resolved : (warning_at_click : Text) → Option Rejection → Event

-- A warning keeps the dialog open.
abbrev warned : Text → Dialog → Dialog
warned warning d = record d { save_warning = if is_truthy warning then warning else d.save_warning }

abbrev touch_warned : Option Rejection → Dialog → Dialog
touch_warned none d = d
touch_warned (some err) d = record d {
  save_warning =
      wails_error_message err (codes "Failed to update last-used time for this saved host");
}

unfoldable pub on_event : Event → Screen → Screen × List Call
on_event (pressed id a) s = press id a s
on_event (key_down is_enter in_text_input) s =
    with_dialog s (handle_form_key_down is_enter in_text_input s.dialog)
on_event (opened pre) s =
    with_dialog (record s { is_open = true; recent_search = []; recent_page = 0 })
      (on_open pre s.dialog)
on_event closed s = (record s { is_open = false }, [])
on_event (hosts_loaded hosts) s = (record s { recent_hosts = hosts }, [])
on_event (prompt_answered prompt) s = with_dialog s (prompt_loaded prompt s.dialog, [])
on_event (forget_answered outcome) s = with_dialog s (forgotten outcome s.dialog)
on_event (check_answered i status) s = with_dialog s (answer_check i status s.dialog)
on_event (open_rejected err) s = with_dialog s (open_failed err s.dialog)
on_event (local_rejected err) s = with_dialog s (local_failed err s.dialog, [])
on_event (session_rejected err) s = with_dialog s (session_failed err s.dialog, [])
on_event (open_resolved p outcome) s =
    let warning = warning_of (is_touch (save_call p)) outcome in
    (record s { is_open = s.is_open && is_truthy warning; dialog = warned warning s.dialog }, [])
on_event (session_resolved warning_at_click outcome) s = (
  record s {
    is_open = s.is_open && is_truthy warning_at_click;
    dialog = touch_warned outcome s.dialog;
  },
  [],
)

-- The user does only what the view offers, and types only into the form on display.
abbrev pub IsAllowed : Event → Screen → Type 0
IsAllowed (pressed id a) s = Offered a (view s)
IsAllowed (key_down is_enter in_text_input) s = (s.is_open ≡ true) × (s.dialog.step ≡ Step.form)
IsAllowed _ s = Unit

pub data Move (s t : Screen) (calls : List Call) : Type 0 where
  move : (e : Event) → IsAllowed e s → on_event e s ≡ (t, calls) → Move s t calls

pub data Reach (s : Screen) : Screen → Type 0 where
  here : Reach s s
  next_move : {t u : Screen} {calls : List Call} → Reach s t → Move t u calls → Reach s u

-- What an answered or a direct connection opens carries no consent.
pub maybe-untrusting :
    (p : ConnectRemoteParams) (d : Dialog) (r : OpenRequest)
    → IsUntrusting p
    → (maybe_connect_to_remote p d).1 ≡ open_remote_terminal r ∷ []
    → r.trust_new_host_key ≡ false
unfolding maybe_connect_to_remote connect_to_remote open_request
maybe-untrusting p d r u h = ground arith

select-untrusting :
    (id : Text) (k : TabKind) (d : Dialog) (r : OpenRequest)
    → (select_kind id k d).1 ≢ open_remote_terminal r ∷ []
unfolding select_kind handle_connect_local
select-untrusting id TabKind.local d r h = ground arith
select-untrusting id TabKind.ssh d r h = ground arith
select-untrusting id TabKind.winrm d r h = ground arith

connect_host-untrusting :
    (st : RemoteHostStatus) (d : Dialog) (r : OpenRequest)
    → (connect_host st d).1 ≡ open_remote_terminal r ∷ []
    → r.trust_new_host_key ≡ false
unfolding connect_host handle_connect_local_saved handle_reconnect
connect_host-untrusting st d r h = ground (
  arith,
  maybe-untrusting (reconnect_params st.host)
      (record d { form = apply_host_to_form st.host d.form }) r refl,
)

-- Only the button "Accept & Connect" gives the consent.
pub press-untrusting :
    (id : Text) (a : Action) (s : Screen) (r : OpenRequest)
    → (press id a s).1 ≡ open_remote_terminal r ∷ []
    → (a ≡ accept_key) ⊎ (r.trust_new_host_key ≡ false)
unfolding press handle_reject_host_key handle_connect_remote handle_forget edit_form
press-untrusting id (pick_kind k) s r h = absurd (select-untrusting id k s.dialog r h)
press-untrusting id show_all s r h = absurd (ground arith)
press-untrusting id go_back s r h = absurd (ground arith)
press-untrusting id accept_key s r h = inl refl
press-untrusting id reject_key s r h = absurd (ground arith)
press-untrusting id connect_form s r h =
    inr (maybe-untrusting (connect_params s.dialog) s.dialog r refl h)
press-untrusting id (search t) s r h = absurd (ground arith)
press-untrusting id previous s r h = absurd (ground arith)
press-untrusting id next s r h = absurd (ground arith)
press-untrusting id (connect_saved st) s r h = inr (connect_host-untrusting st s.dialog r h)
press-untrusting id (forget host_id) s r h = absurd (ground arith)
press-untrusting id (edit f) s r h = absurd (ground arith)

connect_host-checks :
    (st : RemoteHostStatus) (d : Dialog)
    → All IsUntrusting d.checks
    → All IsUntrusting (connect_host st d).0.checks
unfolding connect_host handle_connect_local_saved handle_reconnect
connect_host-checks st d u = elim (Bool-cases (is_local st.host.kind)) [
  | inl local ↦ rw local u
  | inr remote ↦ elim (Bool-cases st.has_credential) [
    | inl stored ↦
        rw (remote, stored)
          (maybe-checks (reconnect_params st.host)
            (record d { form = apply_host_to_form st.host d.form }) refl u)
    | inr missing ↦ rw (remote, missing) u
  ]
]

pub press-checks :
    (id : Text) (a : Action) (s : Screen)
    → All IsUntrusting s.dialog.checks
    → All IsUntrusting (press id a s).0.dialog.checks
unfolding press select_kind handle_connect_local handle_reject_host_key handle_connect_remote
    handle_forget edit_form connect_host handle_connect_local_saved handle_reconnect back
press-checks id (pick_kind k) s u = ground (arith, u)
press-checks id show_all s u = u
press-checks id go_back s u = u
press-checks id accept_key s u = rw (accept-checks s.dialog) u
press-checks id reject_key s u = u
press-checks id connect_form s u = maybe-checks _ s.dialog refl u
press-checks id (search t) s u = u
press-checks id previous s u = u
press-checks id next s u = u
press-checks id (connect_saved st) s u = connect_host-checks st s.dialog u
press-checks id (forget host_id) s u = u
press-checks id (edit f) s u = u
