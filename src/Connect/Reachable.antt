-- ===== src/Connect/Reachable.antt =====
-- What holds in every dialog that a history reaches.
use pair_admin.Base.{
  ◌≡◌, ◌≢◌, inl, inr, refl, sym, ap, subst, ◌∙◌, Bool, true, false, none, some, List, [], ◌∷◌, Text,
  arith, All, shows, Offered,
}
use pair_admin.Connect.{OpenRequest, Call, open_remote_terminal, open_request}
use pair_admin.Connect.Dialog.{
  Dialog, HostKeyConfirmState, connect_to_remote, handle_accept_host_key, handle_connect_remote,
  connect_params, open_failed,
}
use pair_admin.Connect.Local.{local_failed, session_failed}
use pair_admin.Connect.Wizard.{on_open, prompt_loaded, forgotten, handle_form_key_down}
use pair_admin.Connect.Checks.{IsUntrusting, maybe-checks, answer-checks}
use pair_admin.Connect.Trust.{answer-opens}
use pair_admin.Connect.Fields.{Action, accept_key, address}
use pair_admin.Connect.Screen.{Screen, view, press}
use pair_admin.Connect.Consent.{view-IsAsked}
use pair_admin.Connect.History.{
  Event, pressed, key_down, opened, closed, hosts_loaded, prompt_answered, forget_answered,
  check_answered, open_rejected, local_rejected, session_rejected, open_resolved, session_resolved,
  on_event, IsAllowed, Move, move, Reach, here, next_move, press-checks, press-untrusting,
  maybe-untrusting,
}

key_down-checks :
    (is_enter in_text_input : Bool) (d : Dialog)
    → All IsUntrusting d.checks
    → All IsUntrusting (handle_form_key_down is_enter in_text_input d).0.checks
unfolding handle_form_key_down handle_connect_remote
key_down-checks is_enter in_text_input d u =
    ground (arith, maybe-checks (connect_params d) d refl u)

on_event-checks :
    (e : Event) (s : Screen)
    → All IsUntrusting s.dialog.checks
    → All IsUntrusting (on_event e s).0.dialog.checks
unfolding on_event on_open prompt_loaded forgotten open_failed local_failed session_failed
on_event-checks (pressed id a) s u = press-checks id a s u
on_event-checks (key_down is_enter in_text_input) s u =
    key_down-checks is_enter in_text_input s.dialog u
on_event-checks (opened pre) s u = u
on_event-checks closed s u = u
on_event-checks (hosts_loaded hosts) s u = u
on_event-checks (prompt_answered prompt) s u = u
on_event-checks (forget_answered none) s u = u
on_event-checks (forget_answered (some err)) s u = u
on_event-checks (check_answered i status) s u = answer-checks i status s.dialog u
on_event-checks (open_rejected err) s u = u
on_event-checks (local_rejected err) s u = u
on_event-checks (session_rejected err) s u = u
on_event-checks (open_resolved p outcome) s u = u
on_event-checks (session_resolved w none) s u = u
on_event-checks (session_resolved w (some err)) s u = u

Reach-checks :
    {s t : Screen} → All IsUntrusting s.dialog.checks → Reach s t → All IsUntrusting t.dialog.checks
Reach-checks u here = u
Reach-checks u (next_move {t} r (move e allowed h)) =
    subst (λ (p : Screen × List Call). All IsUntrusting p.0.dialog.checks) h
      (on_event-checks e t (Reach-checks u r))

key_down-untrusting :
    (is_enter in_text_input : Bool) (d : Dialog) (r : OpenRequest)
    → (handle_form_key_down is_enter in_text_input d).1 ≡ open_remote_terminal r ∷ []
    → r.trust_new_host_key ≡ false
unfolding handle_form_key_down handle_connect_remote
key_down-untrusting is_enter in_text_input d r h =
    ground (arith, maybe-untrusting (connect_params d) d r refl)

no_consent : (r : OpenRequest) → r.trust_new_host_key ≡ false → r.trust_new_host_key ≢ true
no_consent r f t = cc

abbrev Opens : OpenRequest → List Call → Type 0
Opens r calls = (calls ≡ open_remote_terminal r ∷ []) × (r.trust_new_host_key ≡ true)

pressed_accept :
    (id : Text) (a : Action) (s : Screen) (r : OpenRequest)
    → Offered a (view s)
    → Opens r (press id a s).1
    → Offered accept_key (view s) × Opens r (handle_accept_host_key s.dialog).1
unfolding press
pressed_accept id a s r offered (h, k) = elim (press-untrusting id a s r h) [
  | inl e ↦ (
    subst (λ (b : Action). Offered b (view s)) e offered,
    (subst (λ (b : Action). (press id b s).1 ≡ open_remote_terminal r ∷ []) e h, k),
  )
  | inr f ↦ absurd (no_consent r f k)
]

-- The consent is given by the button alone.
event_accept :
    (e : Event) (s : Screen) (r : OpenRequest)
    → All IsUntrusting s.dialog.checks
    → IsAllowed e s
    → Opens r (on_event e s).1
    → Offered accept_key (view s) × Opens r (handle_accept_host_key s.dialog).1
unfolding on_event on_open forgotten open_failed
event_accept (pressed id a) s r u offered o = pressed_accept id a s r offered o
event_accept (key_down is_enter in_text_input) s r u allowed (h, k) =
    absurd (no_consent r (key_down-untrusting is_enter in_text_input s.dialog r h) k)
event_accept (opened pre) s r u allowed (h, k) = absurd (ground arith)
event_accept closed s r u allowed (h, k) = absurd (ground arith)
event_accept (hosts_loaded hosts) s r u allowed (h, k) = absurd (ground arith)
event_accept (prompt_answered prompt) s r u allowed (h, k) = absurd (ground arith)
event_accept (forget_answered none) s r u allowed (h, k) = absurd (ground arith)
event_accept (forget_answered (some err)) s r u allowed (h, k) = absurd (ground arith)
event_accept (check_answered i status) s r u allowed (h, k) =
    let (j, st, p, _, _, _, _, f) = answer-opens i status s.dialog r u h in
    absurd (no_consent r f k)
event_accept (open_rejected err) s r u allowed (h, k) = absurd (ground arith)
event_accept (local_rejected err) s r u allowed (h, k) = absurd (ground arith)
event_accept (session_rejected err) s r u allowed (h, k) = absurd (ground arith)
event_accept (open_resolved p outcome) s r u allowed (h, k) = absurd (ground arith)
event_accept (session_resolved w outcome) s r u allowed (h, k) = absurd (ground arith)

accept-params :
    (c : HostKeyConfirmState) (d : Dialog) (r : OpenRequest)
    → d.host_key_confirm ≡ some c
    → (handle_accept_host_key d).1 ≡ open_remote_terminal r ∷ []
    → r ≡ open_request (record c.params { trust_new_host_key = true })
unfolding handle_accept_host_key connect_to_remote
accept-params c d r e h = ground arith

-- In every history of a dialog that began with no check awaited, in which the user does only what is on
-- display: a terminal is opened with consent to a new host key only while the dialog asks about a key, which
-- is no changed one, and has the button for the consent on display, with the address, the type and the
-- fingerprint of that very key beside it; and what is opened is the connection that the key was asked for.
pub consent_shown :
    {start s t : Screen} {calls : List Call} (r : OpenRequest)
    → start.dialog.checks ≡ []
    → Reach start s
    → Move s t calls
    → calls ≡ open_remote_terminal r ∷ []
    → r.trust_new_host_key ≡ true
    → (c : HostKeyConfirmState) × (s.dialog.host_key_confirm ≡ some c)
      × (c.changed ≡ false)
      × Offered accept_key (view s)
      × (shows c.fingerprint (view s) ≡ true)
      × (shows c.key_type (view s) ≡ true)
      × (shows (address c) (view s) ≡ true)
      × (r ≡ open_request (record c.params { trust_new_host_key = true }))
consent_shown {start} {s} r none_yet reach (move e allowed h) single trusted =
    let u = Reach-checks (subst (All IsUntrusting) (sym none_yet) tt) reach in
    let (offered, (opens, _)) = event_accept e s r u allowed (ap (λ p. p.1) h ∙ single, trusted) in
    let (c, (confirm, fresh, fingerprint, key_type, at)) = view-IsAsked s offered in
    (
      c,
      confirm,
      fresh,
      offered,
      fingerprint,
      key_type,
      at,
      accept-params c s.dialog r confirm opens,
    )
