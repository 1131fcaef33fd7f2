-- ===== src/Connect/Trust.antt =====
-- When an SSH terminal is opened, and when its host key is trusted on first sight.
use pair_admin.Base.{
  ℕ, ◌≡◌, refl, sym, subst, ◌⊎◌, inl, inr, Bool, true, false, Option, none, some, List, [], ◌∷◌,
  arith, get_elem?, erase_idx, All, Option-cases,
}
use pair_admin.Connect.{
  ConnectRemoteParams, OpenRequest, open_remote_terminal, is_ssh, open_request,
}
use pair_admin.Connect.Dialog.{
  Dialog, HostKeyStatus, HostKeyConfirmState, Event, connect, accept, reject, reconnect, edit,
  check_answered, failed_to_open, connect_to_remote, maybe_connect_to_remote, checked, answer_check,
  handle_connect_remote, handle_reconnect, handle_accept_host_key, handle_reject_host_key,
  open_failed, edit_form, on_event, run,
}
use pair_admin.Connect.Checks.{IsUntrusting, All-get_elem?, run-checks}

-- An SSH connection is not opened at once while the prompt is on.
maybe-no_ssh :
    (p : ConnectRemoteParams) (d : Dialog) (r : OpenRequest)
    → d.prompt_new_host_keys ≡ true
    → (maybe_connect_to_remote p d).1 ≡ open_remote_terminal r ∷ []
    → ¬ (is_ssh r.kind ≡ true)
unfolding maybe_connect_to_remote connect_to_remote open_request
maybe-no_ssh p d r on h = λ k. ground arith

-- A check has told that the key is known, or has failed.
abbrev pub lets_through : Option HostKeyStatus → Bool
lets_through none = true
lets_through (some status) = status.known

-- The two ways to an SSH terminal in a dialog `d`.
abbrev pub Accepted : Event → Dialog → OpenRequest → Type 0
Accepted e d r =
    (e ≡ accept)
    × (c : HostKeyConfirmState) × (d.host_key_confirm ≡ some c)
    × (r ≡ open_request (record c.params { trust_new_host_key = true }))

abbrev pub LetThrough : Event → Dialog → OpenRequest → Type 0
LetThrough e d r =
    (i : ℕ) × (status : Option HostKeyStatus) × (p : ConnectRemoteParams) × (e
      ≡ check_answered i status)
    × (get_elem? d.checks i ≡ some p)
    × (lets_through status ≡ true)
    × (r ≡ open_request p)
    × (r.trust_new_host_key ≡ false)

accept-opens :
    (d : Dialog) (r : OpenRequest)
    → (handle_accept_host_key d).1 ≡ open_remote_terminal r ∷ []
    → Accepted accept d r
unfolding handle_accept_host_key connect_to_remote
accept-opens d r h = elim (Option-cases d.host_key_confirm) [
  | inl e ↦ absurd (ground arith)
  | inr (c, e) ↦ (refl, c, e, ground arith)
]

checked-opens :
    (p : ConnectRemoteParams) (status : Option HostKeyStatus) (d : Dialog) (r : OpenRequest)
    → (checked p status d).1 ≡ open_remote_terminal r ∷ []
    → (lets_through status ≡ true) × (r ≡ open_request p)
unfolding checked connect_to_remote
checked-opens p status d r h = ground arith

open_request-trust :
    (p : ConnectRemoteParams) → IsUntrusting p → (open_request p).trust_new_host_key ≡ false
unfolding open_request
open_request-trust p h = ground arith

pub answer-opens :
    (i : ℕ) (status : Option HostKeyStatus) (d : Dialog) (r : OpenRequest)
    → All IsUntrusting d.checks
    → (answer_check i status d).1 ≡ open_remote_terminal r ∷ []
    → LetThrough (check_answered i status) d r
answer-opens i status d r u h = elim (Option-cases (get_elem? d.checks i)) [
  | inl e ↦ absurd (ground arith)
  | inr (p, e) ↦
      let (lets, same) =
        checked-opens p status (record d { checks = erase_idx i d.checks }) r
          (rw (e, answer_check) at h) in
      (
        i,
        status,
        p,
        refl,
        e,
        lets,
        same,
        rw same (open_request-trust p (All-get_elem? i d.checks p u e)),
      )
]

opens :
    (e : Event) (d : Dialog) (r : OpenRequest)
    → All IsUntrusting d.checks
    → d.prompt_new_host_keys ≡ true
    → (on_event e d).1 ≡ open_remote_terminal r ∷ []
    → is_ssh r.kind ≡ true
    → Accepted e d r ⊎ LetThrough e d r
unfolding on_event handle_connect_remote handle_reconnect handle_reject_host_key open_failed
    edit_form
opens connect d r u on h k = absurd (maybe-no_ssh _ d r on h k)
opens accept d r u on h k = inl (accept-opens d r h)
opens reject d r u on h k = absurd (ground arith)
opens (reconnect host) d r u on h k = absurd (maybe-no_ssh _ (record d { form = _ }) r on h k)
opens (edit f) d r u on h k = absurd (ground arith)
opens (check_answered i status) d r u on h k = inr (answer-opens i status d r u h)
opens (failed_to_open err) d r u on h k = absurd (ground arith)

-- With the prompt for new host keys on, after any history of a dialog that began with no check
-- awaited, an SSH terminal is opened in two ways only: the user accepts the key on display, and
-- then exactly the connection that it was shown for is opened, with consent to the new key; or an
-- awaited check says that the key is known, or fails, and then its own connection is opened,
-- without such consent.
pub ssh_opens :
    (es : List Event) (e : Event) (d : Dialog) (r : OpenRequest)
    → d.checks ≡ []
    → (run es d).prompt_new_host_keys ≡ true
    → (on_event e (run es d)).1 ≡ open_remote_terminal r ∷ []
    → is_ssh r.kind ≡ true
    → Accepted e (run es d) r ⊎ LetThrough e (run es d) r
ssh_opens es e d r none_yet on h k =
    opens e (run es d) r (run-checks es d (subst (All IsUntrusting) (sym none_yet) tt)) on h k
