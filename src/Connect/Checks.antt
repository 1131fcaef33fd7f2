-- ===== src/Connect/Checks.antt =====
-- The checks that are awaited: none of them carries the consent to a new host key.
use pair_admin.Base.{
  ℕ, zero, suc, ◌≡◌, refl, inl, inr, false, not, ◌||◌, Option, some, List, [], ◌∷◌, arith,
  get_elem?, erase_idx, All, All-append, Bool-cases, Option-cases,
}
use pair_admin.Connect.{ConnectRemoteParams, is_ssh}
use pair_admin.Connect.Dialog.{
  Dialog, HostKeyStatus, Event, connect, accept, reject, reconnect, edit, check_answered,
  failed_to_open, connect_to_remote, maybe_connect_to_remote, checked, answer_check,
  handle_connect_remote, handle_reconnect, handle_accept_host_key, handle_reject_host_key,
  open_failed, edit_form, on_event, run,
}

abbrev pub IsUntrusting : ConnectRemoteParams → Type 0
IsUntrusting p = p.trust_new_host_key ≡ false

All-erase_idx :
    (i : ℕ) (ps : List ConnectRemoteParams)
    → All IsUntrusting ps
    → All IsUntrusting (erase_idx i ps)
All-erase_idx i [] h = tt
All-erase_idx zero (p ∷ ps) h = h.1
All-erase_idx (suc i) (p ∷ ps) h = (h.0, All-erase_idx i ps h.1)

pub All-get_elem? :
    (i : ℕ) (ps : List ConnectRemoteParams) (p : ConnectRemoteParams)
    → All IsUntrusting ps
    → get_elem? ps i ≡ some p
    → IsUntrusting p
All-get_elem? i [] p h e = cc
All-get_elem? zero (q ∷ ps) p h e = cc (h.0, e)
All-get_elem? (suc i) (q ∷ ps) p h e = All-get_elem? i ps p h.1 e

pub maybe-checks :
    (p : ConnectRemoteParams) (d : Dialog)
    → IsUntrusting p
    → All IsUntrusting d.checks
    → All IsUntrusting (maybe_connect_to_remote p d).0.checks
unfolding maybe_connect_to_remote connect_to_remote
maybe-checks p d u h = elim (Bool-cases (not (is_ssh p.kind) || not d.prompt_new_host_keys)) [
  | inl direct ↦ rw direct h
  | inr asked ↦ rw asked (All-append IsUntrusting d.checks (p ∷ []) h (u, tt))
]

pub accept-checks : (d : Dialog) → (handle_accept_host_key d).0.checks ≡ d.checks
unfolding handle_accept_host_key connect_to_remote
accept-checks d = ground arith

checked-checks :
    (p : ConnectRemoteParams) (status : Option HostKeyStatus) (d : Dialog)
    → (checked p status d).0.checks ≡ d.checks
unfolding checked connect_to_remote
checked-checks p status d = ground arith

pub answer-checks :
    (i : ℕ) (status : Option HostKeyStatus) (d : Dialog)
    → All IsUntrusting d.checks
    → All IsUntrusting (answer_check i status d).0.checks
answer-checks i status d h = elim (Option-cases (get_elem? d.checks i)) [
  | inl e ↦ rw (e, answer_check) h
  | inr (p, e) ↦
      rw (e, answer_check, checked-checks p status (record d { checks = erase_idx i d.checks }))
        (All-erase_idx i d.checks h)
]

on_event-checks :
    (e : Event) (d : Dialog) → All IsUntrusting d.checks → All IsUntrusting (on_event e d).0.checks
unfolding on_event handle_connect_remote handle_reconnect handle_reject_host_key open_failed
    edit_form
on_event-checks connect d h = maybe-checks _ d refl h
on_event-checks accept d h = rw (accept-checks d) h
on_event-checks reject d h = h
on_event-checks (reconnect host) d h = maybe-checks _ _ refl h
on_event-checks (edit f) d h = h
on_event-checks (check_answered i status) d h = answer-checks i status d h
on_event-checks (failed_to_open err) d h = h

pub run-checks :
    (es : List Event) (d : Dialog) → All IsUntrusting d.checks → All IsUntrusting (run es d).checks
unfolding run
run-checks [] d h = h
run-checks (e ∷ es) d h = run-checks es (on_event e d).0 (on_event-checks e d h)
