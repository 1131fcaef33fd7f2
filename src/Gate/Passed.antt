-- ===== src/Gate/Passed.antt =====
-- Nobody passes the gate without an answer that lets through.
use pair_admin.Base.{
  ◌≡◌, refl, Bool, true, false, none, some, List, [], ◌∷◌, arith, any, Bool-cases, inl, inr,
}
use pair_admin.Gate.{
  GateState, StartupGate, ready, initial, was_set, was_verified, was_rejected, keys_loaded,
  needs_answered, has_answered, handle_submit, submit_answered, handle_retry_os_keychain,
  retry_answered, retry_ended,
}
use pair_admin.Gate.Events.{
  Event, needs, has, types, submits, retries, loaded, submitted, retried, on_event, run,
  lets_through,
}

abbrev is_ready : StartupGate → Bool
is_ready ready = true
is_ready _ = false

-- The gate is closed, and no keys are being loaded to open it.
abbrev IsClosed : GateState → Type 0
IsClosed s = (is_ready s.gate ≡ false) × (s.loads ≡ 0)

on_event-IsClosed :
    (e : Event) (s : GateState) → lets_through e ≡ false → IsClosed s → IsClosed (on_event e s)
unfolding on_event keys_loaded needs_answered has_answered handle_submit submit_answered
    handle_retry_os_keychain retry_answered retry_ended
on_event-IsClosed (needs none) s h c = absurd (ground arith)
on_event-IsClosed (needs (some needed)) s h c = ground arith
on_event-IsClosed (has none) s h c = absurd (ground arith)
on_event-IsClosed (has (some there)) s h c = ground arith
on_event-IsClosed (types p q) s h c = ground arith
on_event-IsClosed submits s h c = ground arith
on_event-IsClosed retries s h c = ground arith
on_event-IsClosed loaded s h c = ground arith
on_event-IsClosed (submitted was_set) s h c = absurd (ground arith)
on_event-IsClosed (submitted (was_verified ok)) s h c = ground arith
on_event-IsClosed (submitted (was_rejected err)) s h c = ground arith
on_event-IsClosed (retried none) s h c = ground arith
on_event-IsClosed (retried (some needed)) s h c = ground arith

run-IsClosed :
    (es : List Event) (s : GateState)
    → any lets_through es ≡ false
    → IsClosed s
    → IsClosed (run es s)
unfolding run
run-IsClosed [] s h c = c
run-IsClosed (e ∷ es) s h c =
    run-IsClosed es (on_event e s) (ground arith) (on_event-IsClosed e s (ground arith) c)

-- The gate opens only after one of these answers, whatever is typed, submitted and retried: no master
-- password is needed, at the start or at a retry; the password was set, or verified; or one of the two
-- questions of the start could not be asked.
pub ready_lem :
    (es : List Event) → is_ready (run es initial).gate ≡ true → any lets_through es ≡ true
ready_lem es h = elim (Bool-cases (any lets_through es)) [
  | inl passed ↦ passed
  | inr none_yet ↦
      let closed = run-IsClosed es initial none_yet (refl, refl) in absurd (ground arith)
]
