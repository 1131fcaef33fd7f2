-- ===== src/Gate/Events.antt =====
-- The events of the gate, each at a state in which it can come.
use pair_admin.Base.{
  Bool, true, false, not, Option, none, some, List, [], ◌∷◌, Text, if◌then◌else◌, nat_eq,
}
use pair_admin.Gate.{
  GateState, StartupGate, password, SubmitAnswer, was_set, was_verified, keys_loaded,
  needs_answered, has_answered, handle_submit, submit_answered, handle_retry_os_keychain,
  retry_answered, retry_ended,
}

pub data Event : Type 0 where
  needs : Option Bool → Event
  has : Option Bool → Event
  types : (password confirm : Text) → Event
  submits retries loaded : Event
  submitted : SubmitAnswer → Event
  retried : Option Bool → Event

abbrev is_on_screen : StartupGate → Bool
is_on_screen password = true
is_on_screen _ = false

abbrev pub typed : Text → Text → GateState → GateState
typed p c s = let d = s.dialog in record s { dialog = record d { password = p; confirm = c } }

-- An answer comes only to what is awaited, and the dialog takes input only on the screen.
abbrev pub when : Bool → GateState → GateState → GateState
when b s s' = if b then s' else s

unfoldable pub on_event : Event → GateState → GateState
on_event (needs answer) s = when s.asks_needs s (needs_answered answer s).0
on_event (has answer) s = when s.asks_has s (has_answered answer s)
on_event (types p c) s = when (is_on_screen s.gate) s (typed p c s)
on_event submits s = when (is_on_screen s.gate) s (handle_submit s).0
on_event retries s = when (is_on_screen s.gate) s (handle_retry_os_keychain s).0
on_event loaded s =
    when (not (nat_eq s.loads 0)) s
      (let s' = keys_loaded s in if s.loads_for_retry then retry_ended s' else s')
on_event (submitted answer) s = when s.dialog.pending s (submit_answered answer s).0
on_event (retried answer) s = when s.asks_retry s (retry_answered answer s).0

unfoldable pub run : List Event → GateState → GateState
run [] s = s
run (e ∷ es) s = run es (on_event e s)

-- The answers that let a user through.
abbrev pub lets_through : Event → Bool
lets_through (needs none) = true
lets_through (needs (some needed)) = not needed
lets_through (has none) = true
lets_through (submitted was_set) = true
lets_through (submitted (was_verified ok)) = ok
lets_through (retried (some needed)) = not needed
lets_through _ = false
