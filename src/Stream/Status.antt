-- ===== src/Stream/Status.antt =====
-- The connection indicator under the stream's events.
use pair_admin.Base.{
  ℕ, zero, suc, ◌≡◌, refl, Option, none, some, List, [], ◌∷◌, Text, arith, if◌then◌else◌, or_else,
  length, Option-cases, inl, inr,
}
use pair_admin.Settings.{ConnectionStatus, connected, disconnected, is_disabled}
use pair_admin.Stream.{
  World, map_get, map_delete, deliver, flush_loop, flush_pending, handle_chunk, finish, handle_done,
  handle_error,
}

-- The three events that the hook subscribes to.
pub data Event : Type 0 where
  chunk : ℕ → Text → Event
  done : Event
  error : Text → Event

-- An event with the id that `randomUUID` would return.
unfoldable pub step : Text → Text → Event → World → World
step tab id (chunk seq text) w = handle_chunk id tab (seq, text) w
step tab id done w = handle_done id tab w
step tab id (error message) w = handle_error id tab message w

unfoldable pub run : Text → List (Text × Event) → World → World
run tab [] w = w
run tab ((id, e) ∷ es) w = run tab es (step tab id e w)

flush_loop-settings :
    (fuel : ℕ) (id tab : Text) (w : World) → (flush_loop fuel id tab w).settings ≡ w.settings
unfolding flush_loop deliver
flush_loop-settings zero id tab w = refl
flush_loop-settings (suc fuel) id tab w = elim (Option-cases (map_get w.next_seq w.pending)) [
  | inl e ↦ rw (e, flush_loop)
  | inr (text, e) ↦
      rw (e, flush_loop)
        (ground (
          arith,
          flush_loop-settings fuel id tab
              (deliver id tab text (record w { pending = map_delete w.next_seq w.pending })),
        ))
]

flush_pending-settings :
    (id tab : Text) (w : World) → (flush_pending id tab w).settings ≡ w.settings
unfolding flush_pending
flush_pending-settings id tab w = flush_loop-settings (length w.pending) id tab w

-- What the last terminal event of a history says.
abbrev last_outcome : List (Text × Event) → Option ConnectionStatus
last_outcome [] = none
last_outcome ((id, chunk seq text) ∷ es) = last_outcome es
last_outcome ((id, done) ∷ es) = some (or_else (last_outcome es) connected)
last_outcome ((id, error message) ∷ es) = some (or_else (last_outcome es) disconnected)

abbrev outcome : Event → ConnectionStatus → ConnectionStatus
outcome (chunk seq text) c = c
outcome done c = if is_disabled c then c else connected
outcome (error message) c = if is_disabled c then c else disconnected

step-settings :
    (tab id : Text) (e : Event) (w : World)
    → (step tab id e w).settings
      ≡ record w.settings { connection_status = outcome e w.settings.connection_status }
unfolding step handle_chunk deliver handle_done finish handle_error
step-settings tab id (chunk seq text) w =
    ground (arith, flush_pending-settings id tab (deliver id tab text w))
step-settings tab id done w = ground (arith, flush_pending-settings id tab w)
step-settings tab id (error message) w = ground arith

-- After any history of events the indicator reads what the last `llm:done` or `llm:error` says,
-- unless the user had disabled the LLM: then no history changes it. The other settings stay.
pub run-settings :
    (tab : Text) (es : List (Text × Event)) (w : World)
    → let status = w.settings.connection_status in
      (run tab es w).settings ≡ record w.settings {
        connection_status = if is_disabled status then status else or_else (last_outcome es) status;
      }
unfolding run
run-settings tab [] w = ground arith
run-settings tab ((id, chunk seq text) ∷ es) w = ground (
  arith,
  run-settings tab es (step tab id (chunk seq text) w),
  step-settings tab id (chunk seq text) w,
)
run-settings tab ((id, done) ∷ es) w =
    ground (arith, run-settings tab es (step tab id done w), step-settings tab id done w)
run-settings tab ((id, error message) ∷ es) w = ground (
  arith,
  run-settings tab es (step tab id (error message) w),
  step-settings tab id (error message) w,
)
