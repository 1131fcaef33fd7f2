-- ===== src/View/Scroll.antt =====
-- The message list follows the text while it is pinned to the bottom.
use pair_admin.Base.{ℕ, ◌-◌, ◌<◌, ◌≡◌, refl, Bool, true, List, [], ◌∷◌, arith, All, leb}
use pair_admin.View.{ScrollState, handle_scroll, messages_changed, content_resized, frames_passed}

pub data Event : Type 0 where
  scrolled : (height top client : ℕ) → Event
  changed : (count : ℕ) → Event
  resized frames : Event

unfoldable pub next : Event → ScrollState → ScrollState
next (scrolled height top client) s = handle_scroll height top client s
next (changed count) s = messages_changed count s
next resized s = (content_resized s).0
next frames s = frames_passed s

unfoldable pub run : List Event → ScrollState → ScrollState
run [] s = s
run (e ∷ es) s = run es (next e s)

-- The view is not scrolled more than fifty pixels above the bottom.
abbrev stays_down : Event → Bool
stays_down (scrolled height top client) = leb (height - top - client) 50
stays_down _ = true

next-pinned :
    (e : Event) (s : ScrollState)
    → stays_down e ≡ true
    → s.is_pinned ≡ true
    → (next e s).is_pinned ≡ true
unfolding next handle_scroll messages_changed content_resized frames_passed
next-pinned (scrolled height top client) s d h = ground arith
next-pinned (changed count) s d h = ground arith
next-pinned resized s d h = ground arith
next-pinned frames s d h = h

run-pinned :
    (es : List Event) (s : ScrollState)
    → All (λ e. stays_down e ≡ true) es
    → s.is_pinned ≡ true
    → (run es s).is_pinned ≡ true
unfolding run
run-pinned [] s d h = h
run-pinned (e ∷ es) s d h = run-pinned es (next e s) d.1 (next-pinned e s d.0 h)

messages_changed-pinned :
    (count : ℕ) (s : ScrollState)
    → s.prev_msg_count < count
    → (messages_changed count s).is_pinned ≡ true
unfolding messages_changed
messages_changed-pinned count s grew = ground arith

-- A message that is added pins the view, wherever it was scrolled to: until the user scrolls up again,
-- each time that the text grows the view follows it to the bottom.
pub new_message_followed :
    (count : ℕ) (es : List Event) (s : ScrollState)
    → s.prev_msg_count < count
    → All (λ e. stays_down e ≡ true) es
    → (content_resized (run es (messages_changed count s))).1 ≡ true
unfolding content_resized
new_message_followed count es s grew d =
    let added : (messages_changed count s).is_pinned ≡ true =
      messages_changed-pinned count s grew in
    rw (run-pinned es (messages_changed count s) d added) refl
