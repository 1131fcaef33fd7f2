-- ===== src/Preview/Disposed.antt =====
-- After the clean-up: nothing more goes to the back end or to the terminal.
use pair_admin.Base.{
  ◌≡◌, refl, Bool, true, false, not, ◌&&◌, ◌||◌, List, [], ◌∷◌, Text, arith, any, any-append,
  eq_iff, ◌==◌, to_lower, codes, is_truthy,
}
use pair_admin.Hotkey.{KeyEvent}
use pair_admin.Preview.{
  Preview, Action, clipboard_write, clipboard_read, handle_key, Event, key, pasted, typed, content,
  output, resized, observed, ticked, fonts_ready, themed, cleaned, actions, next, run,
}

-- Anything but the clipboard, which the key handler uses.
abbrev pub touches_terminal : Action → Bool
touches_terminal (clipboard_write t) = false
touches_terminal clipboard_read = false
touches_terminal _ = true

actions-disposed :
    (e : Event) (p : Preview) → p.disposed ≡ true → any touches_terminal (actions e p) ≡ false
unfolding actions handle_key
actions-disposed (key keydown e selection) p h = ground arith
actions-disposed (pasted text) p h = ground arith
actions-disposed (typed text) p h = ground arith
actions-disposed (content text) p h = ground arith
actions-disposed (output tab text) p h = ground arith
actions-disposed (resized cols rows) p h = ground arith
actions-disposed (observed width height) p h = ground arith
actions-disposed ticked p h = ground arith
actions-disposed fonts_ready p h = ground arith
actions-disposed themed p h = ground arith
actions-disposed cleaned p h = refl

next-disposed : (e : Event) (p : Preview) → p.disposed ≡ true → (next e p).disposed ≡ true
unfolding next
next-disposed (key keydown e selection) p h = h
next-disposed (pasted text) p h = h
next-disposed (typed text) p h = h
next-disposed (content text) p h = h
next-disposed (output tab text) p h = h
next-disposed (resized cols rows) p h = h
next-disposed (observed width height) p h = h
next-disposed ticked p h = h
next-disposed fonts_ready p h = h
next-disposed themed p h = h
next-disposed cleaned p h = refl

run-disposed :
    (es : List Event) (p : Preview) → p.disposed ≡ true → any touches_terminal (run es p) ≡ false
unfolding run
run-disposed [] p h = refl
run-disposed (e ∷ es) p h = ground (
  arith,
  any-append touches_terminal (actions e p) (run es (next e p)),
  actions-disposed e p h,
  run-disposed es (next e p) (next-disposed e p h),
)

-- Once a view is cleaned up, whatever comes in late, a paste, output, the answer of a Windows window, a
-- resize or a font: nothing is written to the terminal or to the back end, and neither is resized.
pub cleaned_silent :
    (es : List Event) (p : Preview) → any touches_terminal (run (cleaned ∷ es) p) ≡ false
unfolding run next actions
cleaned_silent es p = run-disposed es (record p { disposed = true }) refl

-- The view keeps a key from the shell exactly if it is pressed down with Ctrl or Meta and without Shift
-- and Alt, and is C with something selected, or V; Ctrl+C without a selection reaches the shell.
pub handle_key_iff :
    (keydown : Bool) (e : KeyEvent) (selection : Text)
    → (handle_key keydown e selection).0
      ≡ not (
          keydown
          && (e.ctrl_key || e.meta_key)
          && not (e.shift_key || e.alt_key)
          && ((to_lower e.key == codes "c" && is_truthy selection) || to_lower e.key == codes "v"))
unfolding handle_key
handle_key_iff keydown e selection =
    ground (arith, eq_iff (to_lower e.key) (codes "c"), eq_iff (to_lower e.key) (codes "v"))
