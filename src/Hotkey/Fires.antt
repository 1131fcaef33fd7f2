-- ===== src/Hotkey/Fires.antt =====
-- When a hotkey that was captured in the settings fires.
use pair_admin.Base.{
  ◌≡◌, ◌↔◌, refl, true, false, Option, some, List, ◌∷◌, codes, ◌==◌, arith, eq_iff, to_lower, join,
  split,
}
use pair_admin.Hotkey.{
  KeyEvent, Element, matches_hotkey, is_foreign_text_entry, handler, build_key_combo, capture,
  parse_hotkey,
}
use pair_admin.Hotkey.Combo.{IsPlain, parse-build, parse-build_plus}

-- A hotkey captured from the key event `e`, whose key is not a modifier, has a text and has no "+"
-- in it, fires on an event exactly if that has the same four modifiers, the same key up to letter
-- case, and the focus is in no text entry but the terminal's own.
pub fires_iff :
    (e event : KeyEvent) (active terminal_textarea : Option Element)
    → IsPlain e.key
    → (handler (build_key_combo e) active terminal_textarea event ≡ true) ↔ (
        (event.ctrl_key ≡ e.ctrl_key)
        × (event.shift_key ≡ e.shift_key)
        × (event.alt_key ≡ e.alt_key)
        × (event.meta_key ≡ e.meta_key)
        × (to_lower event.key ≡ to_lower e.key)
        × (is_foreign_text_entry active terminal_textarea ≡ false))
unfolding handler matches_hotkey
fires_iff e event active terminal_textarea h =
    rw (parse-build e h, handler) (ground (arith, eq_iff (to_lower event.key) (to_lower e.key)))

-- No key event fires a hotkey captured with the key "+", whatever the modifiers and the focus are.
pub plus_dead :
    (e event : KeyEvent) (active terminal_textarea : Option Element)
    → e.key ≡ codes "+"
    → handler (build_key_combo e) active terminal_textarea event ≡ false
unfolding handler
plus_dead e event active terminal_textarea h = rw (parse-build_plus e h, handler) refl

-- The capture field takes the keydown of Ctrl with no other modifier as the hotkey "Ctrl",
-- whatever keydowns follow, and that hotkey does not fire on a later keydown of Ctrl either.
pub capture_ctrl_first :
    (e : KeyEvent) (rest : List KeyEvent) (event : KeyEvent)
    (active terminal_textarea : Option Element)
    → e.key ≡ codes "Control"
    → e.ctrl_key ≡ true
    → e.shift_key ≡ false
    → e.alt_key ≡ false
    → e.meta_key ≡ false
    → event.key ≡ codes "Control"
    → (capture (e ∷ rest) ≡ some (codes "Ctrl"))
      × (handler (codes "Ctrl") active terminal_textarea event ≡ false)
unfolding capture build_key_combo join ◌==◌ handler parse_hotkey split matches_hotkey to_lower
capture_ctrl_first e rest event active terminal_textarea k c s a m ke =
    (rw (k, c, s, a, m) refl, rw ke (ground arith))
