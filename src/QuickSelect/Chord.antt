-- ===== src/QuickSelect/Chord.antt =====
-- Which combos are chords.
use pair_admin.Base.{
  ◌≡◌, refl, Bool, true, false, ◌&&◌, ◌||◌, Option, none, some, [], ◌++◌, Text, codes, ◌==◌, arith,
  if◌then◌else◌, Option-cases, Bool-cases, inl, inr, is_truthy, join, append-nil, trim, split,
  to_lower,
}
use pair_admin.Hotkey.{KeyEvent, ParsedHotkey, flag, modifiers, is_modifier_key, build_key_combo}
use pair_admin.QuickSelect.{chord_from_combo, configured_chord, is_complete}

chord_flags :
    (c s a m : Bool)
    → chord_from_combo (
        join (codes "+") (
          flag c (codes "Ctrl")
          ++ (flag s (codes "Shift") ++ (flag a (codes "Alt") ++ flag m (codes "Meta")))))
      ≡ (if c && (a || m || s)
          then some (record { ctrl = c; shift = s; alt = a; meta = m; key = [] })
          else none)
unfolding chord_from_combo join split trim to_lower ◌==◌
chord_flags true true true true = refl
chord_flags true true true false = refl
chord_flags true true false true = refl
chord_flags true true false false = refl
chord_flags true false true true = refl
chord_flags true false true false = refl
chord_flags true false false true = refl
chord_flags true false false false = refl
chord_flags false true true true = refl
chord_flags false true true false = refl
chord_flags false true false true = refl
chord_flags false true false false = refl
chord_flags false false true true = refl
chord_flags false false true false = refl
chord_flags false false false true = refl
chord_flags false false false false = refl

-- The combo that the settings build for a keydown of a modifier key is a chord exactly if Ctrl and
-- another modifier are among the event's modifiers, and then it is these modifiers.
pub chord-build :
    (e : KeyEvent)
    → is_modifier_key e.key ≡ true
    → chord_from_combo (build_key_combo e) ≡ (
        if e.ctrl_key && (e.alt_key || e.meta_key || e.shift_key)
        then some (record {
          ctrl = e.ctrl_key;
          shift = e.shift_key;
          alt = e.alt_key;
          meta = e.meta_key;
          key = [];
        })
        else none)
unfolding build_key_combo
chord-build e h =
    rw (h, append-nil (modifiers e)) (chord_flags e.ctrl_key e.shift_key e.alt_key e.meta_key)

chord_from_combo_complete :
    (combo : Text) (chord : ParsedHotkey)
    → chord_from_combo combo ≡ some chord
    → is_complete chord ≡ true
unfolding chord_from_combo
chord_from_combo_complete combo chord h = ground arith

pub configured_chord_complete :
    (configured : Option Text) (default_chord : ParsedHotkey)
    → is_complete default_chord ≡ true
    → is_complete (configured_chord configured default_chord) ≡ true
unfolding configured_chord
configured_chord_complete none default_chord h = h
configured_chord_complete (some combo) default_chord h =
    elim (Option-cases (chord_from_combo combo)) [
      | inl e ↦ rw (e, configured_chord) h
      | inr (chord, e) ↦ elim (Bool-cases (is_truthy combo)) [
        | inl t ↦ rw (e, configured_chord, t) (chord_from_combo_complete combo chord e)
        | inr f ↦ rw (e, configured_chord, f) h
      ]
    ]
