-- ===== src/Hotkey/Tests.antt =====
-- The hotkeys at concrete key events.
use pair_admin.Base.{
  ◌≡◌, refl, Bool, true, false, none, some, [], ◌∷◌, Text, codes, ◌==◌, split, join, to_lower,
  to_upper,
}
use pair_admin.Hotkey.{
  KeyEvent, Element, matches_hotkey, is_foreign_text_entry, parse_hotkey, build_key_combo, capture,
  handler,
}

abbrev press : Bool → Bool → Text → KeyEvent
press ctrl shift key = record {
  ctrl_key = ctrl;
  shift_key = shift;
  alt_key = false;
  meta_key = false;
  key = key;
}

abbrev search_field : Element
search_field = record {
  node = 4;
  tag_name = codes "INPUT";
  is_content_editable = false;
  type_name = codes "text";
}

test_parse :
    parse_hotkey (codes "Ctrl+Shift+N")
    ≡ some (record { ctrl = true; shift = true; alt = false; meta = false; key = codes "n" })
unfolding parse_hotkey split to_lower ◌==◌
test_parse = refl

test_build : build_key_combo (press true true (codes "k")) ≡ codes "Ctrl+Shift+K"
unfolding build_key_combo join to_upper ◌==◌
test_build = refl

-- The keydown of a modifier comes before that of the key, and is taken.
test_capture :
    capture (press true false (codes "Control") ∷ press true false (codes "k") ∷ [])
    ≡ some (codes "Ctrl")
unfolding capture build_key_combo join ◌==◌
test_capture = refl

test_typing :
    handler (codes "Ctrl+K") (some search_field) none (press true false (codes "k")) ≡ false
unfolding handler parse_hotkey split to_lower matches_hotkey is_foreign_text_entry ◌==◌
test_typing = refl
