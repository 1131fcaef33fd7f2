-- ===== src/QuickSelect/Tests.antt =====
-- Quick select at a concrete sidebar and tab list; a terminal is a number here.
use pair_admin.Base.{
  ℕ, ◌≡◌, refl, true, false, none, some, [], ◌∷◌, Text, codes, ◌==◌, split, trim, to_lower,
}
use pair_admin.Hotkey.{KeyEvent, ParsedHotkey, is_foreign_text_entry}
use pair_admin.Command.{Command, entry}
use pair_admin.Terminal.{TerminalTab, TerminalState, no_details}
use pair_admin.QuickSelect.{
  QuickSelectItem, ItemKind, World, clear, activate, choose, select_items, fkey_number,
  chord_from_combo, default_quick_select_chord, handle_key_down, chord_held,
}
use pair_admin.QuickSelect.Keys.{label_chooses}

abbrev card : Text → Command
card text =
    entry text 1 (codes "t") (record { command = text; original_question = []; name = none }) true

abbrev tab : Text → TerminalTab
tab id = record { id = id; name = id; details = no_details }

abbrev world : World ℕ
world = record {
  visible = false;
  items = [];
  store = clear;
  commands = record {
    commands = card (codes "df") ∷ card (codes "ls") ∷ [];
    add_command_dialog_open = false;
  };
  terminals = record pair_admin.Terminal.initial {
    tabs = tab (codes "a") ∷ [];
    active_tab_id = codes "a";
  };
  written = [];
}

abbrev ctrl_alt : ParsedHotkey
ctrl_alt = record { ctrl = true; shift = false; alt = true; meta = false; key = [] }

abbrev press : Text → KeyEvent
press key = record {
  ctrl_key = true;
  shift_key = false;
  alt_key = true;
  meta_key = false;
  key = key;
}

abbrev bare : Text → KeyEvent
bare key = record {
  ctrl_key = false;
  shift_key = false;
  alt_key = false;
  meta_key = false;
  key = key;
}

abbrev ls_item : QuickSelectItem
ls_item = record { label = codes "F2"; kind = ItemKind.command; id = codes "ls" }

test_default : chord_from_combo default_quick_select_chord ≡ some ctrl_alt
unfolding chord_from_combo split trim to_lower ◌==◌
test_default = refl

label_chooses_example :
    handle_key_down ctrl_alt
      (none, none)
      (press (codes "F2"))
      (handle_key_down ctrl_alt (none, none) (press (codes "Alt")) world)
    ≡ choose ls_item (activate world)
unfolding chord_held fkey_number select_items is_foreign_text_entry
label_chooses_example =
    label_chooses ctrl_alt none none (press (codes "Alt")) (press (codes "F2")) 1 ls_item world refl
      refl refl refl refl refl
