-- ===== src/QuickSelect/Keys.antt =====
-- What keys do while the chord is held, and while it is not.
use pair_admin.Base.{
  ℕ, ◌+◌, ◌-◌, ◌≡◌, refl, true, false, ◌&&◌, ◌||◌, Option, none, some, [], ◌∷◌, ◌++◌, Text, arith,
  get_elem?, find, or_else,
}
use pair_admin.Hotkey.{KeyEvent, Element, ParsedHotkey, is_foreign_text_entry}
use pair_admin.Command.{Command, consume_command_text, has_id}
use pair_admin.QuickSelect.{
  QuickSelectItem, ItemKind, World, select_items, fkey_number, chord_held, configured_chord,
  is_complete, clear, activate, route, choose, handle_key_down, handle_key_up,
}
use pair_admin.QuickSelect.Chord.{configured_chord_complete}
use pair_admin.QuickSelect.Labels.{select_items-label}

held-modifiers :
    (e : KeyEvent) (chord : ParsedHotkey)
    → is_complete chord ≡ true
    → (e.ctrl_key && (e.alt_key || e.meta_key || e.shift_key)) ≡ false
    → chord_held e chord ≡ false
unfolding chord_held
held-modifiers e chord c h = ground arith

consume-find :
    (id : Text) (s : pair_admin.Command.CommandState) (c : Command)
    → find (has_id id) s.commands ≡ some c
    → (consume_command_text id s).1 ≡ or_else c.temp_override c.command
unfolding consume_command_text
consume-find id s c h = rw (h, consume_command_text) refl

module _ {Term : Type 0} where
  key_down-held :
      (chord : ParsedHotkey) (active textarea : Option Element) (e : KeyEvent) (w : World Term)
      → chord_held e chord ≡ true
      → is_foreign_text_entry active textarea ≡ false
      → handle_key_down chord (active, textarea) e w ≡ route e.key w
  unfolding handle_key_down
  key_down-held chord active textarea e w h f = rw (h, f) refl

  arm : (key : Text) (w : World Term) → fkey_number key ≡ none → route key w ≡ activate w
  arm key w h = rw (h, route) refl

  press :
      (key : Text) (i : ℕ) (item : QuickSelectItem) (w : World Term)
      → fkey_number key ≡ some (i + 1)
      → get_elem? w.items i ≡ some item
      → route key w ≡ choose item w
  press key i item w h g = let place : i + 1 - 1 ≡ i = omega arith in rw (h, route, place, g) refl

  -- Outside a foreign text entry, a chorded key that is no F-key shows the overlay; then a chorded
  -- press of the F-key that labels an item chooses that item, whichever pinned commands and tabs
  -- there are.
  pub label_chooses :
      (chord : ParsedHotkey) (active textarea : Option Element) (e f : KeyEvent) (i : ℕ)
      (item : QuickSelectItem) (w : World Term)
      → is_foreign_text_entry active textarea ≡ false
      → chord_held e chord ≡ true
      → fkey_number e.key ≡ none
      → get_elem? (select_items w.commands.commands w.terminals.tabs) i ≡ some item
      → chord_held f chord ≡ true
      → f.key ≡ item.label
      → handle_key_down chord (active, textarea) f (handle_key_down chord (active, textarea) e w)
        ≡ choose item (activate w)
  unfolding activate
  label_chooses chord active textarea e f i item w foreign he ne at hf label =
      let number : fkey_number f.key ≡ some (i + 1) =
        rw label (select_items-label w.commands.commands w.terminals.tabs i item at) in
      rw
        (
          key_down-held chord active textarea e w he foreign,
          arm e.key w ne,
          key_down-held chord active textarea f (activate w) hf foreign,
        )
        (press f.key i item (activate w) number at)

  -- Whatever combo is configured, if the default chord has Ctrl and another modifier: a key
  -- pressed without Ctrl, or without another modifier beside it, is not routed and changes
  -- nothing, and its release hides the overlay and every badge.
  pub plain_key_ignored :
      (configured : Option Text) (default_chord : ParsedHotkey)
      (focus : Option Element × Option Element) (e : KeyEvent) (w : World Term)
      → is_complete default_chord ≡ true
      → (e.ctrl_key && (e.alt_key || e.meta_key || e.shift_key)) ≡ false
      → let chord = configured_chord configured default_chord in
        (handle_key_down chord focus e w ≡ w)
        × (handle_key_up chord e w ≡ record w { visible = false; store = clear })
  unfolding handle_key_down handle_key_up
  plain_key_ignored configured default_chord (active, textarea) e w d h =
      let off =
        held-modifiers e (configured_chord configured default_chord)
          (configured_chord_complete configured default_chord d) h in
      (rw off refl, rw off refl)

  -- Choosing a command that is in the store writes its text, or its one-time edit, to the active
  -- terminal, with no line end added that would submit it; the active tab and the tabs stay.
  pub choose-inserts :
      (item : QuickSelectItem) (c : Command) (w : World Term)
      → item.kind ≡ ItemKind.command
      → find (has_id item.id) w.commands.commands ≡ some c
      → let w' = choose item w in
        (w'.written
          ≡ w.written
            ++ record {
              tab_id = w.terminals.active_tab_id;
              input = or_else c.temp_override c.command;
            }
              ∷ [])
        × (w'.terminals ≡ w.terminals)
  choose-inserts item c w k h = rw (k, consume-find item.id w.commands c h) (refl, refl)
