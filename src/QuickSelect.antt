-- ===== src/QuickSelect.antt =====
-- Quick select: frontend/src/hooks/useQuickSelect.ts, frontend/src/stores/quickSelectStore.ts, and the
-- send of frontend/src/utils/sendToTerminal.ts. While a chord of modifiers is held, F1 to F12 stand for
-- the pinned commands and the tabs. The element that has the focus, and the active terminal's textarea,
-- are arguments.
pub mod Chord
pub mod Labels
pub mod Keys
pub mod Tests
use pair_admin.Base.{
  ℕ, zero, suc, ◌+◌, ◌-◌, ◌/◌, ◌%◌, Bool, true, false, not, ◌&&◌, ◌||◌, Option, none, some, List,
  [], ◌∷◌, ◌++◌, map, Text, codes, ◌==◌, if◌then◌else◌, leb, nat_eq, bool_eq, is_truthy, length,
  get_elem?, take, any, filter, split, trim, to_lower,
}
use pair_admin.Hotkey.{ParsedHotkey, KeyEvent, Element, has, is_foreign_text_entry}
use pair_admin.Command.{Command, CommandState, consume_command_text}
use pair_admin.Terminal.{TerminalTab, TerminalState, set_active_tab}

pub data ItemKind : Type 0 where
  command terminal : ItemKind

pub record QuickSelectItem : Type 0 where
  pub label : Text
  pub kind : ItemKind
  pub id : Text

abbrev modifier_names : List Text
modifier_names = codes "ctrl" ∷ codes "shift" ∷ codes "alt" ∷ codes "meta" ∷ []

abbrev is_modifier_name : Text → Bool
is_modifier_name p = has p modifier_names

abbrev chord_parts : Text → List Text
chord_parts combo = filter is_truthy (map (λ p. to_lower (trim p)) (split b'+' combo))

abbrev chord_of : List Text → ParsedHotkey
chord_of parts = record {
  ctrl = has (codes "ctrl") parts;
  shift = has (codes "shift") parts;
  alt = has (codes "alt") parts;
  meta = has (codes "meta") parts;
  key = [];
}

-- Ctrl and at least one other modifier.
abbrev pub is_complete : ParsedHotkey → Bool
is_complete chord = chord.ctrl && (chord.alt || chord.meta || chord.shift)

unfoldable pub chord_from_combo : Text → Option ParsedHotkey
chord_from_combo combo =
    let parts = chord_parts combo in
    if nat_eq (length parts) 0 || any (λ p. not (is_modifier_name p)) parts
    then none
    else if not (is_complete (chord_of parts))
    then none
    else some (chord_of parts)

abbrev pub default_quick_select_chord : Text
default_quick_select_chord = codes "Ctrl+Alt"

-- `chordRef` after the settings are read: the configured combo, if it is a string that is a chord.
unfoldable pub configured_chord : Option Text → ParsedHotkey → ParsedHotkey
configured_chord none default_chord = default_chord
configured_chord (some combo) default_chord = elim (chord_from_combo combo) [
  | none ↦ default_chord
  | some chord ↦ if is_truthy combo then chord else default_chord
]

unfoldable pub chord_held : KeyEvent → ParsedHotkey → Bool
chord_held event chord =
    bool_eq event.ctrl_key chord.ctrl
    && bool_eq event.alt_key chord.alt
    && bool_eq event.meta_key chord.meta
    && bool_eq event.shift_key chord.shift

-- The decimal digits of a number below 100.
abbrev pub decimal : ℕ → Text
decimal n = if leb 10 n then (48 + n / 10) ∷ (48 + n % 10) ∷ [] else (48 + n) ∷ []

abbrev pub with_labels : ℕ → List QuickSelectItem → List QuickSelectItem
with_labels index [] = []
with_labels index (item ∷ items) =
    record item { label = b'F' ∷ decimal (index + 1) } ∷ with_labels (index + 1) items

abbrev pub max_items : ℕ
max_items = 12

abbrev pub unlabelled : List Command → List TerminalTab → List QuickSelectItem
unlabelled commands tabs =
    map (λ (c : Command). record { label = []; kind = ItemKind.command; id = c.id })
      (filter (λ (c : Command). c.pinned) commands)
    ++ map (λ (t : TerminalTab). record { label = []; kind = ItemKind.terminal; id = t.id }) tabs

unfoldable pub select_items : List Command → List TerminalTab → List QuickSelectItem
select_items commands tabs = with_labels 0 (take max_items (unlabelled commands tabs))

-- What `Number(key.slice(1))` is on a key that `FKEY_RE` matches, and `none` on any other.
abbrev one_digit : ℕ → Option ℕ
one_digit d = if leb b'1' d && leb d b'9' then some (d - 48) else none

abbrev two_digits : ℕ → ℕ → Option ℕ
two_digits d e = if nat_eq d b'1' && (leb b'0' e && leb e b'2') then some (10 + (e - 48)) else none

unfoldable pub fkey_number : Text → Option ℕ
fkey_number [] = none
fkey_number (f ∷ []) = none
fkey_number (f ∷ d ∷ []) = if nat_eq f b'F' then one_digit d else none
fkey_number (f ∷ d ∷ e ∷ []) = if nat_eq f b'F' then two_digits d e else none
fkey_number (f ∷ d ∷ e ∷ g ∷ rest) = none

pub record QuickSelectState : Type 0 where
  pub visible : Bool
  pub command_fkeys : Text → Option Text
  pub terminal_fkeys : Text → Option Text

abbrev pub clear : QuickSelectState
clear = record { visible = false; command_fkeys = λ id. none; terminal_fkeys = λ id. none }

abbrev is_command : ItemKind → Bool
is_command ItemKind.command = true
is_command ItemKind.terminal = false

-- The labels of the items of a kind: of two with the same id, the later one's.
abbrev fkeys : (ItemKind → Bool) → List QuickSelectItem → (Text → Option Text) → Text → Option Text
fkeys p [] labels = labels
fkeys p (item ∷ items) labels =
    fkeys p items (λ id. if p item.kind && item.id == id then some item.label else labels id)

abbrev pub badges : List QuickSelectItem → QuickSelectState
badges items = record {
  visible = true;
  command_fkeys = fkeys is_command items (λ id. none);
  terminal_fkeys = fkeys (λ k. not (is_command k)) items (λ id. none);
}

-- A call of the back end's `WriteInput`.
pub record Written : Type 0 where
  pub tab_id : Text
  pub input : Text

-- `sendToTerminal`, less the move of the focus; "\r" submits a line.
abbrev pub send_to_terminal : Text → Text → Bool → Written
send_to_terminal tab text execute = record {
  tab_id = tab;
  input = if execute then text ++ 13 ∷ [] else text;
}

-- The hook's state, the stores that it reads and writes, and what it has written.
pub record World (Term : Type 0) : Type 0 where
  pub visible : Bool
  pub items : List QuickSelectItem
  pub store : QuickSelectState
  pub commands : CommandState
  pub terminals : TerminalState Term
  pub written : List Written

module _ {Term : Type 0} where
  unfoldable pub activate : World Term → World Term
  activate w =
      let next = select_items w.commands.commands w.terminals.tabs in
      record w { visible = true; items = next; store = badges next }

  abbrev pub insert_command : Text → World Term → World Term
  insert_command id w =
      let (commands, text) = consume_command_text id w.commands in
      record w {
        commands = commands;
        written = w.written ++ send_to_terminal w.terminals.active_tab_id text false ∷ [];
      }

  abbrev pub choose : QuickSelectItem → World Term → World Term
  choose item w =
      if is_command item.kind
      then insert_command item.id w
      else record w { terminals = set_active_tab item.id w.terminals }

  abbrev pub choose_at : Option QuickSelectItem → World Term → World Term
  choose_at none w = w
  choose_at (some item) w = choose item w

  -- The reaction to a chorded key outside a foreign text entry.
  abbrev pub route : Text → World Term → World Term
  route key w = elim (fkey_number key) [
    | none ↦ activate w
    | some n ↦ choose_at (get_elem? w.items (n - 1)) w
  ]

  -- The keydown handler; `focus` is the active element, with the active terminal's textarea.
  unfoldable pub handle_key_down :
      ParsedHotkey → Option Element × Option Element → KeyEvent → World Term → World Term
  handle_key_down chord (active, textarea) event w =
      if not (chord_held event chord)
      then w
      else if is_foreign_text_entry active textarea
      then w
      else route event.key w

  unfoldable pub handle_key_up : ParsedHotkey → KeyEvent → World Term → World Term
  handle_key_up chord event w =
      if not (chord_held event chord) then record w { visible = false; store = clear } else w
