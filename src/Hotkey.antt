-- ===== src/Hotkey.antt =====
-- Hotkeys of the app: frontend/src/utils/hotkey.ts (parsing and matching), the hook
-- frontend/src/hooks/useConfiguredHotkey.ts that fires them, `buildKeyCombo` and the capture field of
-- frontend/src/components/settings/HotkeysTab.tsx that produce the combos, and the focus rules of
-- frontend/src/hooks/useDefaultTerminalFocus.ts. Letter case is mapped for ASCII only.
pub mod Combo
pub mod Fires
pub mod Focus
pub mod Tests
use mathlib.Core.Bool.{not}
use pair_admin.Base.{
  ℕ, ◌&&◌, ◌||◌, Bool, true, false, Option, none, some, List, [], ◌∷◌, ◌++◌, Text, codes, ◌==◌,
  if◌then◌else◌, nat_eq, bool_eq, is_truthy, length, any, split, join, to_lower, to_upper,
}

pub record ParsedHotkey : Type 0 where
  pub ctrl : Bool
  pub shift : Bool
  pub alt : Bool
  pub meta : Bool
  pub key : Text

pub record KeyEvent : Type 0 where
  pub ctrl_key : Bool
  pub shift_key : Bool
  pub alt_key : Bool
  pub meta_key : Bool
  pub key : Text

-- `parts[parts.length - 1]` and `parts.slice(0, -1)`
abbrev pub last : List Text → Text
last [] = []
last (p ∷ []) = p
last (p ∷ q ∷ ps) = last (q ∷ ps)

abbrev pub init : List Text → List Text
init [] = []
init (p ∷ []) = []
init (p ∷ q ∷ ps) = p ∷ init (q ∷ ps)

abbrev pub has : Text → List Text → Bool
has name mods = any (λ m. m == name) mods

abbrev parse_parts : List Text → Option ParsedHotkey
parse_parts parts =
    let key = last parts in
    let mods = init parts in
    if not (is_truthy key)
    then none
    else some (record {
      ctrl = has (codes "Ctrl") mods;
      shift = has (codes "Shift") mods;
      alt = has (codes "Alt") mods;
      meta = has (codes "Meta") mods;
      key = to_lower key;
    })

unfoldable pub parse_hotkey : Text → Option ParsedHotkey
parse_hotkey combo = if not (is_truthy combo) then none else parse_parts (split b'+' combo)

unfoldable pub matches_hotkey : KeyEvent → ParsedHotkey → Bool
matches_hotkey event parsed =
    bool_eq event.ctrl_key parsed.ctrl
    && bool_eq event.shift_key parsed.shift
    && bool_eq event.alt_key parsed.alt
    && bool_eq event.meta_key parsed.meta
    && to_lower event.key == parsed.key

-- An element of the page: `node` is its identity, by which `===` compares, `type_name` the type of an
-- `<input>`.
pub record Element : Type 0 where
  pub node : ℕ
  pub tag_name : Text
  pub is_content_editable : Bool
  pub type_name : Text

abbrev pub is_textarea : Element → Option Element → Bool
is_textarea el none = false
is_textarea el (some t) = nat_eq el.node t.node

unfoldable pub is_foreign_text_entry : Option Element → Option Element → Bool
is_foreign_text_entry none terminal_textarea = false
is_foreign_text_entry (some el) terminal_textarea =
    if is_textarea el terminal_textarea
    then false
    else if el.tag_name == codes "TEXTAREA" || el.tag_name == codes "INPUT"
    then true
    else el.is_content_editable

-- `comboRef` after the settings are read: the configured combo, if it is a string and not empty.
abbrev pub configured : Option Text → Text → Text
configured none default_combo = default_combo
configured (some value) default_combo = if is_truthy value then value else default_combo

-- The key handler: whether the hotkey fires, the event is stopped and `onMatch` is called.
unfoldable pub handler : Text → Option Element → Option Element → KeyEvent → Bool
handler combo active terminal_textarea event = elim (parse_hotkey combo) [
  | none ↦ false
  | some parsed ↦
      matches_hotkey event parsed && not (is_foreign_text_entry active terminal_textarea)
]

abbrev pub flag : Bool → Text → List Text
flag true name = name ∷ []
flag false name = []

abbrev pub modifiers : KeyEvent → List Text
modifiers event =
    flag event.ctrl_key (codes "Ctrl")
    ++ (flag event.shift_key (codes "Shift")
        ++ (flag event.alt_key (codes "Alt") ++ flag event.meta_key (codes "Meta")))

abbrev pub is_modifier_key : Text → Bool
is_modifier_key key = has key (codes "Control" ∷ codes "Shift" ∷ codes "Alt" ∷ codes "Meta" ∷ [])

abbrev pub key_part : Text → List Text
key_part key =
    if not (is_modifier_key key)
    then (if nat_eq (length key) 1 then to_upper key else key) ∷ []
    else []

unfoldable pub build_key_combo : KeyEvent → Text
build_key_combo event = join (codes "+") (modifiers event ++ key_part event.key)

-- The capture field takes the first keydown that gives a combo, and then loses the focus.
unfoldable pub capture : List KeyEvent → Option Text
capture [] = none
capture (e ∷ es) =
    let rest = capture es in
    if is_truthy (build_key_combo e) then some (build_key_combo e) else rest

abbrev pub text_entry_input_types : List Text
text_entry_input_types =
    codes "text"
    ∷ codes "password"
    ∷ codes "number"
    ∷ codes "search"
    ∷ codes "email"
    ∷ codes "url"
    ∷ codes "tel"
    ∷ codes "date"
    ∷ codes "datetime-local"
    ∷ codes "month"
    ∷ codes "time"
    ∷ codes "week"
    ∷ []

unfoldable pub is_text_entry_element : Option Element → Bool
is_text_entry_element none = false
is_text_entry_element (some el) =
    if el.tag_name == codes "TEXTAREA"
    then true
    else if el.is_content_editable
    then true
    else if el.tag_name == codes "INPUT"
    then has (to_lower el.type_name) text_entry_input_types
    else false

-- Whether `refocusTerminal` moves the focus to the active terminal, if that has one on screen.
unfoldable pub refocuses : Bool → Option Element → Bool
refocuses dialog_open active = not dialog_open && not (is_text_entry_element active)
