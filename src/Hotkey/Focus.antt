-- ===== src/Hotkey/Focus.antt =====
-- The two rules for text entry, compared: where a hotkey holds back, and where a click leaves the focus.
use pair_admin.Base.{◌≡◌, ◌↔◌, true, false, Option, some, codes, arith, eq_iff, to_lower}
use pair_admin.Hotkey.{
  Element, is_textarea, is_foreign_text_entry, is_text_entry_element, has, text_entry_input_types,
}

-- An `<input>` of a type that is not written into, such as a checkbox.
abbrev IsIdleInput : Element → Type 0
IsIdleInput el =
    (el.tag_name ≡ codes "INPUT")
    × (el.is_content_editable ≡ false)
    × (has (to_lower el.type_name) text_entry_input_types ≡ false)

-- On an element other than the active terminal's own textarea, the focus rule counts as text entry
-- exactly what the hotkey rule counts as foreign text entry, less the inputs that are not written into.
pub text_entry_iff :
    (el : Element) (terminal_textarea : Option Element)
    → is_textarea el terminal_textarea ≡ false
    → (is_text_entry_element (some el) ≡ true)
      ↔ ((is_foreign_text_entry (some el) terminal_textarea ≡ true) × ¬ (IsIdleInput el))
unfolding is_text_entry_element is_foreign_text_entry
text_entry_iff el terminal_textarea h =
    ground (arith, eq_iff el.tag_name (codes "INPUT"), eq_iff el.tag_name (codes "TEXTAREA"))
