-- ===== src/Config/Fired.antt =====
-- From the tab "Hotkeys" to the key that fires: the hooks useNewTerminalHotkey.ts, useAddCommandHotkey.ts,
-- useCopyModeHotkey.ts and useAddClipboardCommandHotkey.ts of frontend/src/hooks, with the reading of
-- the settings in frontend/src/hooks/useConfiguredHotkey.ts.
use pair_admin.Base.{
  ℕ, ◌≡◌, ◌↔◌, ◌≢◌, refl, ap, ◌∙◌, true, false, Option, none, some, List, [], ◌∷◌, Text, codes,
  ◌==◌, All, IsAscii, is_truthy, to_lower, arith,
}
use pair_admin.Config.{
  ConfigValue, Config, text, Partial, property, SyncWorld, sync_steps, one_by_one, value_or,
}
use pair_admin.Config.Merge.{one_by_one-last_value, last_value-absent}
use pair_admin.Config.Hotkeys.{HotkeysTab, to_save}
use pair_admin.Hotkey.{
  KeyEvent, Element, is_foreign_text_entry, handler, build_key_combo, configured, parse_hotkey,
}
use pair_admin.Hotkey.Combo.{IsPlain, parse-build}
use pair_admin.Hotkey.Fires.{fires_iff}

pub data HotkeyAction : Type 0 where
  new_terminal add_command copy_mode add_clipboard_command : HotkeyAction

abbrev default_new_terminal_hotkey : Text
default_new_terminal_hotkey = codes "Ctrl+Shift+N"

abbrev default_add_command_hotkey : Text
default_add_command_hotkey = codes "Ctrl+Shift+P"

abbrev default_copy_mode_hotkey : Text
default_copy_mode_hotkey = codes "Ctrl+Shift+C"

abbrev default_add_clipboard_command_hotkey : Text
default_add_clipboard_command_hotkey = codes "Ctrl+Shift+A"

abbrev default_hotkey : HotkeyAction → Text
default_hotkey new_terminal = default_new_terminal_hotkey
default_hotkey add_command = default_add_command_hotkey
default_hotkey copy_mode = default_copy_mode_hotkey
default_hotkey add_clipboard_command = default_add_clipboard_command_hotkey

abbrev pub config_key : HotkeyAction → Text
config_key new_terminal = codes "HotkeyNewTerminal"
config_key add_command = codes "HotkeyAddCommand"
config_key copy_mode = codes "HotkeyCopyMode"
config_key add_clipboard_command = codes "HotkeyAddClipboardCommand"

-- `typeof value === "string"`
abbrev string_of : Option ConfigValue → Option Text
string_of (some (text t)) = some t
string_of _ = none

-- `comboRef.current` after the settings are read.
unfoldable pub combo_of : HotkeyAction → Config → Text
combo_of a cfg = configured (string_of (cfg (config_key a))) (default_hotkey a)

-- The field of the tab for an action.
abbrev pub field : HotkeyAction → HotkeysTab → Text
field new_terminal t = t.hotkey_new_terminal
field add_command t = t.hotkey_add_command
field copy_mode t = t.hotkey_copy_mode
field add_clipboard_command t = t.hotkey_add_clipboard_command

property-to_save :
    (a : HotkeyAction) (t : HotkeysTab)
    → property (config_key a) (to_save t) ≡ some (text (field a t))
unfolding to_save ◌==◌
property-to_save new_terminal t = refl
property-to_save add_command t = refl
property-to_save copy_mode t = refl
property-to_save add_clipboard_command t = refl

is_truthy-parsed : (combo : Text) → parse_hotkey combo ≢ none → is_truthy combo ≡ true
unfolding parse_hotkey
is_truthy-parsed [] h = absurd (h refl)
is_truthy-parsed (x ∷ xs) h = refl

is_truthy-build : (e : KeyEvent) → IsPlain e.key → is_truthy (build_key_combo e) ≡ true
is_truthy-build e h =
    is_truthy-parsed (build_key_combo e) (λ k. let parsed = parse-build e h in ground arith)

-- The hotkey of an action, once the tab has been saved with it.
combo_of-saved :
    (a : HotkeyAction) (i : ℕ) (t : HotkeysTab) (ps : List Partial) (w : SyncWorld)
    → All (λ p. property (config_key a) p ≡ none) ps
    → is_truthy (field a t) ≡ true
    → combo_of a (sync_steps (one_by_one i (to_save t ∷ ps)) w).stored ≡ field a t
unfolding combo_of
combo_of-saved a i t ps w h k =
    let saved : (sync_steps (one_by_one i (to_save t ∷ ps)) w).stored (config_key a)
        ≡ some (text (field a t)) =
      one_by_one-last_value (config_key a) i (to_save t ∷ ps) w
      ∙ last_value-absent (config_key a) ps _ h
      ∙ ap (λ v. value_or v (w.stored (config_key a))) (property-to_save a t) in
    rw (saved, k) refl

-- Capture a hotkey for one of four actions from the key event `e`, whose key is ASCII, is not a modifier, has
-- a text and has no "+" in it; save the tab, and then anything that has no hotkey for the action, one save after
-- the other. After the next start the action is run on a key event with an ASCII key exactly if that has the four modifiers
-- of `e`, its key up to letter case, and the focus is in no text entry but the terminal's own: the default
-- hotkey no longer runs it.
pub saved_fires :
    (a : HotkeyAction) (i : ℕ) (t : HotkeysTab) (ps : List Partial) (w : SyncWorld)
    (e event : KeyEvent) (active terminal_textarea : Option Element)
    → IsPlain e.key
    → IsAscii e.key
    → IsAscii event.key
    → field a t ≡ build_key_combo e
    → All (λ p. property (config_key a) p ≡ none) ps
    → let cfg = (sync_steps (one_by_one i (to_save t ∷ ps)) w).stored in
      (handler (combo_of a cfg) active terminal_textarea event ≡ true) ↔ (
        (event.ctrl_key ≡ e.ctrl_key)
        × (event.shift_key ≡ e.shift_key)
        × (event.alt_key ≡ e.alt_key)
        × (event.meta_key ≡ e.meta_key)
        × (to_lower event.key ≡ to_lower e.key)
        × (is_foreign_text_entry active terminal_textarea ≡ false))
saved_fires a i t ps w e event active terminal_textarea h _ _ c k =
    let combo = combo_of-saved a i t ps w k (ap is_truthy c ∙ is_truthy-build e h) ∙ c in
    rw combo (fires_iff e event active terminal_textarea h)
