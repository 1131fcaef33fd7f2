-- ===== src/Config/Hotkeys.antt =====
-- The loading and saving of the tab "Hotkeys": frontend/src/components/settings/HotkeysTab.tsx.
use pair_admin.Base.{◌≡◌, refl, [], ◌∷◌, Text, codes, ◌==◌, if◌then◌else◌, is_truthy}
use pair_admin.Config.{text, Config, Partial, merged, load_text}

pub record HotkeysTab : Type 0 where
  pub hotkey_copy_last : Text
  pub hotkey_focus_window : Text
  pub hotkey_add_clipboard_command : Text
  pub hotkey_new_terminal : Text
  pub hotkey_add_command : Text
  pub hotkey_quick_select : Text
  pub hotkey_copy_mode : Text

unfoldable pub load : Config → HotkeysTab → HotkeysTab
load cfg t = record t {
  hotkey_copy_last = load_text (cfg (codes "HotkeyCopyLast")) t.hotkey_copy_last;
  hotkey_focus_window = load_text (cfg (codes "HotkeyFocusWindow")) t.hotkey_focus_window;
  hotkey_add_clipboard_command =
      load_text (cfg (codes "HotkeyAddClipboardCommand")) t.hotkey_add_clipboard_command;
  hotkey_new_terminal = load_text (cfg (codes "HotkeyNewTerminal")) t.hotkey_new_terminal;
  hotkey_add_command = load_text (cfg (codes "HotkeyAddCommand")) t.hotkey_add_command;
  hotkey_quick_select = load_text (cfg (codes "HotkeyQuickSelect")) t.hotkey_quick_select;
  hotkey_copy_mode = load_text (cfg (codes "HotkeyCopyMode")) t.hotkey_copy_mode;
}

unfoldable pub to_save : HotkeysTab → Partial
to_save t =
    (codes "HotkeyCopyLast", text t.hotkey_copy_last)
    ∷ (codes "HotkeyFocusWindow", text t.hotkey_focus_window)
    ∷ (codes "HotkeyAddClipboardCommand", text t.hotkey_add_clipboard_command)
    ∷ (codes "HotkeyNewTerminal", text t.hotkey_new_terminal)
    ∷ (codes "HotkeyAddCommand", text t.hotkey_add_command)
    ∷ (codes "HotkeyQuickSelect", text t.hotkey_quick_select)
    ∷ (codes "HotkeyCopyMode", text t.hotkey_copy_mode)
    ∷ []

abbrev pub shown : Text → Text → Text
shown saved before = if is_truthy saved then saved else before

-- A tab that is opened after a save shows every hotkey that was saved, and its own default in place of
-- one that was saved empty.
pub load-to_save :
    (t before : HotkeysTab) (cfg : Config)
    → load (merged (to_save t) cfg) before ≡ record {
      hotkey_copy_last = shown t.hotkey_copy_last before.hotkey_copy_last;
      hotkey_focus_window = shown t.hotkey_focus_window before.hotkey_focus_window;
      hotkey_add_clipboard_command =
          shown t.hotkey_add_clipboard_command before.hotkey_add_clipboard_command;
      hotkey_new_terminal = shown t.hotkey_new_terminal before.hotkey_new_terminal;
      hotkey_add_command = shown t.hotkey_add_command before.hotkey_add_command;
      hotkey_quick_select = shown t.hotkey_quick_select before.hotkey_quick_select;
      hotkey_copy_mode = shown t.hotkey_copy_mode before.hotkey_copy_mode;
    }
unfolding load to_save merged ◌==◌
load-to_save t before cfg = refl
