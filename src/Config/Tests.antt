-- ===== src/Config/Tests.antt =====
-- The configuration at concrete tabs; the parser of URLs knows two texts.
use pair_admin.Base.{
  alerts, ◌≡◌, refl, ◌↔◌, true, false, not, ◌&&◌, ◌||◌, none, some, ◌==◌, [], ◌∷◌, Text, codes, any,
  if◌then◌else◌, Option, pos, negsuc, trim, trim_start, trim_end, is_space, to_lower, lower_code,
  show, List,
}
use pair_admin.Settings
use pair_admin.Config.{
  Config, Partial, text, flag, number, merged, SyncWorld, get_settings, save_settings, sync_steps,
  one_by_one,
}
use pair_admin.Config.Terminals.{TerminalsTab, IsWithin, clamped, to_save-IsWithin}
use pair_admin.Config.Llm.{
  model_suggestions, LlmTab, SaveOutcome, handle_save, provider_key_status, model_badges,
}
use pair_admin.Config.Loopback.{is_remote_ollama}
use pair_admin.Config.{property}
use pair_admin.Config.Hotkeys.{HotkeysTab}
use pair_admin.Config.Fired.{copy_mode, config_key, combo_of, saved_fires}
use pair_admin.Hotkey.{KeyEvent, build_key_combo, handler, is_foreign_text_entry}
use pair_admin.Hotkey.Combo.{IsPlain}
use pair_admin.Config.LlmSave.{is_saved, is_probe, is_disabled_provider, handle_save-closed}
use pair_admin.Config.Types.{prompts, llm_disabled}
use pair_admin.Config.Typed.{IsTyped, TabStep, reads, writes, sync_all, saves-IsTyped}
use pair_admin.Config.LlmView.{view, remote_alert, server_fields}
use pair_admin.Config.LlmShown.{address_warned}

abbrev world : SyncWorld
world = record { stored = λ key. none; current = λ i. none }

abbrev prompt : Partial
prompt = (codes "CustomPrompt", text (codes "p")) ∷ []

abbrev model : Partial
model = (codes "Model", text (codes "m")) ∷ []

abbrev terminals : TerminalsTab
terminals = record pair_admin.Config.Terminals.initial {
  atspi_polling_ms = negsuc 4;
  clipboard_clear_secs = pos 0;
  terminals_sidebar_width_ch = pos 900;
}

abbrev gpt : LlmTab
gpt = record pair_admin.Config.Llm.initial { model = codes "gpt"; api_key = codes "sk" }

abbrev fine : SaveOutcome
fine = record { settings_saved = true; key_saved = true; model_set = some (codes "openai:gpt") }

handle_save-closed_example :
    let r = handle_save fine gpt pair_admin.Settings.initial in
    (is_saved r.tab.save_status ≡ r.closed)
    × (r.settings ≡ (if r.closed then r.settings else pair_admin.Settings.initial))
    × (any is_probe r.calls ≡ (r.closed && not (is_disabled_provider gpt)))
handle_save-closed_example = handle_save-closed fine gpt pair_admin.Settings.initial

-- What the parser makes of the texts that are used here.
abbrev hostname_of : Text → Option Text
hostname_of url =
    if url == codes "http://192.168.1.5:11434"
    then some (codes "192.168.1.5")
    else if url == codes "localhost:11434"
    then some []
    else none

abbrev remote : LlmTab
remote = record gpt { provider = codes "ollama"; ollama_host = codes "HTTP://192.168.1.5:11434" }

test_badges :
    model_badges
      (record { id = []; name = []; context = 200000; reasoning = true; tool_call = false })
    ≡ codes "Reasoning" ∷ codes "195k context" ∷ []
unfolding model_badges show
test_badges = refl

abbrev press : KeyEvent
press = record {
  ctrl_key = true;
  shift_key = false;
  alt_key = false;
  meta_key = false;
  key = codes "K";
}

abbrev hotkeys : HotkeysTab
hotkeys = record {
  hotkey_copy_last = [];
  hotkey_focus_window = [];
  hotkey_add_clipboard_command = [];
  hotkey_new_terminal = [];
  hotkey_add_command = [];
  hotkey_quick_select = [];
  hotkey_copy_mode = build_key_combo press;
}

k-IsPlain : IsPlain (codes "K")
unfolding ◌==◌
k-IsPlain = (refl, refl, refl)

model-absent : property (config_key copy_mode) model ≡ none
unfolding ◌==◌
model-absent = refl

saved_fires_example :
    let cfg =
      (sync_steps
        (one_by_one 0 (pair_admin.Config.Hotkeys.to_save hotkeys ∷ model ∷ []))
        world).stored in
    (handler (combo_of copy_mode cfg) none none press ≡ true) ↔ (
      (true ≡ true)
      × (false ≡ false)
      × (false ≡ false)
      × (false ≡ false)
      × (to_lower (codes "K") ≡ to_lower (codes "K"))
      × (is_foreign_text_entry none none ≡ false))
saved_fires_example =
    saved_fires copy_mode 0 hotkeys (model ∷ []) world press press none none k-IsPlain (refl, tt)
      (refl, tt) refl (model-absent, tt)

-- Two tabs save at the same time.
abbrev overlapping : List TabStep
overlapping = reads 0 ∷ reads 1 ∷ writes 0 (prompts (codes "p")) ∷ writes 1 llm_disabled ∷ []

saves-IsTyped_example : IsTyped (sync_steps (sync_all overlapping) world).stored
saves-IsTyped_example = saves-IsTyped overlapping world (λ key v e. cc e) (λ i. refl)

address_warned_example :
    let r = is_remote_ollama hostname_of remote in
    (alerts remote_alert (server_fields r remote) ≡ true)
    × ((alerts remote_alert (view r remote) || false) ≡ true)
unfolding ◌==◌ trim trim_start trim_end is_space to_lower lower_code show
address_warned_example = address_warned hostname_of remote 192 168 1 5 refl refl refl
