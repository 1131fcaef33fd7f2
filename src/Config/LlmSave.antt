-- ===== src/Config/LlmSave.antt =====
-- Saving the tab "LLM", whichever way its calls come out, and the key that is typed in.
use pair_admin.Base.{
  ◌≡◌, Bool, true, false, not, ◌&&◌, [], ◌∷◌, Text, codes, ◌==◌, any, if◌then◌else◌, is_truthy,
  arith, any-append,
}
use pair_admin.Settings.{SettingsState}
use pair_admin.Config.{SaveStatus, saved}
use pair_admin.Config.Llm.{
  LlmTab, LlmCall, save_api_key, set_model, probe_llm_connection, provider_key_status, SaveOutcome,
  handle_save, qualified, key_calls,
}

abbrev pub is_saved : SaveStatus → Bool
is_saved saved = true
is_saved _ = false

abbrev pub is_probe : LlmCall → Bool
is_probe probe_llm_connection = true
is_probe _ = false

abbrev is_key : LlmCall → Bool
is_key (save_api_key provider key) = true
is_key _ = false

abbrev pub is_disabled_provider : LlmTab → Bool
is_disabled_provider t = t.provider == codes "disabled"

-- However the calls come out, one that fails included: the dialog closes exactly if the tab reads
-- "Saved", the settings store changes only then, and the new connection is probed exactly then, unless
-- the model has been disabled.
pub handle_save-closed :
    (o : SaveOutcome) (t : LlmTab) (s : SettingsState)
    → let r = handle_save o t s in
      (is_saved r.tab.save_status ≡ r.closed)
      × (r.settings ≡ (if r.closed then r.settings else s))
      × (any is_probe r.calls ≡ (r.closed && not (is_disabled_provider t)))
unfolding handle_save
handle_save-closed o t s = (
  ground arith,
  ground arith,
  ground (
    arith,
    any-append is_probe (key_calls t) (set_model (qualified t) ∷ []),
    any-append is_probe (key_calls t) (set_model (qualified t) ∷ probe_llm_connection ∷ []),
  ),
)

-- A save that closes the dialog has stored the key if one was typed in, and has touched no key if none
-- was, or if the model has been disabled.
pub handle_save-key :
    (o : SaveOutcome) (t : LlmTab) (s : SettingsState)
    → (handle_save o t s).closed ≡ true
    → any is_key (handle_save o t s).calls ≡ (is_truthy t.api_key && not (is_disabled_provider t))
unfolding handle_save
handle_save-key o t s h = ground (
  arith,
  any-append is_key (key_calls t) (set_model (qualified t) ∷ []),
  any-append is_key (key_calls t) (set_model (qualified t) ∷ probe_llm_connection ∷ []),
)

-- A key that is typed in before the status of the stored key comes in is lost: the field is emptied,
-- and a save then stores no key, however its calls come out.
pub typed_key_lost :
    (key status : Text) (o : SaveOutcome) (t : LlmTab) (s : SettingsState)
    → any is_key (handle_save o (provider_key_status status (record t { api_key = key })) s).calls
      ≡ false
unfolding handle_save provider_key_status
typed_key_lost key status o t s = ground arith
