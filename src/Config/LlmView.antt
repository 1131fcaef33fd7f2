-- ===== src/Config/LlmView.antt =====
-- What the tab "LLM" shows: the markup of frontend/src/components/settings/LLMConfigTab.tsx. That the list
-- of suggestions opens and closes with the focus of the field is not part of it.
use pair_admin.Base.{
  Bool, true, false, not, ◌&&◌, List, [], ◌∷◌, ◌++◌, Text, codes, ◌==◌, if◌then◌else◌, ltb, length,
  Widget, words, alert, button, text_field, secret_field, choice, when, find,
}
use pair_admin.Config.{SaveStatus, saving, saved, error}
use pair_admin.Config.Llm.{
  CatalogModel, CatalogProvider, LlmTab, TestStatus, testing, ok, failed, model_suggestions,
  models_of, model_badges, requires_api_key,
}

pub data Action : Type 0 where
  choose_provider type_model pick_model type_ollama_host type_lmstudio_host type_key : Text → Action
  test_clicked save_clicked : Action

-- The handlers of the fields; the two buttons are `handle_test_connection` and `handle_save`.
unfoldable pub edit : Action → LlmTab → LlmTab
edit (choose_provider p) t = record t { provider = p; model_open = false }
edit (type_model m) t = record t { model = m; model_open = true }
edit (pick_model m) t = record t { model = m; model_open = false }
edit (type_ollama_host h) t = record t { ollama_host = h }
edit (type_lmstudio_host h) t = record t { lmstudio_host = h }
edit (type_key k) t = record t { api_key = k }
edit test_clicked t = t
edit save_clicked t = t

abbrev pub is_disabled : LlmTab → Bool
is_disabled t = t.provider == codes "disabled"

abbrev pub provider_options : List CatalogProvider → List (Text × Action)
provider_options [] = (codes "Disable Pair LLM", choose_provider (codes "disabled")) ∷ []
provider_options (p ∷ ps) = (p.name, choose_provider p.id) ∷ provider_options ps

abbrev pub badges : List Text → List (Widget Action)
badges [] = []
badges (b ∷ bs) = words b ∷ badges bs

-- The list of suggestions, each with its badges.
unfoldable pub suggestion_rows : List CatalogModel → List (Widget Action)
suggestion_rows [] = []
suggestion_rows (m ∷ ms) =
    button m.id false (pick_model m.id) ∷ badges (model_badges m) ++ suggestion_rows ms

abbrev catalog_models : LlmTab → List CatalogModel
catalog_models t = models_of (find (λ (p : CatalogProvider). p.id == t.provider) t.providers)

unfoldable pub model_fields : LlmTab → List (Widget Action)
model_fields t =
    text_field (codes "Model") t.model type_model ∷ suggestion_rows (model_suggestions t)
    ++ when (ltb 0 (length (catalog_models t))) (
        words (codes "Suggestions from the curated catalog — you can still type any model id.")
        ∷ [])

abbrev pub remote_alert : Text
remote_alert =
    codes "⚠ Terminal output will be sent to a remote Ollama server — only use a host you control."

-- The field of the server, if the provider has one; `is_remote` tells that its warning shows.
unfoldable pub server_fields : (is_remote : Bool) → LlmTab → List (Widget Action)
server_fields is_remote t =
    if not (is_disabled t) && (t.provider == codes "ollama")
    then text_field (codes "Server URL") t.ollama_host type_ollama_host
      ∷ when is_remote (alert remote_alert ∷ [])
    else if t.provider == codes "lmstudio"
    then text_field (codes "Server URL") t.lmstudio_host type_lmstudio_host
      ∷ words (codes "Works with any OpenAI-compatible server, not just LM Studio")
      ∷ []
    else []

unfoldable pub key_fields : LlmTab → List (Widget Action)
key_fields t =
    if not (is_disabled t) && requires_api_key t
    then secret_field (codes "API Key") t.api_key type_key ∷ []
    else if t.provider == codes "ollama"
    then secret_field (codes "Ollama API key") t.api_key type_key
      ∷ words (codes "Leave empty for a local Ollama.")
      ∷ []
    else if not (is_disabled t)
    then words (codes "No API key required for " ++ t.provider) ∷ []
    else []

abbrev is_testing : TestStatus → Bool
is_testing testing = true
is_testing _ = false

abbrev test_result : TestStatus → Text → List (Widget Action)
test_result ok message = words (codes "✓ " ++ message) ∷ []
test_result failed message = alert (codes "✗ " ++ message) ∷ []
test_result _ message = []

unfoldable pub test_buttons : LlmTab → List (Widget Action)
test_buttons t =
    button (if is_testing t.test_status then codes "Testing..." else codes "Test Connection")
      (is_testing t.test_status) test_clicked
    ∷ test_result t.test_status t.test_message

abbrev pub save_label : SaveStatus → Text
save_label saving = codes "Saving..."
save_label saved = codes "Saved!"
save_label _ = codes "Save"

abbrev pub is_saving : SaveStatus → Bool
is_saving saving = true
is_saving _ = false

abbrev pub save_error : {A : Type 0} → SaveStatus → List (Widget A)
save_error error = alert (codes "Save failed") ∷ []
save_error _ = []

unfoldable pub save_button : LlmTab → List (Widget Action)
save_button t =
    button (save_label t.save_status) (is_saving t.save_status) save_clicked
    ∷ save_error t.save_status

unfoldable pub view : (is_remote : Bool) → LlmTab → List (Widget Action)
view is_remote t =
    choice (codes "Provider") (provider_options t.providers) ∷ []
    ++ (when (not (is_disabled t)) (model_fields t)
        ++ (server_fields is_remote t
            ++ (key_fields t ++ (when (not (is_disabled t)) (test_buttons t) ++ save_button t))))
