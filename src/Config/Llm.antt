-- ===== src/Config/Llm.antt =====
-- The tab "LLM": frontend/src/components/settings/LLMConfigTab.tsx. The list of providers and the status
-- of a key come from the back end. A call of the back end is returned by the handler that makes it; for
-- `handleSave`, which awaits several, how they come out is an argument.
use pair_admin.Base.{
  ℕ, ◌+◌, ◌/◌, Bool, true, false, not, ◌&&◌, Option, none, some, List, [], ◌∷◌, ◌++◌, Text, codes,
  ◌==◌, any, filter, find, if◌then◌else◌, is_truthy, trim, to_lower, includes, nat_eq, show,
}
use Prim.Native.Nat.{max}
use pair_admin.Scanner.{Rejection}
use pair_admin.Connect.{wails_error_message}
use pair_admin.Settings.{SettingsState, set_active_model, set_connection_status, disabled}
use pair_admin.Config.{text, Config, Partial, load_text, SaveStatus, idle, saved, error}

pub record CatalogModel : Type 0 where
  pub id : Text
  pub name : Text
  pub context : ℕ
  pub reasoning : Bool
  pub tool_call : Bool

pub record CatalogProvider : Type 0 where
  pub id : Text
  pub name : Text
  pub adapter : Text
  pub models : List CatalogModel

abbrev no_key_providers : List Text
no_key_providers = codes "ollama" ∷ codes "lmstudio" ∷ []

-- `Math.round(context / 1024)`, at least 1
abbrev context_badge : ℕ → Text
context_badge context = show (max 1 ((context + 512) / 1024)) ++ codes "k context"

unfoldable pub model_badges : CatalogModel → List Text
model_badges m =
    (if m.reasoning then codes "Reasoning" ∷ [] else [])
    ++ ((if m.tool_call then codes "Tool-call" ∷ [] else [])
        ++ (if nat_eq m.context 0 then [] else context_badge m.context ∷ []))

pub data TestStatus : Type 0 where
  untested testing ok failed : TestStatus

pub record LlmTab : Type 0 where
  pub providers : List CatalogProvider
  pub model_open : Bool
  pub provider : Text
  pub model : Text
  pub api_key : Text
  pub key_placeholder : Text
  pub ollama_host : Text
  pub lmstudio_host : Text
  pub test_status : TestStatus
  pub test_message : Text
  pub save_status : SaveStatus

abbrev pub initial : LlmTab
initial = record {
  providers = [];
  model_open = false;
  provider = codes "openai";
  model = [];
  api_key = [];
  key_placeholder = [];
  ollama_host = [];
  lmstudio_host = [];
  test_status = untested;
  test_message = [];
  save_status = idle;
}

unfoldable pub settings_loaded : Config → LlmTab → LlmTab
settings_loaded cfg t = record t {
  provider = load_text (cfg (codes "Provider")) t.provider;
  model = load_text (cfg (codes "Model")) t.model;
  ollama_host = load_text (cfg (codes "OllamaHost")) t.ollama_host;
  lmstudio_host = load_text (cfg (codes "LMStudioHost")) t.lmstudio_host;
}

-- Eight bullets and "(stored)", if there is a key.
abbrev pub placeholder : Text → Text
placeholder status = if is_truthy status then codes "•••••••• (stored)" else []

-- `GetAPIKeyStatus` has answered the call of the mount.
unfoldable pub key_status_loaded : Text → LlmTab → LlmTab
key_status_loaded status t = record t { key_placeholder = placeholder status }

unfoldable pub catalog_loaded : List CatalogProvider → LlmTab → LlmTab
catalog_loaded catalog t = record t { providers = catalog }

-- `GetAPIKeyStatus` has answered the call of the effect that runs at the mount and on every change of the
-- provider.
unfoldable pub provider_key_status : Text → LlmTab → LlmTab
provider_key_status status t = record t { key_placeholder = placeholder status; api_key = [] }

pub data LlmCall : Type 0 where
  test_connection : (provider model host key : Text) → LlmCall
  merge_and_save_settings : Partial → LlmCall
  save_api_key : (provider key : Text) → LlmCall
  set_model : Text → LlmCall
  probe_llm_connection : LlmCall

abbrev pub test_error : Text → LlmTab → LlmTab
test_error message t = record t { test_status = failed; test_message = message }

abbrev host_url : LlmTab → Text
host_url t =
    if t.provider == codes "ollama"
    then t.ollama_host
    else if t.provider == codes "lmstudio"
    then t.lmstudio_host
    else []

unfoldable pub handle_test_connection : LlmTab → LlmTab × List LlmCall
handle_test_connection t =
    if includes t.model (codes "\\")
    then (
      test_error
          (codes "Model ID contains a backslash — use a forward slash (e.g. google/gemma-3-27b-it)")
          t,
      [],
    )
    else if not (is_truthy (trim t.model)) && not (t.provider == codes "ollama")
    then (test_error (codes "Enter or select a model before testing the connection") t, [])
    else (
      record t { test_status = testing; test_message = [] },
      test_connection t.provider t.model (host_url t) t.api_key ∷ [],
    )

-- `TestConnection` has returned; `used_typed_key` is of the time of the call.
unfoldable pub tested : (used_typed_key : Bool) → Text → LlmTab → LlmTab
tested used_typed_key result t =
    let base = if is_truthy result then result else codes "Connected" in
    record t {
      test_status = ok;
      test_message =
          base
          ++ (if used_typed_key
              then codes " (using the key you entered)"
              else codes " (using the saved key)");
    }

unfoldable pub test_rejected : Rejection → LlmTab → LlmTab
test_rejected err t = test_error (wails_error_message err (codes "Connection failed")) t

-- How the calls of `handleSave` come out: whether the configuration and the key are saved, and what
-- `SetModel` returns, if it does.
pub record SaveOutcome : Type 0 where
  pub settings_saved : Bool
  pub key_saved : Bool
  pub model_set : Option Text

-- The calls made, in order, the tab, the settings store, and whether the dialog closes.
pub record SaveResult : Type 0 where
  pub calls : List LlmCall
  pub tab : LlmTab
  pub settings : SettingsState
  pub closed : Bool

abbrev pub ended : List LlmCall → SaveStatus → LlmTab → SettingsState → Bool → SaveResult
ended calls status t s closed = record {
  calls = calls;
  tab = record t { save_status = status };
  settings = s;
  closed = closed;
}

abbrev pub llm_partial : LlmTab → Partial
llm_partial t =
    (codes "Provider", text t.provider)
    ∷ (codes "Model", text t.model)
    ∷ (codes "OllamaHost", text t.ollama_host)
    ∷ (codes "LMStudioHost", text t.lmstudio_host)
    ∷ []

-- `${provider}:${model}`
abbrev pub qualified : LlmTab → Text
qualified t = t.provider ++ codes ":" ++ t.model

abbrev pub key_calls : LlmTab → List LlmCall
key_calls t = if is_truthy t.api_key then save_api_key t.provider t.api_key ∷ [] else []

abbrev pub disabled_partial : Partial
disabled_partial = (codes "Provider", text (codes "disabled")) ∷ []

abbrev save_disabled : SaveOutcome → LlmTab → SettingsState → SaveResult
save_disabled o t s =
    let calls = merge_and_save_settings disabled_partial ∷ [] in
    if o.settings_saved
    then ended calls saved t
        (set_connection_status disabled (set_active_model (codes "disabled") s)) true
    else ended calls error t s false

-- Behind the saved configuration: the key, and the model.
abbrev save_model : SaveOutcome → LlmTab → SettingsState → SaveResult
save_model o t s =
    let calls = merge_and_save_settings (llm_partial t) ∷ key_calls t in
    if is_truthy t.api_key && not o.key_saved
    then ended calls error t s false
    else elim o.model_set [
      | none ↦ ended (calls ++ set_model (qualified t) ∷ []) error t s false
      | some model ↦
          ended (calls ++ set_model (qualified t) ∷ probe_llm_connection ∷ []) saved t
            (set_active_model (if is_truthy model then model else qualified t) s) true
    ]

unfoldable pub handle_save : SaveOutcome → LlmTab → SettingsState → SaveResult
handle_save o t s =
    if t.provider == codes "disabled"
    then save_disabled o t s
    else if includes t.model (codes "\\")
    then ended [] error t s false
    else if o.settings_saved
    then save_model o t s
    else ended (merge_and_save_settings (llm_partial t) ∷ []) error t s false

abbrev pub requires_api_key : LlmTab → Bool
requires_api_key t = not (any (λ p. p == t.provider) no_key_providers)

abbrev pub models_of : Option CatalogProvider → List CatalogModel
models_of none = []
models_of (some p) = p.models

unfoldable pub model_suggestions : LlmTab → List CatalogModel
model_suggestions t =
    let models = models_of (find (λ (p : CatalogProvider). p.id == t.provider) t.providers) in
    if t.model_open
    then filter (λ (m : CatalogModel). includes (to_lower m.id) (to_lower (trim t.model))) models
    else []
