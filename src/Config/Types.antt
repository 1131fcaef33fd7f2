-- ===== src/Config/Types.antt =====
-- The declared types of the configuration: the fields of `AppConfig` in frontend/wailsjs/go/models.ts, as
-- the settings tabs use them, and what the tabs of frontend/src/components/settings save.
use pair_admin.Base.{Option, none, some, List, [], ◌∷◌, Text, codes, ◌==◌, if◌then◌else◌, ℤ}
use pair_admin.Config.{
  ConfigValue, text, number, flag, other, Config, Partial, prompts_partial, appearance_partial,
}
use pair_admin.Config.Terminals.{TerminalsTab}
use pair_admin.Config.Hotkeys.{HotkeysTab}
use pair_admin.Config.Llm.{LlmTab, llm_partial, disabled_partial}

-- `string`, `number`, `boolean`, and the array types.
pub data FieldType : Type 0 where
  string_type number_type boolean_type array_type : FieldType

abbrev string_fields : List Text
string_fields =
    codes "Provider"
    ∷ codes "Model"
    ∷ codes "CustomPrompt"
    ∷ codes "HotkeyCopyLast"
    ∷ codes "HotkeyFocusWindow"
    ∷ codes "HotkeyAddClipboardCommand"
    ∷ codes "HotkeyNewTerminal"
    ∷ codes "HotkeyCopyMode"
    ∷ codes "HotkeyQuickSelect"
    ∷ codes "HotkeyAddCommand"
    ∷ codes "Theme"
    ∷ codes "OllamaHost"
    ∷ codes "LMStudioHost"
    ∷ []

abbrev number_fields : List Text
number_fields =
    codes "ATSPIPollingMs"
    ∷ codes "ClipboardClearSecs"
    ∷ codes "FontSize"
    ∷ codes "ContextLines"
    ∷ codes "TerminalsSidebarWidthCh"
    ∷ codes "CommandsSidebarWidthCh"
    ∷ []

abbrev boolean_fields : List Text
boolean_fields =
    codes "PromptNewHostKeys" ∷ codes "ScannerEnabled" ∷ codes "LaunchAsAdministrator" ∷ []

abbrev array_fields : List Text
array_fields =
    codes "CustomPatterns"
    ∷ codes "RemoteHosts"
    ∷ codes "PinnedCommands"
    ∷ codes "EnabledProviders"
    ∷ codes "DisabledProviders"
    ∷ []

abbrev declared_in : Text → List Text → FieldType → Option FieldType → Option FieldType
declared_in key [] ty otherwise = otherwise
declared_in key (f ∷ fs) ty otherwise =
    let rest = declared_in key fs ty otherwise in if f == key then some ty else rest

-- The type of a field of `AppConfig`, if there is one of the name.
unfoldable pub field_type : Text → Option FieldType
field_type key = declared_in key string_fields string_type (
    declared_in key number_fields number_type
      (declared_in key boolean_fields boolean_type (declared_in key array_fields array_type none)))

abbrev pub type_of : ConfigValue → FieldType
type_of (text t) = string_type
type_of (number n) = number_type
type_of (flag b) = boolean_type
type_of (other t) = array_type

-- A save of a settings tab.
pub data TabSave : Type 0 where
  prompts : Text → TabSave
  appearance : (theme : Text) → (font_size : ℤ) → TabSave
  terminals : TerminalsTab → TabSave
  hotkeys : HotkeysTab → TabSave
  llm : LlmTab → TabSave
  llm_disabled : TabSave

-- The argument of its `mergeAndSaveSettings`.
unfoldable pub tab_partial : TabSave → Partial
tab_partial (prompts p) = prompts_partial p
tab_partial (appearance theme size) = appearance_partial theme size
tab_partial (terminals t) = pair_admin.Config.Terminals.to_save t
tab_partial (hotkeys t) = pair_admin.Config.Hotkeys.to_save t
tab_partial (llm t) = llm_partial t
tab_partial llm_disabled = disabled_partial
