-- ===== src/Config.antt =====
-- The stored configuration: frontend/src/utils/settingsSync.ts, and the settings tabs that load and save
-- parts of it, frontend/src/components/settings/PromptsTab.tsx, AppearanceTab.tsx, TerminalsTab.tsx,
-- HotkeysTab.tsx and LLMConfigTab.tsx. A configuration is a JavaScript object: a function from the names
-- of its properties. `GetSettings` and `SaveSettings` read and write the whole of it.
pub mod Merge
pub mod Terminals
pub mod TerminalsView
pub mod TerminalsShown
pub mod TerminalsTests
pub mod AppearanceView
pub mod Hotkeys
pub mod Fired
pub mod Loopback
pub mod Llm
pub mod LlmSave
pub mod LlmView
pub mod LlmShown
pub mod Types
pub mod Typed
pub mod Tests
use pair_admin.Base.{
  ℕ, zero, suc, Bool, true, false, not, Option, none, some, List, [], ◌∷◌, Text, codes, ◌==◌,
  nat_eq, if◌then◌else◌, is_truthy, ℤ, pos, negsuc,
}

-- The values: `other` is a list, written out.
pub data ConfigValue : Type 0 where
  text : Text → ConfigValue
  number : ℤ → ConfigValue
  flag : Bool → ConfigValue
  other : Text → ConfigValue

abbrev pub Config : Type 0
Config = Text → Option ConfigValue

-- What a tab saves: the properties of an object literal.
abbrev pub Partial : Type 0
Partial = List (Text × ConfigValue)

abbrev pub property : Text → Partial → Option ConfigValue
property key [] = none
property key ((k, v) ∷ ps) = let rest = property key ps in if k == key then some v else rest

abbrev pub value_or : Option ConfigValue → Option ConfigValue → Option ConfigValue
value_or none before = before
value_or (some v) before = some v

-- `{ ...current, ...partial }`
unfoldable pub merged : Partial → Config → Config
merged partial current = λ key. value_or (property key partial) (current key)

-- The saves that are under way: each has read the configuration, or not yet.
pub record SyncWorld : Type 0 where
  pub stored : Config
  pub current : ℕ → Option Config

-- The two awaits of `mergeAndSaveSettings`: the i-th save reads, and the i-th save writes.
pub data SyncStep : Type 0 where
  get_settings : (i : ℕ) → SyncStep
  save_settings : (i : ℕ) → Partial → SyncStep

abbrev pub write_back : Option Config → Partial → SyncWorld → SyncWorld
write_back none partial w = w
write_back (some current) partial w = record w { stored = merged partial current }

unfoldable pub sync_step : SyncStep → SyncWorld → SyncWorld
sync_step (get_settings i) w = record w {
  current = λ j. if nat_eq i j then some w.stored else w.current j;
}
sync_step (save_settings i partial) w = write_back (w.current i) partial w

unfoldable pub sync_steps : List SyncStep → SyncWorld → SyncWorld
sync_steps [] w = w
sync_steps (e ∷ es) w = sync_steps es (sync_step e w)

-- One save after the other, each through to its end.
abbrev pub one_by_one : ℕ → List Partial → List SyncStep
one_by_one i [] = []
one_by_one i (p ∷ ps) = get_settings i ∷ save_settings i p ∷ one_by_one i ps

pub data SaveStatus : Type 0 where
  idle saving saved error : SaveStatus

-- `if (v)` on a property
abbrev pub is_truthy_value : ConfigValue → Bool
is_truthy_value (text t) = is_truthy t
is_truthy_value (number (pos zero)) = false
is_truthy_value (number (pos (suc n))) = true
is_truthy_value (number (negsuc n)) = true
is_truthy_value (flag b) = b
is_truthy_value (other t) = true

-- `if (cfg.X) setX(cfg.X)` on a text and on a number
abbrev pub load_text : Option ConfigValue → Text → Text
load_text (some (text t)) before = if is_truthy t then t else before
load_text _ before = before

abbrev pub load_number : Option ConfigValue → ℤ → ℤ
load_number (some (number v)) before = if is_truthy_value (number v) then v else before
load_number _ before = before

-- `!!cfg.X`
abbrev pub as_bool : Option ConfigValue → Bool
as_bool none = false
as_bool (some v) = is_truthy_value v

-- The tab "Prompts".
abbrev pub prompts_load : Config → Text → Text
prompts_load cfg custom_prompt = load_text (cfg (codes "CustomPrompt")) custom_prompt

abbrev pub prompts_partial : Text → Partial
prompts_partial custom_prompt = (codes "CustomPrompt", text custom_prompt) ∷ []

-- The tab "Appearance"; the theme is that of the theme provider.
abbrev pub appearance_load : Config → ℤ → ℤ
appearance_load cfg font_size = load_number (cfg (codes "FontSize")) font_size

abbrev pub appearance_partial : Text → ℤ → Partial
appearance_partial theme font_size =
    (codes "Theme", text theme) ∷ (codes "FontSize", number font_size) ∷ []
