-- ===== src/Settings.antt =====
-- frontend/src/stores/settingsStore.ts: the model on display, the dialog, the connection indicator.
pub mod Probe
pub mod Tests
use pair_admin.Base.{Bool, false, true, [], Text}

pub data ConnectionStatus : Type 0 where
  checking connected disconnected disabled : ConnectionStatus

pub record SettingsState : Type 0 where
  pub active_model : Text
  pub settings_open : Bool
  pub connection_status : ConnectionStatus

abbrev pub initial : SettingsState
initial = record { active_model = []; settings_open = false; connection_status = checking }

abbrev pub set_active_model : Text → SettingsState → SettingsState
set_active_model model s = record s { active_model = model }

abbrev pub set_settings_open : Bool → SettingsState → SettingsState
set_settings_open opened s = record s { settings_open = opened }

abbrev pub set_connection_status : ConnectionStatus → SettingsState → SettingsState
set_connection_status status s = record s { connection_status = status }

abbrev pub is_disabled : ConnectionStatus → Bool
is_disabled disabled = true
is_disabled _ = false

abbrev pub is_checking : ConnectionStatus → Bool
is_checking checking = true
is_checking _ = false
