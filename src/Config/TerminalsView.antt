-- ===== src/Config/TerminalsView.antt =====
-- What the tab "Terminals" shows, and what is done there: the markup, the effects at the mount and the
-- handlers of frontend/src/components/settings/TerminalsTab.tsx. What `GetSettings` and `Environment`
-- answer are parameters; a platform is missing where the call fails. The paragraphs that explain the
-- options are left out.
use pair_admin.Base.{
  ℤ, pos, Bool, true, false, not, Option, none, some, List, [], ◌∷◌, Text, codes, ◌==◌,
  if◌then◌else◌, Widget, words, button, integer_field, checkbox,
}
use pair_admin.Config.{Config, Partial, SaveStatus, idle, saving, saved, error}
use pair_admin.Config.Terminals.{TerminalsTab, initial, load, to_save, clamp}
use pair_admin.Config.LlmView.{save_label, is_saving, save_error}

pub record TabScreen : Type 0 where
  pub tab : TerminalsTab
  -- missing as long as it is not known
  pub is_windows : Option Bool
  pub save_status : SaveStatus

abbrev pub mounted : TabScreen
mounted = record { tab = initial; is_windows = none; save_status = idle }

pub data Action : Type 0 where
  type_polling type_clearing type_terminals_width type_commands_width : ℤ → Action
  leave_polling leave_clearing leave_terminals_width leave_commands_width : Action
  set_prompt set_scanner set_administrator : Bool → Action
  save_clicked : Action

unfoldable pub edit : Action → TerminalsTab → TerminalsTab
edit (type_polling v) t = record t { atspi_polling_ms = v }
edit (type_clearing v) t = record t { clipboard_clear_secs = v }
edit (type_terminals_width v) t = record t { terminals_sidebar_width_ch = v }
edit (type_commands_width v) t = record t { commands_sidebar_width_ch = v }
edit leave_polling t = record t { atspi_polling_ms = pos (clamp t.atspi_polling_ms 100 5000) }
edit leave_clearing t = record t { clipboard_clear_secs = pos (clamp t.clipboard_clear_secs 0 600) }
edit leave_terminals_width t = record t {
  terminals_sidebar_width_ch = pos (clamp t.terminals_sidebar_width_ch 10 80);
}
edit leave_commands_width t = record t {
  commands_sidebar_width_ch = pos (clamp t.commands_sidebar_width_ch 10 80);
}
edit (set_prompt b) t = record t { prompt_new_host_keys = b }
edit (set_scanner b) t = record t { scanner_enabled = b }
edit (set_administrator b) t = record t { launch_as_administrator = b }
edit save_clicked t = t

abbrev pub is_save : Action → Bool
is_save save_clicked = true
is_save _ = false

-- What an action does, and the calls of `mergeAndSaveSettings`.
unfoldable pub press : Action → TabScreen → TabScreen × List Partial
press a s =
    let s' = record s { tab = edit a s.tab } in
    if is_save a then (record s' { save_status = saving }, to_save s.tab ∷ []) else (s', [])

-- `isWindows` is true: neither unknown nor false.
abbrev pub is_confirmed : Option Bool → Bool
is_confirmed (some true) = true
is_confirmed _ = false

unfoldable pub view : TabScreen → List (Widget Action)
view s =
    let t = s.tab in
    words (codes "Capture Settings")
    ∷ integer_field (codes "AT-SPI2 Polling Interval (ms)") t.atspi_polling_ms type_polling
        (some leave_polling)
    ∷ words (codes "Min: 100ms, Max: 5000ms.")
    ∷ integer_field (codes "Clipboard Auto-Clear Interval (seconds)") t.clipboard_clear_secs
        type_clearing (some leave_clearing)
    ∷ words (codes "0 disables auto-clear. Max: 600 seconds.")
    ∷ words (codes "Layout")
    ∷ integer_field (codes "Terminals List Width (characters)") t.terminals_sidebar_width_ch
        type_terminals_width (some leave_terminals_width)
    ∷ integer_field (codes "Commands List Width (characters)") t.commands_sidebar_width_ch
        type_commands_width (some leave_commands_width)
    ∷ words (codes "Remote Connections")
    ∷ checkbox (codes "Prompt to accept new SSH host keys") t.prompt_new_host_keys false set_prompt
    ∷ checkbox (codes "Network Finder") t.scanner_enabled false set_scanner
    ∷ words (codes "Administrator")
    ∷ checkbox (codes "Launch PairAdmin as Local Windows Administrator") t.launch_as_administrator
        (not (is_confirmed s.is_windows)) set_administrator
    ∷ button (save_label s.save_status) (is_saving s.save_status) save_clicked
    ∷ save_error s.save_status

-- What comes in: the answers of the two calls at the mount, the end of a save, and the timer that takes
-- its label back.
pub data Event : Type 0 where
  settings_loaded environment_known : Event
  save_ended : (ok : Bool) → Event
  label_back : Event

-- `env?.platform === "windows"`, and false where the call fails.
abbrev pub on_windows : Option Text → Bool
on_windows none = false
on_windows (some platform) = platform == codes "windows"

abbrev pub load_settings : Option Config → TerminalsTab → TerminalsTab
load_settings none t = t
load_settings (some cfg) t = load cfg t

unfoldable pub on_event : Option Config → Option Text → Event → TabScreen → TabScreen
on_event settings platform settings_loaded s = record s { tab = load_settings settings s.tab }
on_event settings platform environment_known s = record s {
  is_windows = some (on_windows platform);
}
on_event settings platform (save_ended ok) s = record s {
  save_status = if ok then saved else error;
}
on_event settings platform label_back s = record s { save_status = idle }
