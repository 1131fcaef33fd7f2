-- ===== src/Settings/Probe.antt =====
-- frontend/src/utils/connectionProbe.ts: the probe of the configured connection, cut at its `await`s
-- into steps between which the user and other code may run. The back end's calls are the outcomes that
-- the steps take; a call that throws outside the inner `try` ends the probe.
use pair_admin.Base.{
  ◌≡◌, refl, ap, ◌∙◌, Bool, true, false, ◌&&◌, Option, none, some, List, [], ◌∷◌, ◌++◌, map, Text,
  codes, ◌==◌, is_truthy, arith, if◌then◌else◌, or_else, Bool-cases, inl, inr,
}
use pair_admin.Settings.{
  SettingsState, ConnectionStatus, checking, connected, disconnected, disabled, is_checking,
  set_active_model, set_connection_status,
}

-- What the probe reads of the configuration, absent where `cfg?.` finds none.
pub record ProbeConfig : Type 0 where
  pub provider : Option Text
  pub model : Option Text

-- Where a probe stands: before `GetSettings` returns, before `TestConnection` returns, or at its end.
pub data Phase : Type 0 where
  loading testing ended : Phase

pub record Probing : Type 0 where
  pub phase : Phase
  pub settings : SettingsState

abbrev truthy : Option Text → Bool
truthy none = false
truthy (some t) = is_truthy t

abbrev show_model : ProbeConfig → SettingsState → SettingsState
show_model cfg s =
    if truthy cfg.provider && truthy cfg.model
    then set_active_model (or_else cfg.provider [] ++ b':' ∷ or_else cfg.model []) s
    else s

-- From the return of `GetSettings` to the call of `TestConnection`.
abbrev claim : ProbeConfig → SettingsState → Probing
claim cfg s =
    if truthy cfg.provider
    then (if or_else cfg.provider [] == codes "disabled"
        then record { phase = ended; settings = set_connection_status disabled s }
        else record { phase = testing; settings = set_connection_status checking s })
    else record { phase = ended; settings = set_connection_status disconnected s }

unfoldable pub settings_loaded : ProbeConfig → SettingsState → Probing
settings_loaded cfg s = claim cfg (show_model cfg s)

-- From the return of `TestConnection`, or its rejection, to the end.
unfoldable pub tested : Bool → SettingsState → Probing
tested reachable s = record {
  phase = ended;
  settings =
      if is_checking s.connection_status
      then set_connection_status (if reachable then connected else disconnected) s
      else s;
}

-- What may happen to the probe, and the writes of the user and of other code.
pub data Event : Type 0 where
  loaded : ProbeConfig → Event
  load_failed : Event
  answered : Bool → Event
  other_sets : ConnectionStatus → Event

-- What the probe does not wait for in its phase passes it by.
unfoldable pub on_event : Phase → Event → SettingsState → Probing
on_event loading (loaded cfg) s = settings_loaded cfg s
on_event loading load_failed s = record { phase = ended; settings = s }
on_event testing (answered reachable) s = tested reachable s
on_event phase (other_sets status) s = record {
  phase = phase;
  settings = set_connection_status status s;
}
on_event phase _ s = record { phase = phase; settings = s }

unfoldable pub run : List Event → Probing → Probing
run [] p = p
run (e ∷ es) p = run es (on_event p.phase e p.settings)

abbrev pub start : SettingsState → Probing
start s = record { phase = loading; settings = s }

abbrev pub verdict : Bool → ConnectionStatus
verdict reachable = if reachable then connected else disconnected

-- The last of some writes, or what was there.
abbrev pub last : List ConnectionStatus → ConnectionStatus → ConnectionStatus
last [] c = c
last (d ∷ ds) c = last ds d

-- A configuration that names a provider other than "disabled".
pub record IsEnabled (cfg : ProbeConfig) : Type 0 where
  pub named : truthy cfg.provider ≡ true
  pub enabled : (or_else cfg.provider [] == codes "disabled") ≡ false

loaded-IsEnabled :
    (cfg : ProbeConfig) (s : SettingsState)
    → IsEnabled cfg
    → settings_loaded cfg s
      ≡ record { phase = testing; settings = set_connection_status checking (show_model cfg s) }
unfolding settings_loaded
loaded-IsEnabled cfg s h = rw (h.named, h.enabled)

run-others :
    (cs : List ConnectionStatus) (es : List Event) (s : SettingsState)
    → run (map other_sets cs ++ es) (record { phase = testing; settings = s })
      ≡ run es (record {
        phase = testing;
        settings = set_connection_status (last cs s.connection_status) s;
      })
unfolding run on_event
run-others [] es s = refl
run-others (c ∷ cs) es s = run-others cs es (set_connection_status c s)

run-loaded :
    (cfg : ProbeConfig) (cs : List ConnectionStatus) (reachable : Bool) (s : SettingsState)
    → IsEnabled cfg
    → run (loaded cfg ∷ map other_sets cs ++ answered reachable ∷ []) (start s)
      ≡ tested reachable (set_connection_status (last cs checking) (show_model cfg s))
unfolding run on_event
run-loaded cfg cs reachable s h =
    let es = map other_sets cs ++ answered reachable ∷ [] in
    ap (run es) (loaded-IsEnabled cfg s h)
    ∙ run-others cs (answered reachable ∷ []) (set_connection_status checking (show_model cfg s))

-- The probe of an enabled provider, with any writes of others while the connection is tested: its
-- verdict is written only where the last of them left the status at checking, and otherwise what that
-- write set stays, `disabled` among it. Either way the probe ends.
pub run-probe :
    (cfg : ProbeConfig) (cs : List ConnectionStatus) (reachable : Bool) (s : SettingsState)
    → IsEnabled cfg
    → let p = run (loaded cfg ∷ map other_sets cs ++ answered reachable ∷ []) (start s) in
      let status = last cs checking in
      (p.phase ≡ ended)
      × (p.settings.connection_status ≡ (if is_checking status then verdict reachable else status))
unfolding tested
run-probe cfg cs reachable s h = rw (run-loaded cfg cs reachable s h) (refl, ground arith)

-- A provider that is missing or "disabled" is never tested: the probe has ended when the configuration
-- is read, with the status disconnected or disabled.
pub run-no_call :
    (cfg : ProbeConfig) (s : SettingsState)
    → ¬ IsEnabled cfg
    → let p = run (loaded cfg ∷ []) (start s) in
      (p.phase ≡ ended)
      × (p.settings.connection_status ≡ (if truthy cfg.provider then disabled else disconnected))
unfolding run on_event settings_loaded
run-no_call cfg s h = elim (Bool-cases (truthy cfg.provider)) [
  | inl named ↦ elim (Bool-cases (or_else cfg.provider [] == codes "disabled")) [
    | inl off ↦ rw (named, off) (refl, refl)
    | inr other ↦ absurd (h (record { named = named; enabled = other }))
  ]
  | inr missing ↦ rw missing (refl, refl)
]

-- With an enabled provider, an opt-out that comes while the configuration is being read, and is
-- not in it yet, is overwritten: the probe takes the status back to checking, and its verdict
-- stands.
pub opt_out_lost :
    (cfg : ProbeConfig) (reachable : Bool) (s : SettingsState)
    → IsEnabled cfg
    → (run
        (other_sets disabled ∷ loaded cfg ∷ answered reachable ∷ [])
        (start s)).settings.connection_status
      ≡ verdict reachable
unfolding run on_event tested
opt_out_lost cfg reachable s h = rw (loaded-IsEnabled cfg (set_connection_status disabled s) h)
