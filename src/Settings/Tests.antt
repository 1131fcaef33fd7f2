-- ===== src/Settings/Tests.antt =====
-- The probe's theorems at concrete configurations.
use pair_admin.Base.{◌≡◌, refl, true, none, some, [], ◌∷◌, codes, ◌==◌}
use pair_admin.Settings.{disabled, initial}
use pair_admin.Settings.Probe.{
  ProbeConfig, IsEnabled, loaded, answered, other_sets, run, start, ended, run-probe,
}

abbrev openai : ProbeConfig
openai = record { provider = some (codes "openai"); model = some (codes "gpt-4") }

abbrev off : ProbeConfig
off = record { provider = some (codes "disabled"); model = none }

openai-IsEnabled : IsEnabled openai
unfolding ◌==◌
openai-IsEnabled = record { named = refl; enabled = refl }

run-probe_example :
    let p = run (loaded openai ∷ other_sets disabled ∷ answered true ∷ []) (start initial) in
    (p.phase ≡ ended) × (p.settings.connection_status ≡ disabled)
run-probe_example = run-probe openai (disabled ∷ []) true initial openai-IsEnabled
