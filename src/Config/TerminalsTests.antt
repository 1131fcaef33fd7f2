-- ===== src/Config/TerminalsTests.antt =====
-- The tab "Terminals" on Linux, with a stored configuration that launches as administrator.
use pair_admin.Base.{
  ◌≡◌, refl, true, false, none, some, [], ◌++◌, codes, ◌==◌, All, Offered, arith, Text, Option,
  if◌then◌else◌,
}
use pair_admin.Config.{Config, Partial, ConfigValue, flag}
use pair_admin.Config.TerminalsView.{
  TabScreen, mounted, press, view, on_event, settings_loaded, environment_known, set_prompt,
  save_clicked,
}
use pair_admin.Config.TerminalsShown.{Run, stay, next, pressed, happened, Keeps, administrator_kept}

abbrev stored : Config
stored = λ key. if key == codes "LaunchAsAdministrator" then some (flag true) else none

abbrev linux : Option Text
linux = some (codes "linux")

abbrev loaded : TabScreen
loaded = on_event (some stored) linux settings_loaded mounted

abbrev known : TabScreen
known = on_event (some stored) linux environment_known loaded

abbrev prompted : TabScreen
prompted = (press (set_prompt true) known).0

prompt-Offered : Offered (set_prompt true) (view known)
unfolding view
prompt-Offered = ground arith

save-Offered : Offered save_clicked (view prompted)
unfolding view press on_event
save-Offered = ground arith

session :
    Run stored linux loaded
      (press save_clicked prompted).0
      ([] ++ ((press (set_prompt true) known).1 ++ ((press save_clicked prompted).1 ++ [])))
session = next (happened environment_known) (
    next (pressed (set_prompt true) prompt-Offered) (next (pressed save_clicked save-Offered) stay))

not_windows : pair_admin.Config.TerminalsView.on_windows linux ≡ false
unfolding ◌==◌
not_windows = refl

administrator_kept_example :
    All
      (Keeps stored)
      ([] ++ ((press (set_prompt true) known).1 ++ ((press save_clicked prompted).1 ++ [])))
administrator_kept_example = administrator_kept stored linux mounted not_windows refl session
