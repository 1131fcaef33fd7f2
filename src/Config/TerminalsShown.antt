-- ===== src/Config/TerminalsShown.antt =====
-- The tab "Terminals" over a whole session: who can change how the program is launched.
use pair_admin.Base.{
  ◌≡◌, refl, Bool, false, Option, some, List, [], ◌++◌, Text, codes, ◌==◌, Offered, arith, All,
  All-append,
}
use pair_admin.Config.{Config, Partial, merged, as_bool}
use pair_admin.Config.Terminals.{TerminalsTab, load, to_save}
use pair_admin.Config.TerminalsView.{
  TabScreen, Action, edit, press, view, is_confirmed, Event, on_event, on_windows,
  set_administrator, settings_loaded, environment_known, save_ended, label_back, save_clicked,
}

not_on_display :
    (b : Bool) (s : TabScreen)
    → is_confirmed s.is_windows ≡ false
    → ¬ Offered (set_administrator b) (view s)
unfolding view
not_on_display b s h o = ground arith

edit-launch :
    (a : Action) (s : TabScreen)
    → is_confirmed s.is_windows ≡ false
    → Offered a (view s)
    → (edit a s.tab).launch_as_administrator ≡ s.tab.launch_as_administrator
unfolding edit
edit-launch (set_administrator b) s h o = absurd (not_on_display b s h o)
edit-launch a s h o = refl

-- A save of the partial does not change whether the program is launched as administrator.
abbrev pub Keeps : Config → Partial → Type 0
Keeps cfg p =
    as_bool (merged p cfg (codes "LaunchAsAdministrator"))
    ≡ as_bool (cfg (codes "LaunchAsAdministrator"))

module _ (cfg : Config) (platform : Option Text) where
  -- A step: something on display that is done, or something that comes in. The saves are the calls.
  pub data Move : TabScreen → TabScreen → List Partial → Type 0 where
    pressed : {s : TabScreen} (a : Action) → Offered a (view s) → Move s (press a s).0 (press a s).1
    happened : {s : TabScreen} (e : Event) → Move s (on_event (some cfg) platform e s) []

  pub data Run : TabScreen → TabScreen → List Partial → Type 0 where
    stay : {s : TabScreen} → Run s s []
    next :
        {s t u : TabScreen} {ps qs : List Partial} → Move s t ps → Run t u qs → Run s u (ps ++ qs)

  -- The tab holds what is stored, and the box is not enabled.
  abbrev IsFixed : TabScreen → Type 0
  IsFixed s =
      (s.tab.launch_as_administrator ≡ as_bool (cfg (codes "LaunchAsAdministrator")))
      × (is_confirmed s.is_windows ≡ false)

  to_save-Keeps :
      (t : TerminalsTab)
      → t.launch_as_administrator ≡ as_bool (cfg (codes "LaunchAsAdministrator"))
      → Keeps cfg (to_save t)
  unfolding to_save merged ◌==◌
  to_save-Keeps t h = h

  press-Keeps : (a : Action) (s : TabScreen) → IsFixed s → All (Keeps cfg) (press a s).1
  unfolding press
  press-Keeps save_clicked s (h, k) = (to_save-Keeps s.tab h, tt)
  press-Keeps a s (h, k) = tt

  press-IsFixed :
      (a : Action) (s : TabScreen) → IsFixed s → Offered a (view s) → IsFixed (press a s).0
  unfolding press
  press-IsFixed a s (h, k) o = ground (arith, edit-launch a s k o)

  event-IsFixed :
      (e : Event) (s : TabScreen)
      → on_windows platform ≡ false
      → IsFixed s
      → IsFixed (on_event (some cfg) platform e s)
  unfolding on_event load
  event-IsFixed settings_loaded s w (h, k) = (refl, k)
  event-IsFixed environment_known s w (h, k) = (h, ground arith)
  event-IsFixed (save_ended ok) s w h = h
  event-IsFixed label_back s w h = h

  run-Keeps :
      {s t : TabScreen} {ps : List Partial}
      → on_windows platform ≡ false
      → IsFixed s
      → Run s t ps
      → All (Keeps cfg) ps
  run-Keeps w h stay = tt
  run-Keeps w h (next (pressed {s} a o) r) =
      All-append (Keeps cfg) _ _ (press-Keeps a s h) (run-Keeps w (press-IsFixed a s h o) r)
  run-Keeps w h (next (happened {s} e) r) = run-Keeps w (event-IsFixed e s w h) r

  -- Anywhere but on Windows, from a state of the tab in which Windows was not confirmed and the settings
  -- have just been loaded: whatever is then done of what is on display, and whatever comes in, no save
  -- changes the stored choice to launch the program as administrator.
  pub administrator_kept :
      (s : TabScreen) {t : TabScreen} {ps : List Partial}
      → on_windows platform ≡ false
      → is_confirmed s.is_windows ≡ false
      → Run (on_event (some cfg) platform settings_loaded s) t ps
      → All (Keeps cfg) ps
  unfolding on_event load
  administrator_kept s w k r = run-Keeps w (refl, k) r
