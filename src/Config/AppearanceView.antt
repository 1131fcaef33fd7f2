-- ===== src/Config/AppearanceView.antt =====
-- The tab "Appearance": the markup and the handlers of frontend/src/components/settings/AppearanceTab.tsx.
-- The choice of a theme goes to the theme provider.
use pair_admin.Base.{
  ℕ, ◌+◌, ◌*◌, ◌≤◌, ◌≡◌, arith, ℤ, pos, false, Option, none, some, List, ◌∷◌, Text, codes, Widget,
  words, button, integer_field, ap,
}
use pair_admin.Config.{
  Config, Partial, SaveStatus, idle, saving, appearance_load, appearance_partial,
}
use pair_admin.Config.Terminals.{clamp}
use pair_admin.Config.LlmView.{save_label, is_saving, save_error}

pub record AppearanceTab : Type 0 where
  pub font_size : ℤ
  pub save_status : SaveStatus

abbrev pub initial : AppearanceTab
initial = record { font_size = pos 14; save_status = idle }

pub data Action : Type 0 where
  choose_theme : Text → Action
  type_font_size : ℤ → Action
  save_clicked : Action

abbrev pub load : Option Config → AppearanceTab → AppearanceTab
load none t = t
load (some cfg) t = record t { font_size = appearance_load cfg t.font_size }

-- The tab, the theme that is set, and the argument of `mergeAndSaveSettings`; `theme` is the current one.
unfoldable pub press : Text → Action → AppearanceTab → AppearanceTab × Option Text × Option Partial
press theme (choose_theme chosen) t = (t, some chosen, none)
press theme (type_font_size v) t = (record t { font_size = pos (clamp v 10 24) }, none, none)
press theme save_clicked t =
    (record t { save_status = saving }, none, some (appearance_partial theme t.font_size))

unfoldable pub view : AppearanceTab → List (Widget Action)
view t =
    words (codes "Theme")
    ∷ button (codes "Dark") false (choose_theme (codes "dark"))
    ∷ button (codes "Light") false (choose_theme (codes "light"))
    ∷ integer_field (codes "Font Size (px)") t.font_size type_font_size none
    ∷ words (codes "Min: 10px, Max: 24px. Default: 14px.")
    ∷ button (save_label t.save_status) (is_saving t.save_status) save_clicked
    ∷ save_error t.save_status

-- Typing a number of two digits over the old one, digit by digit, always ends at 24, or at 10 if its
-- second digit is never typed: each digit is clamped before the next one comes.
typed_over :
    (theme : Text) (a b : ℕ) (t : AppearanceTab)
    → a ≤ 9
    → b ≤ 9
    → let once = (press theme (type_font_size (pos a)) t).0 in
      let twice = (press theme (type_font_size (pos (10 * 10 + b))) once).0 in
      (once.font_size ≡ pos 10) × (twice.font_size ≡ pos 24)
unfolding press
typed_over theme a b t h k = (ap pos (omega arith), ap pos (omega arith))
