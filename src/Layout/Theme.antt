-- ===== src/Layout/Theme.antt =====
-- The theme: frontend/src/theme/theme-provider.tsx, and `getXtermTheme` of
-- frontend/src/components/terminal/TerminalPreview.tsx, which reads it from the classes of the document.
-- A theme is a text, since the entry of the local storage is taken as it is.
use pair_admin.Base.{
  Bool, not, Option, none, some, List, [], ◌∷◌, ◌++◌, Text, codes, ◌==◌, if◌then◌else◌, is_truthy,
  any, filter,
}

pub record ThemeState : Type 0 where
  pub stored : Option Text
  pub theme : Text
  pub classes : List Text

abbrev pub dark : Text
dark = codes "dark"

abbrev pub light : Text
light = codes "light"

-- `localStorage.getItem(storageKey) || defaultTheme`
abbrev pub initial_theme : Option Text → Text
initial_theme none = dark
initial_theme (some t) = if is_truthy t then t else dark

-- `classList.remove` and `classList.add`
abbrev pub remove_class : Text → List Text → List Text
remove_class c cs = filter (λ x. not (x == c)) cs

abbrev pub add_class : Text → List Text → List Text
add_class c cs = if any (λ x. x == c) cs then cs else cs ++ c ∷ []

abbrev pub theme_class : Bool → Text → Text
theme_class prefers_dark theme =
    if theme == codes "system" then (if prefers_dark then dark else light) else theme

-- The effect on the classes of the document.
unfoldable pub apply_theme : Bool → Text → List Text → List Text
apply_theme prefers_dark theme cs =
    add_class (theme_class prefers_dark theme) (remove_class dark (remove_class light cs))

unfoldable pub mounted : Bool → Option Text → List Text → ThemeState
mounted prefers_dark stored cs =
    let theme = initial_theme stored in
    record { stored = stored; theme = theme; classes = apply_theme prefers_dark theme cs }

-- `setTheme`, with the effect, which runs if the theme is another one.
unfoldable pub set_theme : Bool → Text → ThemeState → ThemeState
set_theme prefers_dark new_theme s = record {
  stored = some new_theme;
  theme = new_theme;
  classes =
      if new_theme == s.theme then s.classes else apply_theme prefers_dark new_theme s.classes;
}

-- Whether the terminals have the dark colours.
unfoldable pub is_dark_xterm : List Text → Bool
is_dark_xterm cs = any (λ x. x == dark) cs
