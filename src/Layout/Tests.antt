-- ===== src/Layout/Tests.antt =====
-- The layout at concrete settings.
use pair_admin.Base.{
  Text, List, ◌≡◌, refl, inl, inr, true, false, none, some, [], ◌∷◌, codes, ◌==◌, ◌++◌,
}
use pair_admin.Config.{Partial, text, flag, SyncWorld}
use pair_admin.Layout.{initial, load_widths}
use pair_admin.Layout.Theme.{dark, light, mounted, is_dark_xterm}
use pair_admin.Layout.Shown.{set_themes, last_theme, others, themes_shown}
use pair_admin.Layout.Security.{
  SecurityTab, resolved, rejected, status_loaded, status_loaded_lem, can_change, password_caption,
  none_configured, rae_caption,
}
use pair_admin.Terminal.{TerminalState, no_details}
use pair_admin.Terminal.Tabs.{Action, add, remove, IsValid}
use pair_admin.Layout.Panes.{run, on_display, panes, pane, one_on_display}

abbrev prompt : Partial
prompt = (codes "CustomPrompt", text (codes "p")) ∷ []

abbrev world : SyncWorld
world = record { stored = λ key. none; current = λ i. none }

-- A restart in light colours, then "dark" twice.
themes_shown_example :
    let s =
      set_themes
        ((true, dark) ∷ (true, dark) ∷ [])
        (mounted true (some light) (codes "js" ∷ codes "dark" ∷ [])) in
    (s.theme ≡ last_theme ((true, dark) ∷ (true, dark) ∷ []) light)
    × (s.classes ≡ others (codes "js" ∷ codes "dark" ∷ []) ++ s.theme ∷ [])
    × (is_dark_xterm s.classes ≡ (s.theme == dark))
    × ((mounted false s.stored []).theme ≡ s.theme)
themes_shown_example =
    themes_shown true (some light) (codes "js" ∷ codes "dark" ∷ [])
      ((true, dark) ∷ (true, dark) ∷ []) false [] (inr refl) (inl refl, (inl refl, tt))

abbrev security : SecurityTab
security = pair_admin.Layout.Security.initial

status_loaded_lem_example :
    let u = status_loaded (resolved (some (flag true))) rejected security in
    (u.checking ≡ false)
    × (u.rae_checking ≡ false)
    × (can_change u ≡ false)
    × (password_caption u ≡ none_configured)
status_loaded_lem_example = status_loaded_lem (resolved (some (flag true))) rejected security refl

test_caption :
    rae_caption (status_loaded (resolved none) (resolved (some (text (codes "ann")))) security)
    ≡ codes "Registered Accountable Entity (RAE): ann - declared, unverified (L0)"
unfolding rae_caption status_loaded
test_caption = refl

abbrev no_tabs : TerminalState Text
no_tabs = pair_admin.Terminal.initial

abbrev opened_twice : List (Action Text)
opened_twice =
    add (codes "a") (codes "A") no_details
    ∷ add (codes "b") (codes "B") no_details
    ∷ remove (codes "a")
    ∷ []

one_on_display_example : on_display (panes (run opened_twice no_tabs)) ≡ pane (codes "b") ∷ []
unfolding pair_admin.Terminal.Tabs.step pair_admin.Terminal.add_tab pair_admin.Terminal.remove_tab
    ◌==◌
one_on_display_example =
    one_on_display opened_twice no_tabs (record { unique = tt; active = inl refl })
      (tt, (tt, (tt, tt)))
