-- ===== src/Terminal/Tests.antt =====
-- The terminal store's theorems at concrete states; a terminal is a number here.
use pair_admin.Base.{ℕ, ◌≡◌, refl, inr, List, [], ◌∷◌, ◌++◌, Text, codes, ◌==◌, filter}
use pair_admin.Terminal.{
  TerminalTab, TerminalState, TabInfo, initial, no_details, remove_tab, listed, handle_tabs,
}
use pair_admin.Terminal.Tabs.{has_tab, IsValid}
use pair_admin.Terminal.Capture.{handle_tabs_lem}

abbrev tab : Text → TerminalTab
tab id = record { id = id; name = id; details = no_details }

abbrev two : TerminalState ℕ
two = record initial { tabs = tab (codes "a") ∷ tab (codes "b") ∷ []; active_tab_id = codes "a" }

two-IsValid : IsValid two
unfolding ◌==◌
two-IsValid = record { unique = (refl, (refl, tt)); active = inr refl }

abbrev listing : List TabInfo
listing =
    record { id = codes "b"; name = codes "b" } ∷ record { id = codes "c"; name = codes "c" } ∷ []

handle_tabs_lem_example :
    let s' = handle_tabs listing two in
    (new : List TerminalTab) × (s'.tabs ≡ filter (λ t. listed t.id listing) two.tabs ++ new)
    × (has_tab (codes "c") s'.tabs ≡ listed (codes "c") listing)
    × IsValid s'
handle_tabs_lem_example = handle_tabs_lem listing two (codes "c") two-IsValid

test_remove : (remove_tab (codes "a") two).active_tab_id ≡ codes "b"
unfolding remove_tab ◌==◌
test_remove = refl
