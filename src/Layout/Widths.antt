-- ===== src/Layout/Widths.antt =====
-- The widths of the sidebars: saved in the settings, read at the next start.
use pair_admin.Base.{
  ℕ, ◌≡◌, refl, ◌∙◌, Option, none, some, List, [], ◌∷◌, codes, ◌==◌, All, ℤ, pos, arith,
}
use pair_admin.Config.{ConfigValue, number, Partial, property, SyncWorld, sync_steps, one_by_one}
use pair_admin.Config.Merge.{last_value-absent, one_by_one-last_value}
use pair_admin.Config.Terminals.{TerminalsTab, clamp, to_save, clamp-truthy}
use pair_admin.Layout.{initial, load_widths}

-- A save that leaves the two widths alone.
abbrev IsApart : Partial → Type 0
IsApart p =
    (property (codes "TerminalsSidebarWidthCh") p ≡ none)
    × (property (codes "CommandsSidebarWidthCh") p ≡ none)

All-map :
    {P Q : Partial → Type 0}
    → ((p : Partial) → P p → Q p)
    → (ps : List Partial) → All P ps
    → All Q ps
All-map f [] h = tt
All-map f (p ∷ ps) (hp, h) = (f p hp, All-map f ps h)

abbrev saved_width : ℤ → Option ConfigValue
saved_width v = some (number (pos (clamp v 10 80)))

-- Save the tab "Terminals" and then anything that has no width in it, one save after the other: at the
-- next start the sidebars have the widths of the tab, brought into the range from 10 to 80, whatever the
-- configuration was before.
pub load_widths-to_save :
    (i : ℕ) (t : TerminalsTab) (ps : List Partial) (w : SyncWorld)
    → All IsApart ps
    → load_widths (sync_steps (one_by_one i (to_save t ∷ ps)) w).stored initial ≡ record {
      terminals_sidebar_width_ch = pos (clamp t.terminals_sidebar_width_ch 10 80);
      commands_sidebar_width_ch = pos (clamp t.commands_sidebar_width_ch 10 80);
    }
unfolding load_widths to_save ◌==◌
load_widths-to_save i t ps w h =
    let stored = (sync_steps (one_by_one i (to_save t ∷ ps)) w).stored in
    let terminals : stored (codes "TerminalsSidebarWidthCh")
        ≡ saved_width t.terminals_sidebar_width_ch =
      one_by_one-last_value (codes "TerminalsSidebarWidthCh") i (to_save t ∷ ps) w
      ∙ last_value-absent (codes "TerminalsSidebarWidthCh") ps
          (saved_width t.terminals_sidebar_width_ch) (All-map (λ p (a, b). a) ps h) in
    let commands : stored (codes "CommandsSidebarWidthCh")
        ≡ saved_width t.commands_sidebar_width_ch =
      one_by_one-last_value (codes "CommandsSidebarWidthCh") i (to_save t ∷ ps) w
      ∙ last_value-absent (codes "CommandsSidebarWidthCh") ps
          (saved_width t.commands_sidebar_width_ch) (All-map (λ p (a, b). b) ps h) in
    rw
      (
        terminals,
        commands,
        clamp-truthy t.terminals_sidebar_width_ch 10 80 (omega arith) (omega arith),
        clamp-truthy t.commands_sidebar_width_ch 10 80 (omega arith) (omega arith),
      )
      refl
