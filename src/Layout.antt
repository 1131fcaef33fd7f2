-- ===== src/Layout.antt =====
-- What frontend/src/components/layout/ThreeColumnLayout.tsx reads at its start for the widths of its
-- sidebars, the theme of frontend/src/theme/theme-provider.tsx (Theme), and the tab
-- frontend/src/components/settings/SecurityTab.tsx (Security).
pub mod Theme
pub mod Shown
pub mod Security
pub mod Widths
pub mod Panes
pub mod Tests
use pair_admin.Base.{codes, ℤ, pos}
use pair_admin.Config.{Config, load_number}

pub record SidebarWidths : Type 0 where
  pub terminals_sidebar_width_ch : ℤ
  pub commands_sidebar_width_ch : ℤ

abbrev pub initial : SidebarWidths
initial = record { terminals_sidebar_width_ch = pos 20; commands_sidebar_width_ch = pos 30 }

-- At the mount, from the answer of `GetSettings`.
unfoldable pub load_widths : Config → SidebarWidths → SidebarWidths
load_widths cfg s = record {
  terminals_sidebar_width_ch =
      load_number (cfg (codes "TerminalsSidebarWidthCh")) s.terminals_sidebar_width_ch;
  commands_sidebar_width_ch =
      load_number (cfg (codes "CommandsSidebarWidthCh")) s.commands_sidebar_width_ch;
}
