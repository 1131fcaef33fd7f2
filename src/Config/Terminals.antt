-- ===== src/Config/Terminals.antt =====
-- The tab "Terminals": frontend/src/components/settings/TerminalsTab.tsx. The number fields hold whole
-- numbers.
use pair_admin.Base.{
  ℕ, zero, suc, ◌≤◌, ◌≡◌, refl, Bool, true, false, Option, none, some, [], ◌∷◌, codes, ◌==◌, arith,
  ℤ, pos, negsuc,
}
use Prim.Native.Nat.{min, max}
use pair_admin.Config.{
  ConfigValue, number, flag, Config, Partial, merged, is_truthy_value, load_number, as_bool,
}

pub record TerminalsTab : Type 0 where
  pub atspi_polling_ms : ℤ
  pub clipboard_clear_secs : ℤ
  pub terminals_sidebar_width_ch : ℤ
  pub commands_sidebar_width_ch : ℤ
  pub prompt_new_host_keys : Bool
  pub scanner_enabled : Bool
  pub launch_as_administrator : Bool

abbrev pub initial : TerminalsTab
initial = record {
  atspi_polling_ms = pos 500;
  clipboard_clear_secs = pos 60;
  terminals_sidebar_width_ch = pos 20;
  commands_sidebar_width_ch = pos 30;
  prompt_new_host_keys = false;
  scanner_enabled = true;
  launch_as_administrator = false;
}

-- `Math.max(min, Math.min(max, v))`
abbrev pub clamp : ℤ → ℕ → ℕ → ℕ
clamp (pos n) lo hi = max lo (min hi n)
clamp (negsuc n) lo hi = lo

-- A number that is there is taken, zero included.
abbrev load_present : Option ConfigValue → ℤ → ℤ
load_present (some (number v)) before = v
load_present _ before = before

-- `cfg.X === undefined ? true : cfg.X`
abbrev enabled_unless : Option ConfigValue → Bool
enabled_unless none = true
enabled_unless (some v) = is_truthy_value v

unfoldable pub load : Config → TerminalsTab → TerminalsTab
load cfg t = record t {
  atspi_polling_ms = load_number (cfg (codes "ATSPIPollingMs")) t.atspi_polling_ms;
  clipboard_clear_secs = load_present (cfg (codes "ClipboardClearSecs")) t.clipboard_clear_secs;
  terminals_sidebar_width_ch =
      load_number (cfg (codes "TerminalsSidebarWidthCh")) t.terminals_sidebar_width_ch;
  commands_sidebar_width_ch =
      load_number (cfg (codes "CommandsSidebarWidthCh")) t.commands_sidebar_width_ch;
  prompt_new_host_keys = as_bool (cfg (codes "PromptNewHostKeys"));
  scanner_enabled = enabled_unless (cfg (codes "ScannerEnabled"));
  launch_as_administrator = as_bool (cfg (codes "LaunchAsAdministrator"));
}

-- The argument of `mergeAndSaveSettings`.
unfoldable pub to_save : TerminalsTab → Partial
to_save t =
    (codes "ATSPIPollingMs", number (pos (clamp t.atspi_polling_ms 100 5000)))
    ∷ (codes "ClipboardClearSecs", number (pos (clamp t.clipboard_clear_secs 0 600)))
    ∷ (codes "TerminalsSidebarWidthCh", number (pos (clamp t.terminals_sidebar_width_ch 10 80)))
    ∷ (codes "CommandsSidebarWidthCh", number (pos (clamp t.commands_sidebar_width_ch 10 80)))
    ∷ (codes "PromptNewHostKeys", flag t.prompt_new_host_keys)
    ∷ (codes "ScannerEnabled", flag t.scanner_enabled)
    ∷ (codes "LaunchAsAdministrator", flag t.launch_as_administrator)
    ∷ []

-- What the tab shows after a restart.
abbrev pub clamped : TerminalsTab → TerminalsTab
clamped t = record t {
  atspi_polling_ms = pos (clamp t.atspi_polling_ms 100 5000);
  clipboard_clear_secs = pos (clamp t.clipboard_clear_secs 0 600);
  terminals_sidebar_width_ch = pos (clamp t.terminals_sidebar_width_ch 10 80);
  commands_sidebar_width_ch = pos (clamp t.commands_sidebar_width_ch 10 80);
}

clamp-bounds : (v : ℤ) (lo hi : ℕ) → lo ≤ hi → (lo ≤ clamp v lo hi) × (clamp v lo hi ≤ hi)
clamp-bounds (pos n) lo hi h = (omega arith, omega arith)
clamp-bounds (negsuc n) lo hi h = (omega arith, h)

is_truthy_value-pos : (n : ℕ) → 1 ≤ n → is_truthy_value (number (pos n)) ≡ true
is_truthy_value-pos zero h = absurd (omega arith)
is_truthy_value-pos (suc n) h = refl

pub clamp-truthy :
    (v : ℤ) (lo hi : ℕ) → 1 ≤ lo → lo ≤ hi → is_truthy_value (number (pos (clamp v lo hi))) ≡ true
clamp-truthy v lo hi h k =
    let (below, _) = clamp-bounds v lo hi k in is_truthy_value-pos (clamp v lo hi) (omega arith)

-- The saved number of a property is from `lo` to `hi`.
abbrev pub IsWithin : ℕ → ℕ → Option ConfigValue → Type 0
IsWithin lo hi v = (n : ℕ) × (v ≡ some (number (pos n))) × (lo ≤ n) × (n ≤ hi)

clamp-IsWithin :
    (v : ℤ) (lo hi : ℕ) → lo ≤ hi → IsWithin lo hi (some (number (pos (clamp v lo hi))))
clamp-IsWithin v lo hi h =
    let (below, above) = clamp-bounds v lo hi h in (clamp v lo hi, refl, below, above)

-- Whatever is typed into the fields, the four numbers that the tab saves lie in their ranges.
pub to_save-IsWithin :
    (t : TerminalsTab) (cfg : Config)
    → IsWithin 100 5000 (merged (to_save t) cfg (codes "ATSPIPollingMs"))
      × IsWithin 0 600 (merged (to_save t) cfg (codes "ClipboardClearSecs"))
      × IsWithin 10 80 (merged (to_save t) cfg (codes "TerminalsSidebarWidthCh"))
      × IsWithin 10 80 (merged (to_save t) cfg (codes "CommandsSidebarWidthCh"))
unfolding to_save merged ◌==◌
to_save-IsWithin t cfg = (
  clamp-IsWithin t.atspi_polling_ms 100 5000 (omega arith),
  clamp-IsWithin t.clipboard_clear_secs 0 600 (omega arith),
  clamp-IsWithin t.terminals_sidebar_width_ch 10 80 (omega arith),
  clamp-IsWithin t.commands_sidebar_width_ch 10 80 (omega arith),
)

-- A tab that is opened after a save, whatever it held, loads exactly what was saved: no field falls back
-- to its default, and a clearing time of zero is kept.
pub load-to_save :
    (t before : TerminalsTab) (cfg : Config) → load (merged (to_save t) cfg) before ≡ clamped t
unfolding load to_save merged ◌==◌
load-to_save t before cfg =
    rw
      (
        clamp-truthy t.atspi_polling_ms 100 5000 (omega arith) (omega arith),
        clamp-truthy t.terminals_sidebar_width_ch 10 80 (omega arith) (omega arith),
        clamp-truthy t.commands_sidebar_width_ch 10 80 (omega arith) (omega arith),
      )
      refl
