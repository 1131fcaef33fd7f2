-- ===== src/Scanner/Tests.antt =====
-- The scanner's theorems at concrete events.
use pair_admin.Base.{◌≡◌, refl, none, List, [], ◌∷◌, Text, codes, ◌==◌}
use pair_admin.Scanner.{HostRow, ScannerStatus, closed, initial, start_resolved, empty_progress}
use pair_admin.Scanner.Events.{Event, report, ending, stopped, host, run, scan_lem}

abbrev row : Text → HostRow
row ip = record { ip = ip; port = 22; state = closed; ssh = none }

abbrev history : List Event
history =
    report (host (codes "s1") (row (codes "10.0.0.1")))
    ∷ report (host (codes "s0") (row (codes "10.0.0.2")))
    ∷ ending (stopped (codes "s0"))
    ∷ report (host (codes "s0") (row (codes "10.0.0.3")))
    ∷ []

scan_lem_example : run history (start_resolved (codes "s1") initial) ≡ record {
  active_scan_id = none;
  status = ScannerStatus.cancelled;
  progress = empty_progress;
  rows = row (codes "10.0.0.1") ∷ row (codes "10.0.0.3") ∷ [];
  stats = none;
  error = [];
}
unfolding ◌==◌
scan_lem_example = scan_lem (codes "s1") history initial refl
