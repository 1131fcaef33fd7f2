-- ===== src/Network/Panel.antt =====
-- What the Network panel shows and what its buttons do: the markup and the handlers of
-- frontend/src/components/scanner/NetworkPanel.tsx. `Number` of a token is a parameter.
use pair_admin.Base.{
  ℤ, ltb, Bool, true, false, not, ◌&&◌, Option, none, some, List, [], ◌∷◌, ◌++◌, Text, codes,
  if◌then◌else◌, is_truthy, or_else, show, Widget, words, alert, button, text_field, when,
}
use pair_admin.Scanner.{
  ScannerState, ScannerStatus, HostRow, HostState, ScanRequest, ScanStats, SshInfo, stop_scan,
}
use pair_admin.Network.{search, actionable_rows, is_actionable, handle_add_to_hosts}
use pair_admin.Connect.Wizard.{Prefill}

pub record Panel : Type 0 where
  pub scanner : ScannerState
  -- missing before the settings are read
  pub enabled : Option Bool
  pub expanded : Bool
  pub target : Text
  pub ports_raw : Text
  pub dialog_open : Bool
  pub dialog_initial : Option Prefill

pub data Action : Type 0 where
  toggle_expanded search_clicked stop_clicked : Action
  type_target type_ports : Text → Action
  add_to_hosts : HostRow → Action

pub data ScanCall : Type 0 where
  start : ScanRequest → ScanCall
  stop : (scan_id : Text) → ScanCall

abbrev stop_calls : Option Text → List ScanCall
stop_calls none = []
stop_calls (some id) = stop id ∷ []

-- `ScannerEnabled` of the settings, missing where it is absent or the call fails.
unfoldable pub settings_loaded : Option Bool → Panel → Panel
settings_loaded answer p = record p { enabled = some (or_else answer false) }

-- The connection dialog is closed.
unfoldable pub on_close : Panel → Panel
on_close p = record p { dialog_open = false }

unfoldable pub press : (Text → Option ℤ) → Action → Panel → Panel × List ScanCall
press integer_of toggle_expanded p = (record p { expanded = not p.expanded }, [])
press integer_of search_clicked p = (p, start (search integer_of p.target p.ports_raw) ∷ [])
press integer_of stop_clicked p = (p, stop_calls (stop_scan p.scanner))
press integer_of (type_target t) p = (record p { target = t }, [])
press integer_of (type_ports t) p = (record p { ports_raw = t }, [])
press integer_of (add_to_hosts row) p =
    (record p { dialog_initial = some (handle_add_to_hosts row); dialog_open = true }, [])

abbrev pub is_scanning : ScannerStatus → Bool
is_scanning ScannerStatus.scanning = true
is_scanning _ = false

abbrev is_done : ScannerStatus → Bool
is_done ScannerStatus.done = true
is_done _ = false

abbrev is_error : ScannerStatus → Bool
is_error ScannerStatus.error = true
is_error _ = false

abbrev state_text : HostState → Text
state_text HostState.ssh = codes "ssh"
state_text HostState.ssh_known = codes "ssh-known"
state_text HostState.filtered = codes "filtered"
state_text HostState.closed = codes "closed"
state_text HostState.alive = codes "alive"
state_text HostState.dead = codes "dead"

-- The line below an address.
abbrev ssh_line : SshInfo → Text
ssh_line info =
    if is_truthy info.software
    then info.software ++ (codes " · " ++ show info.port)
    else if is_truthy info.banner
    then info.banner
    else codes "Port " ++ show info.port

abbrev row_line : HostRow → Text
row_line row = elim row.ssh [ none ↦ codes "Port " ++ show row.port | some info ↦ ssh_line info ]

abbrev pub row_widgets : HostRow → List (Widget Action)
row_widgets row =
    words row.ip
      ∷ words (state_text row.state)
      ∷ when (is_actionable row.state) (button (codes "Add to hosts") false (add_to_hosts row) ∷ [])
    ++ (words (row_line row) ∷ [])

unfoldable pub row_list : List HostRow → List (Widget Action)
row_list [] = []
row_list (row ∷ rows) = row_widgets row ++ row_list rows

unfoldable pub progress_row : ScannerState → List (Widget Action)
progress_row s =
    let tail = if ltb 0 s.progress.total then codes " scanned" else codes " scanning…" in
    words (show s.progress.done ++ (codes "/" ++ (show s.progress.total ++ tail)))
    ∷ button (codes "Stop") false stop_clicked
    ∷ []

abbrev stats_text : ScanStats → Text
stats_text t =
    show t.total
    ++ (codes " hosts · "
        ++ (show t.ssh
            ++ (codes " ssh · "
                ++ (show t.filtered
                    ++ (codes " filtered · "
                        ++ (show t.closed
                            ++ (codes " closed · " ++ (show t.duration_ms ++ codes "ms"))))))))

abbrev stats_row : Option ScanStats → List (Widget Action)
stats_row none = []
stats_row (some stats) = words (stats_text stats) ∷ []

-- How the scan ended.
unfoldable pub outcome : ScannerState → List (Widget Action)
outcome s =
    when (is_done s.status) (stats_row s.stats)
    ++ when (is_error s.status && is_truthy s.error) (alert s.error ∷ [])

unfoldable pub fields : Panel → List (Widget Action)
fields p =
    let scanning = is_scanning p.scanner.status in
    text_field (codes "Targets (blank = local /24s)") p.target type_target
    ∷ text_field (codes "SSH Ports (22)") p.ports_raw type_ports
    ∷ button (if scanning then codes "Searching…" else codes "Search") scanning search_clicked
    ∷ []

unfoldable pub view : Panel → List (Widget Action)
view p = when (or_else p.enabled false) (
    button (codes "Network Finder") false toggle_expanded
    ∷ when p.expanded (
        fields p
        ++ (when (is_scanning p.scanner.status) (progress_row p.scanner)
            ++ (outcome p.scanner ++ row_list (actionable_rows p.scanner.rows)))))
