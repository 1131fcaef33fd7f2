-- ===== src/Scanner.antt =====
-- frontend/src/stores/scannerStore.ts, the state of the network scan, with the events that
-- frontend/src/hooks/useScanner.ts dispatches to it. The back end's `Start` is asynchronous: its two
-- outcomes are events of their own here, so that others can come between the call and its outcome.
pub mod Events
pub mod Tests
use pair_admin.Base.{
  ℕ, Bool, true, false, not, ◌&&◌, Option, none, some, List, [], ◌∷◌, ◌++◌, Text, ◌==◌, is_truthy,
  if◌then◌else◌, or_else,
}

pub data ScannerStatus : Type 0 where
  idle scanning done error cancelled : ScannerStatus

pub data HostState : Type 0 where
  ssh ssh_known filtered closed alive dead : HostState

pub record SshInfo : Type 0 where
  pub port : ℕ
  pub banner : Text
  pub software : Text
  pub host_key_type : Text
  pub host_key_fingerprint : Text

pub record HostRow : Type 0 where
  pub ip : Text
  pub port : ℕ
  pub state : HostState
  pub ssh : Option SshInfo

pub record ScanProgress : Type 0 where
  pub done : ℕ
  pub total : ℕ
  pub active_probes : ℕ

pub record ScanStats : Type 0 where
  pub total : ℕ
  pub ssh : ℕ
  pub filtered : ℕ
  pub closed : ℕ
  pub duration_ms : ℕ

abbrev pub empty_progress : ScanProgress
empty_progress = record { done = 0; total = 0; active_probes = 0 }

pub record ScannerState : Type 0 where
  pub active_scan_id : Option Text
  pub status : ScannerStatus
  pub progress : ScanProgress
  pub rows : List HostRow
  pub stats : Option ScanStats
  pub error : Text

abbrev pub initial : ScannerState
initial = record {
  active_scan_id = none;
  status = idle;
  progress = empty_progress;
  rows = [];
  stats = none;
  error = [];
}

-- The argument of the back end's `Start`.
pub record ScanRequest : Type 0 where
  pub targets : List Text
  pub ports : List ℕ
  pub max_probes : ℕ

abbrev pub scan_request : List Text → List ℕ → Option ℕ → ScanRequest
scan_request targets ports max_probes = record {
  targets = targets;
  ports = ports;
  max_probes = or_else max_probes 0;
}

-- What `Start` may be rejected with: a string, an `Error` with its message, or another value, shown
-- by `String(err)`.
pub data Rejection : Type 0 where
  text error_object other : Text → Rejection

abbrev message_of : Rejection → Text
message_of (text m) = m
message_of (error_object m) = m
message_of (other m) = m

unfoldable pub start_resolved : Text → ScannerState → ScannerState
start_resolved scan_id s = record {
  active_scan_id = some scan_id;
  status = scanning;
  progress = empty_progress;
  rows = [];
  stats = none;
  error = [];
}

unfoldable pub start_rejected : Rejection → ScannerState → ScannerState
start_rejected err s = record s {
  active_scan_id = none;
  status = ScannerStatus.error;
  error = message_of err;
}

-- The scan that `stopScan` asks the back end to stop.
abbrev pub stop_scan : ScannerState → Option Text
stop_scan s = elim s.active_scan_id [
  | none ↦ none
  | some id ↦ if is_truthy id then some id else none
]

-- `state.activeScanID && event.scanID !== state.activeScanID`
abbrev pub is_foreign : Text → Option Text → Bool
is_foreign scan_id none = false
is_foreign scan_id (some active) = is_truthy active && not (scan_id == active)

unfoldable pub handle_progress : Text → ScanProgress → ScannerState → ScannerState
handle_progress scan_id progress s =
    if is_foreign scan_id s.active_scan_id then s else record s { progress = progress }

unfoldable pub handle_host : Text → HostRow → ScannerState → ScannerState
handle_host scan_id row s =
    if is_foreign scan_id s.active_scan_id then s else record s { rows = s.rows ++ row ∷ [] }

unfoldable pub handle_done : Text → ScanStats → ScannerState → ScannerState
handle_done scan_id stats s = record s {
  active_scan_id = none;
  status = ScannerStatus.done;
  stats = some stats;
}

unfoldable pub handle_error : Text → Text → ScannerState → ScannerState
handle_error scan_id message s = record s {
  active_scan_id = none;
  status = ScannerStatus.error;
  error = message;
}

unfoldable pub handle_cancelled : Text → ScannerState → ScannerState
handle_cancelled scan_id s = record s { active_scan_id = none; status = cancelled }

unfoldable pub reset : ScannerState → ScannerState
reset s = initial
