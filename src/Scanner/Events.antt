-- ===== src/Scanner/Events.antt =====
-- A scan as a history of events.
use pair_admin.Base.{
  ◌≡◌, ◌∙◌, refl, true, false, Option, none, some, List, [], ◌∷◌, ◌++◌, append_assoc, append-nil,
  Text, ◌==◌, is_truthy, arith, if◌then◌else◌, any, Bool, or_else, Bool-cases, inl, inr,
}
use pair_admin.Scanner.{
  ScannerStatus, ScannerState, HostRow, ScanProgress, ScanStats, scanning, start_resolved,
  handle_progress, handle_host, handle_done, handle_error, handle_cancelled, empty_progress,
}

-- The events that stream while a scan runs, each with the id of the scan that it belongs to.
pub data Live : Type 0 where
  progress : (scan_id : Text) → ScanProgress → Live
  host : (scan_id : Text) → HostRow → Live

-- The events that end a scan.
pub data Terminal : Type 0 where
  finished : (scan_id : Text) → ScanStats → Terminal
  failed : (scan_id message : Text) → Terminal
  stopped : (scan_id : Text) → Terminal

unfoldable pub live : Live → ScannerState → ScannerState
live (progress scan_id p) s = handle_progress scan_id p s
live (host scan_id row) s = handle_host scan_id row s

unfoldable pub terminal : Terminal → ScannerState → ScannerState
terminal (finished scan_id stats) s = handle_done scan_id stats s
terminal (failed scan_id message) s = handle_error scan_id message s
terminal (stopped scan_id) s = handle_cancelled scan_id s

-- Everything that a panel hears: reports, and the ends of scans.
pub data Event : Type 0 where
  report : Live → Event
  ending : Terminal → Event

unfoldable pub on_event : Event → ScannerState → ScannerState
on_event (report e) s = live e s
on_event (ending e) s = terminal e s

unfoldable pub run : List Event → ScannerState → ScannerState
run [] s = s
run (e ∷ es) s = run es (on_event e s)

-- The rows that are reported by any scan.
abbrev pub all_rows : List Event → List HostRow
all_rows [] = []
all_rows (report (host scan_id row) ∷ es) = row ∷ all_rows es
all_rows (report (progress scan_id p) ∷ es) = all_rows es
all_rows (ending e ∷ es) = all_rows es

-- Those of one scan up to the first end of any scan, and those of any scan after it.
abbrev pub shown_rows : Text → List Event → List HostRow
shown_rows id [] = []
shown_rows id (report (progress scan_id p) ∷ es) = shown_rows id es
shown_rows id (report (host scan_id row) ∷ es) =
    let rest = shown_rows id es in if scan_id == id then row ∷ rest else rest
shown_rows id (ending e ∷ es) = all_rows es

abbrev pub last_progress : List Event → Option ScanProgress
last_progress [] = none
last_progress (report (progress scan_id p) ∷ es) = some (or_else (last_progress es) p)
last_progress (report (host scan_id row) ∷ es) = last_progress es
last_progress (ending e ∷ es) = last_progress es

abbrev pub shown_progress : Text → List Event → Option ScanProgress
shown_progress id [] = none
shown_progress id (report (host scan_id row) ∷ es) = shown_progress id es
shown_progress id (report (progress scan_id p) ∷ es) =
    let rest = shown_progress id es in if scan_id == id then some (or_else rest p) else rest
shown_progress id (ending e ∷ es) = last_progress es

abbrev or_some {ℓ} : {A : Type ℓ} → Option A → Option A → Option A
or_some none before = before
or_some (some a) before = some a

-- What the ends of scans leave, each the last one of its kind.
abbrev pub status_of : Terminal → ScannerStatus
status_of (finished scan_id stats) = ScannerStatus.done
status_of (failed scan_id message) = ScannerStatus.error
status_of (stopped scan_id) = ScannerStatus.cancelled

abbrev pub last_status : List Event → Option ScannerStatus
last_status [] = none
last_status (report e ∷ es) = last_status es
last_status (ending e ∷ es) = some (or_else (last_status es) (status_of e))

abbrev pub last_stats : List Event → Option ScanStats
last_stats [] = none
last_stats (ending (finished scan_id stats) ∷ es) = some (or_else (last_stats es) stats)
last_stats (e ∷ es) = last_stats es

abbrev pub last_message : List Event → Option Text
last_message [] = none
last_message (ending (failed scan_id message) ∷ es) = some (or_else (last_message es) message)
last_message (e ∷ es) = last_message es

or_some-some {ℓ} : {A : Type ℓ} (o : Option A) (a : A) → or_some o (some a) ≡ some (or_else o a)
or_some-some none a = refl
or_some-some (some b) a = refl

or_some-none {ℓ} : {A : Type ℓ} (o : Option A) → or_some o none ≡ o
or_some-none none = refl
or_some-none (some a) = refl

-- Without a running scan everything that any scan reports is taken.
run-ended :
    (es : List Event) (s : ScannerState)
    → run es (record s { active_scan_id = none }) ≡ record {
      active_scan_id = none;
      status = or_else (last_status es) s.status;
      progress = or_else (last_progress es) s.progress;
      rows = s.rows ++ all_rows es;
      stats = or_some (last_stats es) s.stats;
      error = or_else (last_message es) s.error;
    }
unfolding run on_event live terminal handle_progress handle_host handle_done handle_error
    handle_cancelled
run-ended [] s = rw append-nil
run-ended (report (progress j p) ∷ es) s = run-ended es (record s { progress = p })
run-ended (report (host j row) ∷ es) s =
    run-ended es (record s { rows = s.rows ++ row ∷ [] }) ∙ (rw append_assoc)
run-ended (ending (finished j stats) ∷ es) s =
    run-ended es (record s { status = ScannerStatus.done; stats = some stats })
    ∙ rw (or_some-some (last_stats es) stats) refl
run-ended (ending (failed j m) ∷ es) s =
    run-ended es (record s { status = ScannerStatus.error; error = m })
run-ended (ending (stopped j) ∷ es) s = run-ended es (record s { status = ScannerStatus.cancelled })

abbrev pub is_ending : Event → Bool
is_ending (report e) = false
is_ending (ending e) = true

run-running :
    (id : Text) (es : List Event) (s : ScannerState)
    → is_truthy id ≡ true
    → run es (record s { active_scan_id = some id }) ≡ record {
      active_scan_id = if any is_ending es then none else some id;
      status = or_else (last_status es) s.status;
      progress = or_else (shown_progress id es) s.progress;
      rows = s.rows ++ shown_rows id es;
      stats = or_some (last_stats es) s.stats;
      error = or_else (last_message es) s.error;
    }
unfolding run on_event live terminal handle_progress handle_host handle_done handle_error
    handle_cancelled
run-running id [] s t = rw append-nil
run-running id (report (progress j p) ∷ es) s t = elim (Bool-cases (j == id)) [
  | inl own ↦ rw (t, own) (run-running id es (record s { progress = p }) t ∙ ground arith)
  | inr other ↦ rw (t, other) (run-running id es s t)
]
run-running id (report (host j row) ∷ es) s t = elim (Bool-cases (j == id)) [
  | inl own ↦
      rw (t, own) (run-running id es (record s { rows = s.rows ++ row ∷ [] }) t ∙ (rw append_assoc))
  | inr other ↦ rw (t, other) (run-running id es s t)
]
run-running id (ending (finished j stats) ∷ es) s t =
    run-ended es (record s { status = ScannerStatus.done; stats = some stats })
    ∙ rw (or_some-some (last_stats es) stats) refl
run-running id (ending (failed j m) ∷ es) s t =
    run-ended es (record s { status = ScannerStatus.error; error = m })
run-running id (ending (stopped j) ∷ es) s t =
    run-ended es (record s { status = ScannerStatus.cancelled })

-- From the moment that `Start` returns an id that is not empty, whatever else the panel held before and
-- whatever this scan and others report in between, their ends included: the scan is the active one until
-- any scan ends. The rows are those that this scan reports until then, and those of any scan from then on,
-- in order; the progress is the last one that is reported in the same way. The panel reads as scanning
-- until the first end and then as the last one says; the summary and the error are the last ones that come.
pub scan_lem :
    (id : Text) (es : List Event) (s : ScannerState)
    → is_truthy id ≡ true
    → run es (start_resolved id s) ≡ record {
      active_scan_id = if any is_ending es then none else some id;
      status = or_else (last_status es) scanning;
      progress = or_else (shown_progress id es) empty_progress;
      rows = shown_rows id es;
      stats = last_stats es;
      error = or_else (last_message es) [];
    }
unfolding start_resolved
scan_lem id es s t =
    run-running id es (start_resolved id s) t ∙ rw (or_some-none (last_stats es)) refl
