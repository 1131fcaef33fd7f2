-- ===== src/CopyMode/Events.antt =====
-- The dialog's events, and what every history of them keeps.
use pair_admin.Base.{
  ℕ, ◌≡◌, Bool, true, not, Option, List, [], ◌∷◌, Text, any, filter, nat_eq, if◌then◌else◌, ℤ,
}
use pair_admin.Terminal.{TerminalState}
use pair_admin.CopyMode.{
  CopyModeState, CopyModeView, FilterAnswer, settings_loaded, on_close, on_open, filter_answered,
  clipboard_written, copied_timeout, handle_view_change, handle_refresh,
}

-- Opening, the tabs and Refresh read the terminal store of that moment.
pub data Event (Term : Type 0) : Type 0 where
  opens : TerminalState Term → Event Term
  closes written timeout : Event Term
  loads : Option ℤ → Event Term
  shows : CopyModeView → TerminalState Term → Event Term
  refreshes : TerminalState Term → Event Term
  answers : ℕ → FilterAnswer → Event Term

-- The number is awaited.
abbrev pub is_awaited : ℕ → CopyModeState → Bool
is_awaited request s = any (nat_eq request) s.awaited

-- An answer comes to a request that is awaited, and once.
abbrev pub on_answer : ℕ → FilterAnswer → CopyModeState → CopyModeState
on_answer request answer s =
    let s' = record s { awaited = filter (λ r. not (nat_eq request r)) s.awaited } in
    if is_awaited request s then filter_answered request answer s' else s

module _ {Term : Type 0} (lines_of : Term → Option (List (Option Text))) where
  unfoldable pub on_event : Event Term → CopyModeState → CopyModeState
  on_event (opens ts) s = on_open lines_of ts s
  on_event closes s = on_close s
  on_event written s = clipboard_written s
  on_event timeout s = copied_timeout s
  on_event (loads lines) s = settings_loaded lines s
  on_event (shows view ts) s = (handle_view_change lines_of view ts s).0
  on_event (refreshes ts) s = (handle_refresh lines_of ts s).0
  on_event (answers request answer) s = on_answer request answer s

  unfoldable pub run : List (Event Term) → CopyModeState → CopyModeState
  run [] s = s
  run (e ∷ es) s = run es (on_event e s)

-- While the view reads "Filtering…", the newest request is awaited.
abbrev pub IsLive : CopyModeState → Type 0
IsLive s = s.filtering ≡ true → is_awaited s.filter_request s ≡ true
