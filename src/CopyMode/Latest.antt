-- ===== src/CopyMode/Latest.antt =====
-- The newest request decides what the filtered view shows.
use pair_admin.Base.{
  ℕ, ◌≡◌, refl, ◌+◌, Bool, true, false, not, ◌&&◌, ◌||◌, Option, none, some, List, [], ◌∷◌, Text,
  arith, any, filter, nat_eq, is_some, All,
}
use pair_admin.Terminal.{TerminalState}
use pair_admin.CopyMode.{
  CopyModeState, FilterAnswer, filtered_to, rejected, settings_loaded, on_close, on_open,
  filter_answered, clipboard_written, copied_timeout, run_filter, handle_view_change,
  handle_refresh, is_filtered, initial,
}
use pair_admin.CopyMode.Events.{
  Event, opens, closes, written, timeout, loads, shows, refreshes, answers, on_answer, on_event,
  run, IsLive, is_awaited,
}

any-filter_other :
    (r k : ℕ) (ns : List ℕ)
    → nat_eq r k ≡ false
    → any (nat_eq r) (filter (λ n. not (nat_eq k n)) ns) ≡ any (nat_eq r) ns
any-filter_other r k [] h = refl
any-filter_other r k (n ∷ ns) h = ground (arith, any-filter_other r k ns h)

on_answer-IsLive :
    (k : ℕ) (answer : FilterAnswer) (s : CopyModeState) → IsLive s → IsLive (on_answer k answer s)
unfolding filter_answered
on_answer-IsLive k (filtered_to text) s live =
    λ on. ground (arith, any-filter_other s.filter_request k s.awaited)
on_answer-IsLive k (rejected err) s live =
    λ on. ground (arith, any-filter_other s.filter_request k s.awaited)

module _ {Term : Type 0} (lines_of : Term → Option (List (Option Text))) where
  on_event-IsLive : (e : Event Term) (s : CopyModeState) → IsLive s → IsLive (on_event lines_of e s)
  unfolding on_event on_open on_close clipboard_written copied_timeout settings_loaded
      handle_view_change handle_refresh run_filter
  on_event-IsLive (opens ts) s live = λ on. ground arith
  on_event-IsLive closes s live = live
  on_event-IsLive written s live = live
  on_event-IsLive timeout s live = λ on. ground arith
  on_event-IsLive (loads lines) s live = λ on. ground arith
  on_event-IsLive (shows view ts) s live = λ on. ground arith
  on_event-IsLive (refreshes ts) s live = λ on. ground arith
  on_event-IsLive (answers k answer) s live = on_answer-IsLive k answer s live

  run-IsLive : (es : List (Event Term)) (s : CopyModeState) → IsLive s → IsLive (run lines_of es s)
  unfolding run
  run-IsLive [] s live = live
  run-IsLive (e ∷ es) s live = run-IsLive es (on_event lines_of e s) (on_event-IsLive e s live)

-- An open filtered view shows a text or an error, or reads "Filtering…".
abbrev IsShown : CopyModeState → Type 0
IsShown s =
    (s.opened && is_filtered s.view) ≡ true
    → (s.filtering || is_some s.filtered_text || is_some s.filter_error) ≡ true

module _ {Term : Type 0} (lines_of : Term → Option (List (Option Text))) where
  on_event-IsShown :
      (e : Event Term) (s : CopyModeState) → IsShown s → IsShown (on_event lines_of e s)
  unfolding on_event on_open on_close clipboard_written copied_timeout settings_loaded
      handle_view_change handle_refresh run_filter filter_answered
  on_event-IsShown (opens ts) s shown = λ on. ground arith
  on_event-IsShown closes s shown = λ on. ground arith
  on_event-IsShown written s shown = shown
  on_event-IsShown timeout s shown = λ on. ground arith
  on_event-IsShown (loads lines) s shown = λ on. ground arith
  on_event-IsShown (shows view ts) s shown = λ on. ground arith
  on_event-IsShown (refreshes ts) s shown = λ on. ground arith
  on_event-IsShown (answers k (filtered_to text)) s shown = λ on. ground arith
  on_event-IsShown (answers k (rejected err)) s shown = λ on. ground arith

  run-IsShown :
      (es : List (Event Term)) (s : CopyModeState) → IsShown s → IsShown (run lines_of es s)
  unfolding run
  run-IsShown [] s shown = shown
  run-IsShown (e ∷ es) s shown = run-IsShown es (on_event lines_of e s) (on_event-IsShown e s shown)

  -- After any history from the mount on, with closing and opening in it: once every request has its
  -- answer, nothing reads "Filtering…", and an open filtered view shows a text or an error.
  pub filtering_ends :
      (es : List (Event Term))
      → (run lines_of es initial).awaited ≡ []
      → let s = run lines_of es initial in
        (s.filtering ≡ false)
        × ((not (s.opened && is_filtered s.view)
              || is_some s.filtered_text
              || is_some s.filter_error)
            ≡ true)
  filtering_ends es h =
      let live = run-IsLive lines_of es initial (λ on. ground arith) in
      let shown = run-IsShown es initial (λ on. ground arith) in (ground arith, ground arith)

-- No new request and no new session; an answer is to another request.
abbrev is_quiet : {Term : Type 0} → ℕ → Event Term → Bool
is_quiet r (opens ts) = false
is_quiet r closes = false
is_quiet r (refreshes ts) = false
is_quiet r (answers k answer) = not (nat_eq k r)
is_quiet r _ = true

abbrev IsQuiet : {Term : Type 0} → ℕ → List (Event Term) → Type 0
IsQuiet r es = All (λ e. is_quiet r e ≡ true) es

-- The request `r` is the newest, and awaited.
abbrev IsPending : ℕ → CopyModeState → Type 0
IsPending r s =
    (s.filter_request ≡ r)
    × (s.filtering ≡ true)
    × (s.filter_error ≡ none)
    × (is_awaited r s ≡ true)

-- The answer to the request `r`, the newest, is on display.
abbrev pub IsAnswered : ℕ → Text → CopyModeState → Type 0
IsAnswered r text s =
    (s.filter_request ≡ r)
    × (s.filtering ≡ false)
    × (s.filter_error ≡ none)
    × (s.filtered_text ≡ some text)

module _ {Term : Type 0} (lines_of : Term → Option (List (Option Text))) where
  on_event-IsPending :
      (r : ℕ) (e : Event Term) (s : CopyModeState)
      → is_quiet r e ≡ true
      → IsPending r s
      → IsPending r (on_event lines_of e s)
  unfolding on_event clipboard_written copied_timeout settings_loaded handle_view_change run_filter
      filter_answered
  on_event-IsPending r (opens ts) s q h = absurd (ground arith)
  on_event-IsPending r closes s q h = absurd (ground arith)
  on_event-IsPending r written s q h = h
  on_event-IsPending r timeout s q h = ground arith
  on_event-IsPending r (loads none) s q h = h
  on_event-IsPending r (loads (some lines)) s q h = h
  on_event-IsPending r (shows view ts) s q h = ground arith
  on_event-IsPending r (refreshes ts) s q h = absurd (ground arith)
  on_event-IsPending r (answers k (filtered_to text)) s q h =
      ground (arith, any-filter_other r k s.awaited)
  on_event-IsPending r (answers k (rejected err)) s q h =
      ground (arith, any-filter_other r k s.awaited)

  on_event-IsAnswered :
      (r : ℕ) (text : Text) (e : Event Term) (s : CopyModeState)
      → is_quiet r e ≡ true
      → IsAnswered r text s
      → IsAnswered r text (on_event lines_of e s)
  unfolding on_event clipboard_written copied_timeout settings_loaded handle_view_change run_filter
      filter_answered
  on_event-IsAnswered r text (opens ts) s q h = absurd (ground arith)
  on_event-IsAnswered r text closes s q h = absurd (ground arith)
  on_event-IsAnswered r text written s q h = h
  on_event-IsAnswered r text timeout s q h = ground arith
  on_event-IsAnswered r text (loads none) s q h = h
  on_event-IsAnswered r text (loads (some lines)) s q h = h
  on_event-IsAnswered r text (shows view ts) s q h = ground arith
  on_event-IsAnswered r text (refreshes ts) s q h = absurd (ground arith)
  on_event-IsAnswered r text (answers k (filtered_to other)) s q h = ground arith
  on_event-IsAnswered r text (answers k (rejected err)) s q h = ground arith

  run-kept :
      (P : CopyModeState → Type 0) (r : ℕ)
      → ((e : Event Term) (s : CopyModeState)
          → is_quiet r e ≡ true
          → P s
          → P (on_event lines_of e s))
      → (es : List (Event Term)) (s : CopyModeState) → IsQuiet r es
      → P s
      → P (run lines_of es s)
  unfolding run
  run-kept P r step [] s q h = h
  run-kept P r step (e ∷ es) s q h =
      run-kept P r step es (on_event lines_of e s) q.1 (step e s q.0 h)

  answer-IsAnswered :
      (r : ℕ) (text : Text) (s : CopyModeState)
      → IsPending r s
      → IsAnswered r text (on_answer r (filtered_to text) s)
  unfolding filter_answered
  answer-IsAnswered r text s h = ground arith

  run_filter-IsPending :
      (ts : TerminalState Term) (s : CopyModeState)
      → IsPending (s.filter_request + 1) (run_filter lines_of ts s).0
  unfolding run_filter
  run_filter-IsPending ts s = ground arith

  -- The newest request wins: answers to older requests, in any order and as texts or errors, views
  -- that are switched and texts that are copied, before its own answer and after it, leave that on
  -- display, as long as no further request is made and the dialog stays open.
  pub newest_wins :
      (ts : TerminalState Term) (s : CopyModeState) (text : Text) (before after : List (Event Term))
      → IsQuiet (s.filter_request + 1) before
      → IsQuiet (s.filter_request + 1) after
      → IsAnswered (s.filter_request + 1) text (
          run lines_of after (
            on_answer
              (s.filter_request + 1)
              (filtered_to text)
              (run lines_of before (run_filter lines_of ts s).0)))
  newest_wins ts s text before after q p =
      run-kept (IsAnswered (s.filter_request + 1) text) (s.filter_request + 1)
        (on_event-IsAnswered (s.filter_request + 1) text) after _ p
        (answer-IsAnswered (s.filter_request + 1) text _ (
          run-kept (IsPending (s.filter_request + 1)) (s.filter_request + 1)
            (on_event-IsPending (s.filter_request + 1)) before _ q (run_filter-IsPending ts s)))
