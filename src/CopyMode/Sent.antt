-- ===== src/CopyMode/Sent.antt =====
-- What the filtered view shows against what is sent to the model, and across two sessions.
use pair_admin.Base.{
  ◌≡◌, refl, ◌+◌, true, none, some, Option, List, [], ◌∷◌, Text, arith, Option-cases, inl, inr,
}
use pair_admin.Terminal.{TerminalState, get_term_ref}
use pair_admin.Context.{read_terminal_lines}
use pair_admin.Pane.{PaneState, Draw, send_message, terminal_context, send_to_llm}
use pair_admin.CopyMode.{
  CopyModeState, filtered, filtered_to, is_filtered, on_close, on_open, filter_answered, run_filter,
  handle_view_change, handle_refresh, take_filtered_source, take_snapshot,
}
use pair_admin.CopyMode.Events.{opens, closes, refreshes, answers, on_event, run}

module _ {Term : Type 0} (lines_of : Term → Option (List (Option Text))) where
  source-context :
      (p : PaneState Term)
      → take_filtered_source lines_of p.context_lines p.terminals
        ≡ terminal_context lines_of p.terminals.active_tab_id p
  unfolding take_filtered_source read_terminal_lines
  source-context p = elim (Option-cases (get_term_ref p.terminals.active_tab_id p.terminals)) [
    | inl e ↦ rw (e, get_term_ref, terminal_context) refl
    | inr (term, e) ↦ rw (e, get_term_ref, terminal_context) refl
  ]

  -- Refresh of the filtered view passes to the filter exactly the text that a question from the active
  -- tab sends to the model, provided that the dialog and the chat pane have the same number of lines.
  pub refresh-send_to_llm :
      (p : PaneState Term) (s : CopyModeState) (d : Draw) (text : Text)
      → is_filtered s.view ≡ true
      → s.context_lines ≡ p.context_lines
      → (source : Text) × ((handle_refresh lines_of p.terminals s).1 ≡ some source)
        × ((send_to_llm lines_of d p.terminals.active_tab_id text p).1
            ≡ some (send_message p.terminals.active_tab_id text source))
  unfolding handle_refresh run_filter
  refresh-send_to_llm p s d text h k = (
    take_filtered_source lines_of s.context_lines p.terminals,
    rw h refl,
    rw (k, source-context p) refl,
  )

  -- A request of the session before is not superseded by closing and opening: its answer comes up in
  -- the new session, and the first switch to the filtered view then asks for nothing.
  pub stale_lands :
      (before now : TerminalState Term) (s : CopyModeState) (text : Text)
      → is_filtered s.view ≡ true
      → let r = s.filter_request + 1 in
        let s' =
          run lines_of
            (refreshes before ∷ closes ∷ opens now ∷ answers r (filtered_to text) ∷ [])
            s in
        (s'.snapshot ≡ take_snapshot lines_of now)
        × (s'.filtered_text ≡ some text)
        × ((handle_view_change lines_of filtered now s').1 ≡ none)
  unfolding run on_event handle_refresh run_filter on_open on_close filter_answered
      handle_view_change
  stale_lands before now s text h = ground arith
