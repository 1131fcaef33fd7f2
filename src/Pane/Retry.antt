-- ===== src/Pane/Retry.antt =====
-- The rest of the chat pane: the number of lines that is loaded at the mount, and the button that sends the
-- last question again.
use pair_admin.Base.{
  ◌≡◌, refl, Option, none, some, List, Text, arith, zero, suc, ℤ, pos, negsuc, trim,
}
use pair_admin.Chat.{add_user_message}
use pair_admin.Pane.{
  PaneState, Draw, Request, send_message, terminal_context, send_to_llm, dispatch, handle_send,
}

-- `if (cfg?.ContextLines)`, with `none` where there is none
abbrev loaded_lines : Option ℤ → ℤ → ℤ
loaded_lines none before = before
loaded_lines (some (pos zero)) before = before
loaded_lines (some (pos (suc n))) before = pos (suc n)
loaded_lines (some (negsuc n)) before = negsuc n

unfoldable pub settings_loaded : {Term : Type 0} → Option ℤ → PaneState Term → PaneState Term
settings_loaded lines s = record s { context_lines = loaded_lines lines s.context_lines }

module _ {Term : Type 0} (lines_of : Term → Option (List (Option Text))) where
  unfoldable pub handle_retry : Draw → Text → PaneState Term → PaneState Term × Option Request
  handle_retry d tab s = elim s.last_sent [
    | none ↦ (s, none)
    | some (text, context) ↦ handle_send lines_of d tab text s
  ]

  -- Which texts go to the model depends on the text alone.
  dispatch-send :
      (d d' : Draw) (a b a' q trimmed context : Text) (s s' : PaneState Term)
      → (dispatch lines_of d a q trimmed s).1 ≡ some (send_message a' q context)
      → dispatch lines_of d' b q trimmed s' ≡ send_to_llm lines_of d' b q s'
  unfolding dispatch
  dispatch-send d d' a b a' q trimmed context s s' h = ground arith

  -- The question that is sent again is the last one of all tabs: after a question from the tab `a`, the
  -- button in another tab `b` sends the text of that question from `b`, with the text of the terminal of
  -- `b`.
  pub retry_elsewhere :
      (d d' : Draw) (a b q context : Text) (s : PaneState Term)
      → (handle_send lines_of d a q s).1 ≡ some (send_message a q context)
      → let s' = (handle_send lines_of d a q s).0 in
        (handle_retry d' b s').1 ≡ some (send_message b q (terminal_context lines_of b s'))
  unfolding handle_send handle_retry
  retry_elsewhere d d' a b q context s h =
      let asked = record s { chat = add_user_message d.user_id a q s.chat } in
      let sent = (send_to_llm lines_of d a q asked).0 in
      rw (dispatch-send d d a a a q (trim q) context asked asked h) (
        rw
          (dispatch-send d d' a b a q (trim q) context asked
            (record sent { chat = add_user_message d'.user_id b q sent.chat }) h)
          refl)
