-- ===== src/Pane/Transcript.antt =====
-- What the handler leaves in the transcript, and when the activity indicator is armed.
use pair_admin.Base.{
  ◌≡◌, refl, Bool, true, false, Option, some, List, Text, ◌≢◌, ◌∙◌, ◌==◌, eq_iff, arith,
  if◌then◌else◌, trim,
}
use pair_admin.Chat.{add_user_message, add_system_message, clear_tab, start_llm_request}
use pair_admin.Pane.{
  terminal_context, PaneState, Draw, Request, send_message, dispatch, handle_send,
}

-- Whether a request is for the model.
abbrev is_send : Option Request → Bool
is_send (some (send_message tab text context)) = true
is_send _ = false

module _ {Term : Type 0} (lines_of : Term → Option (List (Option Text))) where
  dispatch-llm_request :
      (d : Draw) (tab text trimmed : Text) (s : PaneState Term)
      → let (s', request) = dispatch lines_of d tab text trimmed s in
        s'.chat.llm_request ≡ (if is_send request then some d.now else s.chat.llm_request)
  unfolding dispatch clear_tab add_system_message start_llm_request
  dispatch-llm_request d tab text trimmed s = ground arith

  -- The activity indicator is armed exactly when a message goes to the model; every command, its error
  -- branches included, leaves the request time as it was.
  pub handle_send-llm_request :
      (d : Draw) (tab text : Text) (s : PaneState Term)
      → let (s', request) = handle_send lines_of d tab text s in
        s'.chat.llm_request ≡ (if is_send request then some d.now else s.chat.llm_request)
  unfolding handle_send add_user_message
  handle_send-llm_request d tab text s =
      dispatch-llm_request d tab text (trim text)
        (record s { chat = add_user_message d.user_id tab text s.chat })

  dispatch-send :
      (d : Draw) (tab text trimmed : Text) (s : PaneState Term)
      → let (s', request) = dispatch lines_of d tab text trimmed s in
        let context = terminal_context lines_of tab s in
        is_send request ≡ true
        → (request ≡ some (send_message tab text context)) × (s'.last_sent ≡ some (text, context))
  unfolding dispatch
  dispatch-send d tab text trimmed s h = ground arith

  -- What goes to the model is the text as it was typed, not trimmed, with the terminal's text as far as
  -- `/context` says, and the same pair is kept as the last one sent.
  pub handle_send-send :
      (d : Draw) (tab text : Text) (s : PaneState Term)
      → is_send (handle_send lines_of d tab text s).1 ≡ true
      → let (s', request) = handle_send lines_of d tab text s in
        let context = terminal_context lines_of tab s in
        (request ≡ some (send_message tab text context)) × (s'.last_sent ≡ some (text, context))
  unfolding handle_send
  handle_send-send d tab text s h =
      dispatch-send d tab text (trim text)
        (record s { chat = add_user_message d.user_id tab text s.chat }) h

  dispatch-frame :
      (d : Draw) (tab text trimmed t : Text) (s : PaneState Term)
      → (tab == t) ≡ false
      → (dispatch lines_of d tab text trimmed s).0.chat.messages_by_tab t ≡ s.chat.messages_by_tab t
  unfolding dispatch clear_tab add_system_message start_llm_request
  dispatch-frame d tab text trimmed t s h = ground arith

  -- Whatever is sent from a tab, a command or a question, the messages of every other tab stay.
  pub handle_send-frame :
      (d : Draw) (tab text t : Text) (s : PaneState Term)
      → tab ≢ t
      → (handle_send lines_of d tab text s).0.chat.messages_by_tab t ≡ s.chat.messages_by_tab t
  unfolding handle_send add_user_message
  handle_send-frame d tab text t s h =
      let other : (tab == t) ≡ false = ground (arith, eq_iff tab t) in
      dispatch-frame d tab text (trim text) t
        (record s { chat = add_user_message d.user_id tab text s.chat }) other
      ∙ rw other refl
