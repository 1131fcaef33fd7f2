-- ===== src/Pane/Outcome.antt =====
-- The outcomes of the requests that the chat pane makes.
use pair_admin.Base.{◌≡◌, refl, Option, none, some, ◌++◌, Text, codes, or_else}
use pair_admin.Chat.{add_assistant_message, end_llm_request, set_stream_error}
use pair_admin.Settings.{set_active_model}
use pair_admin.Scanner.{Rejection}
use pair_admin.Pane.{
  PaneState, Draw, Request, filter_command, set_model, set_context_lines, force_refresh,
  export_chat, close_all, send_message, reply,
}

-- `err?.message`: a rejection that is a plain string has no such property.
abbrev message_property : Rejection → Option Text
message_property (Rejection.text m) = none
message_property (Rejection.error_object m) = some m
message_property (Rejection.other m) = none

abbrev pub fallback : Text → Rejection → Text
fallback prefix err = prefix ++ or_else (message_property err) (codes "Unknown error")

module _ {Term : Type 0} where
  abbrev pub resolved : Draw → Text → Request → Text → PaneState Term → PaneState Term
  resolved d tab (set_model arg) response s = record (reply d tab response s) {
    settings = set_active_model arg s.settings;
  }
  resolved d tab (set_context_lines lines) response s =
      reply d tab response (record s { context_lines = lines })
  resolved d tab (export_chat t format msgs) response s =
      reply d tab (codes "Exported to: " ++ response) s
  resolved d tab (close_all ids) response s = s
  resolved d tab (send_message t text context) response s = s
  resolved d tab (filter_command text) response s = reply d tab response s
  resolved d tab (force_refresh t) response s = reply d tab response s

  unfoldable pub rejected : Draw → Text → Request → Rejection → PaneState Term → PaneState Term
  rejected d tab (filter_command text) err s = reply d tab (fallback (codes "Filter error: ") err) s
  rejected d tab (set_model arg) err s = reply d tab (fallback (codes "Error: ") err) s
  rejected d tab (set_context_lines lines) err s = reply d tab (fallback (codes "Error: ") err) s
  rejected d tab (force_refresh t) err s = reply d tab (fallback (codes "Error: ") err) s
  rejected d tab (export_chat t format msgs) err s =
      reply d tab (fallback (codes "Export error: ") err) s
  rejected d tab (close_all ids) err s = s
  rejected d tab (send_message t text context) err s = record s {
    chat =
        set_stream_error d.reply_id tab none
          (or_else (message_property err) (codes "Failed to send message"))
          (end_llm_request s.chat);
  }

  -- The import of the binding for `SendMessage` itself fails.
  unfoldable pub unavailable : Draw → Text → PaneState Term → PaneState Term
  unavailable d tab s = record s {
    chat =
        add_assistant_message d.reply_id tab (codes "[Dev mode: Wails runtime unavailable]")
          (end_llm_request s.chat);
  }

  -- The error text is lost: a request that is rejected with a string is answered in the same words
  -- whatever the string is.
  pub rejected-text :
      (d : Draw) (tab : Text) (request : Request) (m m' : Text) (s : PaneState Term)
      → rejected d tab request (Rejection.text m) s ≡ rejected d tab request (Rejection.text m') s
  unfolding rejected
  rejected-text d tab (filter_command text) m m' s = refl
  rejected-text d tab (set_model arg) m m' s = refl
  rejected-text d tab (set_context_lines lines) m m' s = refl
  rejected-text d tab (force_refresh t) m m' s = refl
  rejected-text d tab (export_chat t format msgs) m m' s = refl
  rejected-text d tab (close_all ids) m m' s = refl
  rejected-text d tab (send_message t text context) m m' s = refl
