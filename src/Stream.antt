-- ===== src/Stream.antt =====
-- frontend/src/hooks/useLLMStream.ts: chunks of a response arrive as events with sequence numbers
-- and are appended to one message in order. The hook's refs are a record, a `Map` is an association
-- list, and an id for `startStreamingMessage` is an argument of the handlers that may call it.
pub mod Pending
pub mod Order
pub mod Flush
pub mod Messages
pub mod Result
pub mod Switch
pub mod Status
pub mod Tests
use pair_admin.Base.{
  ℕ, zero, suc, ◌+◌, Bool, true, false, not, Option, none, some, List, [], ◌∷◌, Text, if◌then◌else◌,
  nat_eq, or_else, length, filter,
}
use pair_admin.Chat.{
  ChatState, start_streaming_message, append_chunk, finalize_message, set_stream_error,
  end_llm_request,
}
use pair_admin.Settings.{
  SettingsState, ConnectionStatus, connected, disconnected, is_disabled, set_connection_status,
}

-- `map.get(seq)`; `map.has(seq)` asks whether it is `some`.
abbrev pub map_get : ℕ → List (ℕ × Text) → Option Text
map_get k [] = none
map_get k ((j, t) ∷ m) = let rest = map_get k m in if nat_eq j k then some t else rest

-- `map.set(seq, text)`
abbrev pub map_set : ℕ → Text → List (ℕ × Text) → List (ℕ × Text)
map_set k v [] = (k, v) ∷ []
map_set k v ((j, t) ∷ m) =
    let rest = map_set k v m in if nat_eq j k then (k, v) ∷ m else (j, t) ∷ rest

-- `map.delete(seq)`
abbrev pub map_delete : ℕ → List (ℕ × Text) → List (ℕ × Text)
map_delete k = filter (λ e. not (nat_eq e.0 k))

-- The hook's three refs, and the stores that it writes.
pub record World : Type 0 where
  pub msg_id : Option Text
  pub next_seq : ℕ
  pub pending : List (ℕ × Text)
  pub chat : ChatState
  pub settings : SettingsState

-- The start of the effect, run again whenever the tab id changes.
unfoldable pub mount : World → World
mount w = record w { msg_id = none; next_seq = 0; pending = [] }

-- `if (!msgIdRef.current) msgIdRef.current = startStreamingMessage(tabId)`
abbrev open_message : Text → Text → World → World
open_message id tab w = elim w.msg_id [
  | none ↦ record w { msg_id = some id; chat = start_streaming_message id tab w.chat }
  | some open_id ↦ w
]

-- Open the message, append the text, count the chunk.
unfoldable pub deliver : Text → Text → Text → World → World
deliver id tab text w =
    let w' = open_message id tab w in
    record w' {
      chat = append_chunk tab (or_else w'.msg_id id) text w'.chat;
      next_seq = w'.next_seq + 1;
    }

-- The `while` loop of `flushPending`, on fuel.
unfoldable pub flush_loop : ℕ → Text → Text → World → World
flush_loop zero id tab w = w
flush_loop (suc fuel) id tab w = elim (map_get w.next_seq w.pending) [
  | none ↦ w
  | some text ↦
      flush_loop fuel id tab
        (deliver id tab text (record w { pending = map_delete w.next_seq w.pending }))
]

-- Each round deletes an entry, so their number is fuel enough.
unfoldable pub flush_pending : Text → Text → World → World
flush_pending id tab w = flush_loop (length w.pending) id tab w

unfoldable pub handle_chunk : Text → Text → ℕ × Text → World → World
handle_chunk id tab (seq, text) w =
    if nat_eq seq w.next_seq
    then flush_pending id tab (deliver id tab text w)
    else record w { pending = map_set seq text w.pending }

-- `disabled` is the user's choice, and no outcome of a stream overrides it.
abbrev pub report : ConnectionStatus → SettingsState → SettingsState
report status s = if is_disabled s.connection_status then s else set_connection_status status s

-- `if (msgIdRef.current) finalizeMessage(…)`, the reset of the refs, and the report.
unfoldable pub finish : Text → Option Text → ChatState → SettingsState → World
finish tab msg_id chat settings = record {
  msg_id = none;
  next_seq = 0;
  pending = [];
  chat =
      end_llm_request
        (elim msg_id [ none ↦ chat | some open_id ↦ finalize_message tab open_id none chat ]);
  settings = report connected settings;
}

unfoldable pub handle_done : Text → Text → World → World
handle_done id tab w = let w' = flush_pending id tab w in finish tab w'.msg_id w'.chat w'.settings

unfoldable pub handle_error : Text → Text → Text → World → World
handle_error id tab error w = record {
  msg_id = none;
  next_seq = 0;
  pending = [];
  chat = end_llm_request (set_stream_error id tab w.msg_id error w.chat);
  settings = report disconnected w.settings;
}

-- The chunk events in the order of their arrival.
unfoldable pub run_chunks : Text → Text → List (ℕ × Text) → World → World
run_chunks id tab [] w = w
run_chunks id tab (e ∷ es) w = run_chunks id tab es (handle_chunk id tab e w)
