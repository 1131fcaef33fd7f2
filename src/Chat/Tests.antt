-- ===== src/Chat/Tests.antt =====
-- Runs of the chat store, and its theorems at concrete states.
use pair_admin.Base.{◌≡◌, ◌≢◌, refl, true, false, none, some, [], ◌∷◌, codes, arith, ◌==◌}
use pair_admin.Chat.{
  ChatState, Role, message, update, set_stream_error, strip_cursor, finalize_message,
  start_streaming_message, append_chunk, initial,
}
use pair_admin.Chat.Messages.{find_message}

abbrev two_messages : ChatState
two_messages = record {
  messages_by_tab =
      update (λ t. none) (codes "a")
        (message (codes "m1") Role.user (codes "disk full?") false
          ∷ message (codes "m2") Role.assistant (codes "Run df") true
          ∷ []);
  llm_request = some 7;
}

other_tab : some (codes "b") ≢ some (codes "a")
other_tab = λ h. ground arith

test_stream :
    find_message (codes "a") (codes "m") (
      finalize_message (codes "a") (codes "m") none (
        append_chunk (codes "a") (codes "m") (codes " there") (
          append_chunk
            (codes "a")
            (codes "m")
            (codes "Hi")
            (start_streaming_message (codes "m") (codes "a") initial))))
    ≡ some (record (message (codes "m") Role.assistant (codes "Hi there") false) {
      token_count = some 2;
    })
unfolding ◌==◌ finalize_message append_chunk start_streaming_message strip_cursor
test_stream = refl

test_error :
    find_message
      (codes "a")
      (codes "m2")
      (set_stream_error (codes "e") (codes "a") (some (codes "m2")) (codes "timeout") two_messages)
    ≡ some
        (record (message
          (codes "m2")
          Role.assistant
          (codes "Run df\n\n(stream interrupted)")
          false) { is_error = some true })
unfolding ◌==◌ set_stream_error strip_cursor
test_error = refl
