-- ===== src/Stream/Tests.antt =====
-- The stream's theorems at concrete responses.
use pair_admin.Base.{
  leb, ◌||◌, ℕ, zero, suc, ◌≤◌, ◌≡◌, refl, true, false, none, some, List, [], ◌∷◌, Text, codes,
  arith, nat_eq, any, ◌==◌,
}
use pair_admin.Chat.{messages_of, ChatState, Role, message, end_llm_request}
use pair_admin.Chat.Messages.{find_message}
use pair_admin.Settings.{connected, disconnected, disabled, set_connection_status}
use pair_admin.Stream.{
  map_get, flush_pending, flush_loop, World, mount, run_chunks, handle_done, report,
}
use pair_admin.Stream.Order.{events, delivered}
use pair_admin.Stream.Flush.{flush_pending_ends}
use pair_admin.Stream.Result.{response_complete, run_chunks_prefix}
use pair_admin.Stream.Switch.{switch_strands}
use pair_admin.Stream.Status.{chunk, error, run, run-settings}

abbrev script : ℕ → Text
script zero = codes "Hi"
script (suc zero) = codes " there"
script (suc (suc zero)) = codes "!"
script (suc (suc (suc k))) = []

abbrev fresh : World
fresh = record {
  msg_id = none;
  next_seq = 0;
  pending = [];
  chat = pair_admin.Chat.initial;
  settings = pair_admin.Settings.initial;
}

abbrev order : List ℕ
order = 2 ∷ 0 ∷ 2 ∷ 1 ∷ []

within : (k : ℕ) → any (nat_eq k) order ≡ true → k ≤ 2
within k h = ground arith

complete : (k : ℕ) → k ≤ 2 → any (nat_eq k) order ≡ true
complete k h = ground arith

no_message : find_message (codes "t") (codes "m") fresh.chat ≡ none
no_message = refl

response_complete_example :
    let w' =
      handle_done
        (codes "m")
        (codes "t")
        (run_chunks (codes "m") (codes "t") (events script order) (mount fresh)) in
    (messages_of w'.chat (codes "t")
      ≡ record (message (codes "m") Role.assistant (codes "Hi there!") false) {
        token_count = some 3;
      }
        ∷ [])
    × (w'.chat.llm_request ≡ none)
    × (w' ≡ record (mount fresh) { chat = w'.chat; settings = report connected fresh.settings })
unfolding ◌==◌
response_complete_example =
    response_complete script (codes "m") (codes "t") 2 order fresh (codes "t") within complete
      no_message

run_chunks_prefix_example :
    let w' = run_chunks (codes "m") (codes "t") (events script (3 ∷ 1 ∷ 0 ∷ [])) (mount fresh) in
    (w'.chat ≡ delivered script (codes "m") (codes "t") fresh.chat w'.next_seq)
    × ((leb w'.next_seq 1 || any (nat_eq 1) (3 ∷ 1 ∷ 0 ∷ [])) ≡ true)
    × (any (nat_eq w'.next_seq) (3 ∷ 1 ∷ 0 ∷ []) ≡ false)
run_chunks_prefix_example =
    run_chunks_prefix script (codes "m") (codes "t") (3 ∷ 1 ∷ 0 ∷ []) fresh 1

switch_strands_example :
    let w' =
      handle_done
        (codes "m")
        (codes "t")
        (run_chunks (codes "m") (codes "t") ((1, codes "a") ∷ (2, codes "b") ∷ []) (mount fresh)) in
    (w'.chat.messages_by_tab ≡ fresh.chat.messages_by_tab) × (w'.chat.llm_request ≡ none)
switch_strands_example =
    switch_strands (codes "m") (codes "t") ((1, codes "a") ∷ (2, codes "b") ∷ []) fresh
      (omega arith, (omega arith, tt))

run-settings_example :
    (run
      (codes "t")
      ((codes "m", chunk 0 (codes "Hi")) ∷ (codes "m", error (codes "timeout")) ∷ [])
      fresh).settings
    ≡ set_connection_status disconnected fresh.settings
run-settings_example =
    run-settings (codes "t")
      ((codes "m", chunk 0 (codes "Hi")) ∷ (codes "m", error (codes "timeout")) ∷ []) fresh

-- Chunk 0 is expected; 0, 1 and 3 wait.
abbrev waiting : World
waiting = record fresh { pending = (3, codes "d") ∷ (1, codes "b") ∷ (0, codes "a") ∷ [] }

flush_pending_ends_example :
    let w' = flush_pending (codes "m") (codes "t") waiting in
    (map_get w'.next_seq w'.pending ≡ none) × (flush_loop 5 (codes "m") (codes "t") waiting ≡ w')
flush_pending_ends_example = flush_pending_ends 5 (codes "m") (codes "t") waiting (omega arith)
