-- ===== src/Stream/Switch.antt =====
-- A change of the tab while a response streams.
use pair_admin.Base.{ℕ, ◌≡◌, refl, ◌<◌, false, none, List, [], ◌∷◌, Text, arith, nat_eq, All}
use pair_admin.Chat.{ChatState, end_llm_request}
use pair_admin.Settings.{SettingsState}
use pair_admin.Stream.{World, map_get, mount, handle_chunk, run_chunks, finish, handle_done}
use pair_admin.Stream.Pending.{map_get-map_set}
use pair_admin.Stream.Order.{flush_pending-none}

-- Nothing has been delivered since the hook was mounted, and chunk 0 is not there.
record Waiting (chat : ChatState) (settings : SettingsState) (w : World) : Type 0 where
  same_chat : w.chat ≡ chat
  same_settings : w.settings ≡ settings
  closed : w.msg_id ≡ none
  first : w.next_seq ≡ 0
  missing : map_get 0 w.pending ≡ none

module _ (id tab : Text) (chat : ChatState) (settings : SettingsState) where
  handle_chunk-Waiting :
      (seq : ℕ) (text : Text) (w : World)
      → 0 < seq
      → Waiting chat settings w
      → Waiting chat settings (handle_chunk id tab (seq, text) w)
  unfolding handle_chunk
  handle_chunk-Waiting seq text w h v =
      let later : nat_eq seq w.next_seq ≡ false = ground (arith, v.first) in
      rw later (record {
        same_chat = v.same_chat;
        same_settings = v.same_settings;
        closed = v.closed;
        first = v.first;
        missing = ground (arith, map_get-map_set 0 seq text w.pending, v.missing);
      })

  run_chunks-Waiting :
      (es : List (ℕ × Text)) (w : World)
      → All (λ e. 0 < e.0) es
      → Waiting chat settings w
      → Waiting chat settings (run_chunks id tab es w)
  unfolding run_chunks
  run_chunks-Waiting [] w h v = v
  run_chunks-Waiting ((seq, text) ∷ es) w h v =
      run_chunks-Waiting es (handle_chunk id tab (seq, text) w) h.1
        (handle_chunk-Waiting seq text w h.0 v)

  handle_done-Waiting :
      (w : World) → Waiting chat settings w → handle_done id tab w ≡ finish tab none chat settings
  unfolding handle_done
  handle_done-Waiting w v =
      let quiet = flush_pending-none id tab w (rw v.first v.missing) in
      cc (quiet, v.closed, v.same_chat, v.same_settings)

-- The hook is mounted anew, as a change of tab does, after the first chunk of a response has come:
-- whatever the later chunks are, neither they nor `llm:done` touch a message of any tab. A message
-- that was streaming then stays as it is, with its cursor, though the request reads as finished.
pub switch_strands :
    (id tab : Text) (es : List (ℕ × Text)) (w : World)
    → All (λ e. 0 < e.0) es
    → let w' = handle_done id tab (run_chunks id tab es (mount w)) in
      (w'.chat.messages_by_tab ≡ w.chat.messages_by_tab) × (w'.chat.llm_request ≡ none)
unfolding mount finish end_llm_request
switch_strands id tab es w h =
    let v = run_chunks-Waiting id tab w.chat w.settings es (mount w) h (record {
      same_chat = refl;
      same_settings = refl;
      closed = refl;
      first = refl;
      missing = refl;
    }) in
    let e = handle_done-Waiting id tab w.chat w.settings _ v in (rw e, rw e)
