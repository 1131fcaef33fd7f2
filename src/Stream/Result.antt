-- ===== src/Stream/Result.antt =====
-- What a response leaves in the chat, whatever the order of its chunks.
use pair_admin.Base.{
  leb, ◌||◌, ℕ, suc, ◌≤◌, ◌<◌, ◌≡◌, refl, true, false, none, some, List, [], ◌∷◌, ◌++◌, Text, arith,
  nat_eq, any, if◌then◌else◌, ◌==◌,
}
use pair_admin.Chat.{
  ChatMessage, messages_of, Role, ChatState, message, estimate_tokens, end_llm_request,
}
use pair_admin.Chat.Messages.{find_message}
use pair_admin.Settings.{SettingsState, connected}
use pair_admin.Stream.{World, finish, mount, handle_done, run_chunks, report}
use pair_admin.Stream.Messages.{transcript, finalized-messages}
use pair_admin.Stream.Order.{delivered, events, Ready, run_chunks-Ready, flush_pending-none}

module _ (script : ℕ → Text) (id tab : Text) where
  mount-Ready : (P : ℕ → Type 0) (w : World) → Ready script P id tab w.chat w.settings (mount w)
  unfolding mount delivered
  mount-Ready P w = record {
    follows = record {
      chat = refl;
      opened = refl;
      settings = refl;
      within = λ k h. absurd (omega arith);
      honest = λ k t h. cc;
      bounded = λ k t h. cc;
    };
    flushed = refl;
  }

  run_chunks-All :
      (ks : List ℕ) (w : World)
      → Ready script
          (λ k. any (nat_eq k) ks ≡ true)
          id
          tab
          w.chat
          w.settings
          (run_chunks id tab (events script ks) (mount w))
  run_chunks-All ks w =
      (run_chunks-Ready script (λ k. any (nat_eq k) ks ≡ true) id tab w.chat w.settings ks (mount w)
        (λ k h. h) (mount-Ready _ w)).0

  run_chunks_upto :
      (ks : List ℕ) (w : World)
      → let w' = run_chunks id tab (events script ks) (mount w) in
        (w'.chat ≡ delivered script id tab w.chat w'.next_seq)
        × ((k : ℕ) → k < w'.next_seq → any (nat_eq k) ks ≡ true)
        × (any (nat_eq w'.next_seq) ks ≡ false)
  run_chunks_upto ks w =
      let (ready, settles) =
        run_chunks-Ready script (λ k. any (nat_eq k) ks ≡ true) id tab w.chat w.settings ks
          (mount w) (λ k h. h) (mount-Ready _ w) in
      let w' = run_chunks id tab (events script ks) (mount w) in
      (ready.follows.chat, ready.follows.within, ground (arith, settles w'.next_seq, ready.flushed))

  -- Chunks in any order, with gaps and repeats: what has been appended is the longest run of chunks
  -- from the first one on that have all arrived, in order. Every chunk k either is not below the next
  -- number or has arrived, and the chunk with the next number has not.
  pub run_chunks_prefix :
      (ks : List ℕ) (w : World) (k : ℕ)
      → let w' = run_chunks id tab (events script ks) (mount w) in
        (w'.chat ≡ delivered script id tab w.chat w'.next_seq)
        × ((leb w'.next_seq k || any (nat_eq k) ks) ≡ true)
        × (any (nat_eq w'.next_seq) ks ≡ false)
  run_chunks_prefix ks w k =
      let (chat, before, missing) = run_chunks_upto ks w in
      (chat, ground (arith, before k), missing)

  handle_done-Ready :
      (P : ℕ → Type 0) (s : ChatState) (cfg : SettingsState) (q : ℕ) (w : World)
      → Ready script P id tab s cfg w
      → w.next_seq ≡ suc q
      → handle_done id tab w ≡ finish tab (some id) (delivered script id tab s (suc q)) cfg
  unfolding handle_done
  handle_done-Ready P s cfg q w r e =
      let opened : w.msg_id ≡ some id = ground (arith, r.follows.opened) in
      let chat : w.chat ≡ delivered script id tab s (suc q) = rw e at r.follows.chat in
      cc (flush_pending-none id tab w r.flushed, r.follows.settings)

  -- Every chunk of a response of p + 1 chunks arrives, in any order and as often as it likes, then
  -- `llm:done`, and no message of the tab had the new id: the tab has got one message more, behind all that
  -- it had before and these as they were, by the assistant, under that id, with the whole text, no longer
  -- streaming and with its token estimate; every other tab is as it was. The request and the refs are
  -- cleared, and a connection that is not disabled reads connected.
  pub response_complete :
      (p : ℕ) (ks : List ℕ) (w : World) (other : Text)
      → ((k : ℕ) → any (nat_eq k) ks ≡ true → k ≤ p)
      → ((k : ℕ) → k ≤ p → any (nat_eq k) ks ≡ true)
      → find_message tab id w.chat ≡ none
      → let w' = handle_done id tab (run_chunks id tab (events script ks) (mount w)) in
        let content = transcript script (suc p) in
        let answer : ChatMessage = record (message id Role.assistant content false) {
          token_count = some (estimate_tokens content);
        } in
        (messages_of w'.chat other
          ≡ messages_of w.chat other ++ (if tab == other then answer ∷ [] else []))
        × (w'.chat.llm_request ≡ none)
        × (w' ≡ record (mount w) { chat = w'.chat; settings = report connected w.settings })
  unfolding finish end_llm_request mount
  response_complete p ks w other b all fresh =
      let r = run_chunks-All ks w in
      let w' = run_chunks id tab (events script ks) (mount w) in
      let (_, before, missing) = run_chunks_upto ks w in
      let e : w'.next_seq ≡ suc p =
        ground (arith, before (suc p), b (suc p), all w'.next_seq, missing) in
      let done = handle_done-Ready _ w.chat w.settings p w' r e in
      rw done (finalized-messages script id tab w.chat p other fresh, refl, refl)
