-- ===== src/Stream/Order.antt =====
-- The buffering of early chunks against delivery in order.
use pair_admin.Base.{
  ℕ, zero, suc, ◌+◌, ◌≤◌, ◌<◌, ◌≡◌, refl, ◌⊎◌, inl, inr, true, none, some, List, [], ◌∷◌, map, Text,
  arith, if◌then◌else◌, nat_eq, nat_eq_iff, length, any, Option-cases, Bool-cases,
}
use native.Mathlib.Numerals.{add-one}
use pair_admin.Chat.{ChatState, start_streaming_message, append_chunk}
use pair_admin.Settings.{SettingsState}
use pair_admin.Stream.{
  World, map_get, map_set, map_delete, deliver, flush_loop, flush_pending, handle_chunk, run_chunks,
}
use pair_admin.Stream.Pending.{
  map_get-map_set, map_get-map_delete, length-map_delete, map_get_of_empty,
}

-- The specification: a message is opened for the first chunk, and the chunks 0 to p - 1 of the
-- script are appended to it in order.
unfoldable pub delivered : (ℕ → Text) → Text → Text → ChatState → ℕ → ChatState
delivered script id tab s zero = s
delivered script id tab s (suc zero) =
    append_chunk tab id (script 0) (start_streaming_message id tab s)
delivered script id tab s (suc (suc p)) =
    append_chunk tab id (script (suc p)) (delivered script id tab s (suc p))

-- The events of a response whose k-th chunk is `script k`.
abbrev pub events : (ℕ → Text) → List ℕ → List (ℕ × Text)
events script = map (λ k. (k, script k))

-- `P k` says that chunk k is one of those that arrive.
module _ (script : ℕ → Text) (P : ℕ → Type 0) (id tab : Text) (s : ChatState)
    (cfg : SettingsState) where
  -- The refs and the chat agree with in-order delivery of the chunks below `next_seq`, and what is
  -- pending has arrived and belongs to the script.
  pub record Follows (w : World) : Type 0 where
    pub chat : w.chat ≡ delivered script id tab s w.next_seq
    pub opened : w.msg_id ≡ (if nat_eq w.next_seq 0 then none else some id)
    pub settings : w.settings ≡ cfg
    pub within : (k : ℕ) → k < w.next_seq → P k
    pub honest : (k : ℕ) (t : Text) → map_get k w.pending ≡ some t → t ≡ script k
    pub bounded : (k : ℕ) (t : Text) → map_get k w.pending ≡ some t → P k

  -- Chunk k is in the message or waits in the map.
  abbrev pub Settled : ℕ → World → Type 0
  Settled k w = (k < w.next_seq) ⊎ (map_get k w.pending ≡ some (script k))

  deliver_fields :
      (text : Text) (w : World)
      → ((deliver id tab text w).next_seq ≡ w.next_seq + 1)
        × ((deliver id tab text w).pending ≡ w.pending)
        × ((deliver id tab text w).settings ≡ w.settings)
        × (w.msg_id ≡ (if nat_eq w.next_seq 0 then none else some id)
            → (deliver id tab text w).msg_id ≡ some id)
  unfolding deliver
  deliver_fields text w = (ground arith, ground arith, ground arith, λ h. ground arith)

  deliver-chat :
      (p : ℕ) (w : World)
      → w.next_seq ≡ p
      → w.msg_id ≡ (if nat_eq p 0 then none else some id)
      → w.chat ≡ delivered script id tab s p
      → (deliver id tab (script p) w).chat ≡ delivered script id tab s (suc p)
  unfolding deliver delivered
  deliver-chat zero w e o c = ground arith
  deliver-chat (suc p) w e o c = ground arith

  within_next : (w : World) → Follows w → P w.next_seq → (k : ℕ) → k < w.next_seq + 1 → P k
  within_next w v lt k h = elim (Bool-cases (nat_eq k w.next_seq)) [
    | inl last ↦ rw ((nat_eq_iff k w.next_seq).0 last) lt
    | inr before ↦ v.within k (ground arith)
  ]

  deliver-Follows :
      (w : World) → Follows w → P w.next_seq → Follows (deliver id tab (script w.next_seq) w)
  deliver-Follows w v lt =
      let (next, same, kept, open_id) = deliver_fields (script w.next_seq) w in
      record {
        chat = rw (next, add-one) (deliver-chat w.next_seq w refl v.opened v.chat);
        opened = ground (arith, open_id v.opened);
        settings = ground arith;
        within = λ k h. within_next w v lt k (omega (arith, next));
        honest = λ k t. rw same (v.honest k t);
        bounded = λ k t. rw same (v.bounded k t);
      }

  delete-Follows :
      (w : World) → Follows w → Follows (record w { pending = map_delete w.next_seq w.pending })
  delete-Follows w v = record {
    chat = v.chat;
    opened = v.opened;
    settings = v.settings;
    within = v.within;
    honest = λ k t e. v.honest k t (ground (arith, map_get-map_delete k w.next_seq w.pending));
    bounded = λ k t e. v.bounded k t (ground (arith, map_get-map_delete k w.next_seq w.pending));
  }

  -- One round of the flush.
  abbrev flush_one : Text → World → World
  flush_one text w = deliver id tab text (record w { pending = map_delete w.next_seq w.pending })

  flush_one-Follows :
      (text : Text) (w : World)
      → map_get w.next_seq w.pending ≡ some text
      → Follows w
      → Follows (flush_one text w)
  flush_one-Follows text w e v =
      rw (v.honest w.next_seq text e)
        (deliver-Follows _ (delete-Follows w v) (v.bounded w.next_seq text e))

  flush_one-Settled : (text : Text) (k : ℕ) (w : World) → Settled k w → Settled k (flush_one text w)
  flush_one-Settled text k w h = ground (
    arith,
    deliver_fields text (record w { pending = map_delete w.next_seq w.pending }),
    map_get-map_delete k w.next_seq w.pending,
  )

  flush_one-fuel :
      (text : Text) (w : World) (fuel : ℕ)
      → map_get w.next_seq w.pending ≡ some text
      → length w.pending ≤ suc fuel
      → length (flush_one text w).pending ≤ fuel
  flush_one-fuel text w fuel e h =
      rw ((deliver_fields text (record w { pending = map_delete w.next_seq w.pending })).1)
        (omega (arith, length-map_delete w.next_seq w.pending text e))

  -- With fuel for every entry the loop ends by its test.
  pub flush_loop-Follows :
      (fuel : ℕ) (w : World)
      → length w.pending ≤ fuel
      → Follows w
      → Follows (flush_loop fuel id tab w)
        × ((k : ℕ) → Settled k w → Settled k (flush_loop fuel id tab w))
        × (map_get (flush_loop fuel id tab w).next_seq (flush_loop fuel id tab w).pending ≡ none)
  unfolding flush_loop
  flush_loop-Follows zero w h v = (v, (λ k e. e), map_get_of_empty w.next_seq w.pending h)
  flush_loop-Follows (suc fuel) w h v = elim (Option-cases (map_get w.next_seq w.pending)) [
    | inl e ↦ rw (e, flush_loop) (v, (λ k h. h), e)
    | inr (text, e) ↦
        rw (e, flush_loop)
          (let (v', kept, ends) =
              flush_loop-Follows fuel (flush_one text w) (flush_one-fuel text w fuel e h)
                (flush_one-Follows text w e v) in
            (v', (λ k h. kept k (flush_one-Settled text k w h)), ends))
  ]

  -- What a world is like between two events.
  pub record Ready (w : World) : Type 0 where
    pub follows : Follows w
    pub flushed : map_get w.next_seq w.pending ≡ none

  set-Follows :
      (k : ℕ) (w : World)
      → P k
      → Follows w
      → Follows (record w { pending = map_set k (script k) w.pending })
  set-Follows k w lt v = record {
    chat = v.chat;
    opened = v.opened;
    settings = v.settings;
    within = v.within;
    honest = λ j t e. ground (arith, map_get-map_set j k (script k) w.pending, v.honest j t);
    bounded = λ j t e. ground (arith, map_get-map_set j k (script k) w.pending, v.bounded j t);
  }

  flush_pending-Ready :
      (w : World)
      → Follows w
      → Ready (flush_pending id tab w)
        × ((k : ℕ) → Settled k w → Settled k (flush_pending id tab w))
  unfolding flush_pending
  flush_pending-Ready w v =
      let (v', kept, ends) = flush_loop-Follows (length w.pending) w (omega arith) v in
      (record { follows = v'; flushed = ends }, kept)

  deliver-Settled :
      (text : Text) (j : ℕ) (w : World)
      → (j ≡ w.next_seq) ⊎ Settled j w
      → Settled j (deliver id tab text w)
  deliver-Settled text j w h = ground (arith, deliver_fields text w)

  -- An event keeps the agreement, settles its own chunk and unsettles none.
  pub handle_chunk-Ready :
      (k : ℕ) (w : World)
      → P k
      → Ready w
      → Ready (handle_chunk id tab (k, script k) w)
        × ((j : ℕ) → (j ≡ k) ⊎ Settled j w → Settled j (handle_chunk id tab (k, script k) w))
  unfolding handle_chunk
  handle_chunk-Ready k w lt v = elim (Bool-cases (nat_eq k w.next_seq)) [
    | inl now ↦ rw now (
        let e : k ≡ w.next_seq = (nat_eq_iff k w.next_seq).0 now in
        let fits : Follows (deliver id tab (script k) w) =
          rw e (deliver-Follows w v.follows (rw e at lt)) in
        let (ready, kept) = flush_pending-Ready (deliver id tab (script k) w) fits in
        (ready, λ j h. kept j (deliver-Settled (script k) j w (rw e at h))))
    | inr early ↦ rw early (
      record {
        follows = set-Follows k w lt v.follows;
        flushed = ground (arith, map_get-map_set w.next_seq k (script k) w.pending, v.flushed);
      },
      λ j h. ground (arith, map_get-map_set j k (script k) w.pending),
    )
  ]

  pub run_chunks-Ready :
      (ks : List ℕ) (w : World)
      → ((k : ℕ) → any (nat_eq k) ks ≡ true → P k)
      → Ready w
      → Ready (run_chunks id tab (events script ks) w)
        × ((j : ℕ)
            → (any (nat_eq j) ks ≡ true) ⊎ Settled j w
            → Settled j (run_chunks id tab (events script ks) w))
  unfolding run_chunks
  run_chunks-Ready [] w b v = (v, λ j h. ground arith)
  run_chunks-Ready (k ∷ ks) w b v =
      let (v', kept) = handle_chunk-Ready k w (b k (ground arith)) v in
      let (v'', settles) =
        run_chunks-Ready ks (handle_chunk id tab (k, script k) w) (λ j h. b j (ground arith)) v' in
      (v'', λ j h. settles j (ground (arith, kept j)))

-- Nothing is flushed while the expected chunk is missing.
pub flush_pending-none :
    (id tab : Text) (w : World) → map_get w.next_seq w.pending ≡ none → flush_pending id tab w ≡ w
unfolding flush_pending flush_loop
flush_pending-none id tab w h = flush_loop-none (length w.pending) w h
  where
    flush_loop-none :
        (fuel : ℕ) (w : World) → map_get w.next_seq w.pending ≡ none → flush_loop fuel id tab w ≡ w
    flush_loop-none zero w h = refl
    flush_loop-none (suc fuel) w h = rw (h, flush_loop)
