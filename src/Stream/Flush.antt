-- ===== src/Stream/Flush.antt =====
-- The loop of `flushPending` ends.
use pair_admin.Base.{
  ℕ, zero, suc, ◌≤◌, ◌≡◌, refl, none, some, Text, arith, length, Option-cases, inl, inr,
}
use pair_admin.Stream.{World, map_get, map_delete, deliver, flush_loop, flush_pending}
use pair_admin.Stream.Pending.{length-map_delete, map_get_of_empty}

deliver-pending : (id tab text : Text) (w : World) → (deliver id tab text w).pending ≡ w.pending
unfolding deliver
deliver-pending id tab text w = ground arith

-- One round, and what is left to flush.
abbrev round : Text → Text → Text → World → World
round id tab text w = deliver id tab text (record w { pending = map_delete w.next_seq w.pending })

round-shorter :
    (id tab text : Text) (w : World) (n : ℕ)
    → map_get w.next_seq w.pending ≡ some text
    → length w.pending ≤ suc n
    → length (round id tab text w).pending ≤ n
round-shorter id tab text w n h b =
    let less = length-map_delete w.next_seq w.pending text h in
    rw (deliver-pending id tab text (record w { pending = map_delete w.next_seq w.pending }))
      (omega arith)

loop_ends :
    (n : ℕ) (id tab : Text) (w : World)
    → length w.pending ≤ n
    → let w' = flush_loop n id tab w in map_get w'.next_seq w'.pending ≡ none
unfolding flush_loop
loop_ends zero id tab w b = map_get_of_empty w.next_seq w.pending b
loop_ends (suc n) id tab w b = elim (Option-cases (map_get w.next_seq w.pending)) [
  | inl e ↦ rw (e, flush_loop) e
  | inr (text, e) ↦
      rw (e, flush_loop)
        (loop_ends n id tab (round id tab text w) (round-shorter id tab text w n e b))
]

more_fuel :
    (m n : ℕ) (id tab : Text) (w : World)
    → length w.pending ≤ m
    → length w.pending ≤ n
    → flush_loop m id tab w ≡ flush_loop n id tab w
unfolding flush_loop
more_fuel zero zero id tab w b c = refl
more_fuel zero (suc n) id tab w b c = rw (map_get_of_empty w.next_seq w.pending b, flush_loop) refl
more_fuel (suc m) zero id tab w b c = rw (map_get_of_empty w.next_seq w.pending c, flush_loop) refl
more_fuel (suc m) (suc n) id tab w b c = elim (Option-cases (map_get w.next_seq w.pending)) [
  | inl e ↦ rw (e, flush_loop) refl
  | inr (text, e) ↦
      rw (e, flush_loop)
        (more_fuel m n id tab (round id tab text w) (round-shorter id tab text w m e b)
          (round-shorter id tab text w n e c))
]

-- The loop that flushes the waiting chunks ends by its own condition: after at most as many rounds as
-- chunks wait, the chunk that is expected next is not among them, and more rounds change nothing.
pub flush_pending_ends :
    (n : ℕ) (id tab : Text) (w : World)
    → length w.pending ≤ n
    → let w' = flush_pending id tab w in
      (map_get w'.next_seq w'.pending ≡ none) × (flush_loop n id tab w ≡ w')
unfolding flush_pending
flush_pending_ends n id tab w b = (
  loop_ends (length w.pending) id tab w (omega arith),
  more_fuel n (length w.pending) id tab w b (omega arith),
)
