-- ===== src/Command/Reorder.antt =====
-- Dragging a pinned command onto another.
use mathlib.Core.Bool.{not}
use mathlib.Core.List.{Perm}
use mathlib.Core.List.Perm
use pair_admin.Base.{
  ℕ, zero, suc, ◌≡◌, ◌≢◌, refl, ◌∙◌, ap, Bool, true, false, Option, none, some, List, [], ◌∷◌, ◌++◌,
  Text, ◌==◌, eq_iff, arith, get_elem?, find, filter, find_index, insert_at, erase_idx, Bool-cases,
  Option-cases, inl, inr,
}
use pair_admin.Command.{
  Command, CommandState, has_id, splice_in, move_before, reordered, reorder_pinned,
}

module _ {ℓ} {A : Type ℓ} where
  pub insert_at-perm : (i : ℕ) (x : A) (xs : List A) → Perm (insert_at i x xs) (x ∷ xs)
  insert_at-perm zero x xs = Perm.refl (x ∷ xs)
  insert_at-perm (suc i) x [] = Perm.refl (x ∷ [])
  insert_at-perm (suc i) x (y ∷ xs) =
      Perm.trans (Perm.cons y (insert_at-perm i x xs)) (Perm.swap x y xs)

  pub erase_idx-perm :
      (i : ℕ) (x : A) (xs : List A) → get_elem? xs i ≡ some x → Perm xs (x ∷ erase_idx i xs)
  erase_idx-perm i x [] h = cc
  erase_idx-perm zero x (y ∷ xs) h = Perm.cons' (ground arith) (Perm.refl xs)
  erase_idx-perm (suc i) x (y ∷ xs) h =
      Perm.trans (Perm.cons y (erase_idx-perm i x xs h)) (Perm.swap x y (erase_idx i xs))

  -- Where `find` succeeds, the place of its element, and what an insertion there gives.
  find_split :
      (p : A → Bool) (xs : List A) (t : A)
      → find p xs ≡ some t
      → (i : ℕ) × (pre post : List A) × (find_index p xs ≡ some i)
        × (get_elem? xs i ≡ some t)
        × (p t ≡ true)
        × ((m : A) → insert_at i m xs ≡ pre ++ m ∷ t ∷ post)
  find_split p [] t h = cc
  find_split p (x ∷ xs) t h = elim (Bool-cases (p x)) [
    | inl here ↦
        (0, [], xs, rw here, ground (arith, here), ground (arith, here), λ m. ground (arith, here))
    | inr later ↦
        let (i, pre, post, at_i, elem, passes, placed) =
          find_split p xs t (ground (arith, later)) in
        (suc i, x ∷ pre, post, rw (later, at_i), elem, passes, λ m. ap (x ∷◌) (placed m))
  ]

  filter-insert_at :
      (p : A → Bool) (i : ℕ) (x : A) (xs : List A)
      → p x ≡ false
      → filter p (insert_at i x xs) ≡ filter p xs
  filter-insert_at p zero x xs h = rw h
  filter-insert_at p (suc i) x [] h = rw h
  filter-insert_at p (suc i) x (y ∷ xs) h = rw (filter-insert_at p i x xs h)

  module _ (p : A → Bool) (x : A) (fails : p x ≡ false) where
    filter-erase_idx :
        (i : ℕ) (xs : List A) → get_elem? xs i ≡ some x → filter p (erase_idx i xs) ≡ filter p xs
    filter-erase_idx i [] h = refl
    filter-erase_idx zero (y ∷ xs) h = ground (arith, fails)
    filter-erase_idx (suc i) (y ∷ xs) h = rw (filter-erase_idx i xs h)

    find-erase_idx :
        (i : ℕ) (xs : List A) → get_elem? xs i ≡ some x → find p (erase_idx i xs) ≡ find p xs
    find-erase_idx i [] h = refl
    find-erase_idx zero (y ∷ xs) h = ground (arith, fails)
    find-erase_idx (suc i) (y ∷ xs) h = rw (find-erase_idx i xs h)

splice_in-perm : (i : Option ℕ) (c : Command) (cs : List Command) → Perm (splice_in i c cs) (c ∷ cs)
splice_in-perm none c cs = insert_at-perm _ c cs
splice_in-perm (some i) c cs = insert_at-perm i c cs

move_before-perm :
    (from : ℕ) (target : Text) (cs : List Command) → Perm (move_before from target cs) cs
move_before-perm from target cs = elim (Option-cases (get_elem? cs from)) [
  | inl e ↦ rw (e, move_before) (Perm.refl cs)
  | inr (moved, e) ↦
      rw (e, move_before)
        (Perm.trans (splice_in-perm _ moved (erase_idx from cs))
          (Perm.symm (erase_idx-perm from moved cs e)))
]

reordered-perm :
    (from to : Option ℕ) (target : Text) (cs : List Command) → Perm (reordered from to target cs) cs
reordered-perm none to target cs = Perm.refl cs
reordered-perm (some from) none target cs = Perm.refl cs
reordered-perm (some from) (some to) target cs = move_before-perm from target cs

-- Whatever is dragged where, no command is lost, made up or doubled.
pub reorder_pinned-perm :
    (dragged target : Text) (s : CommandState)
    → Perm (reorder_pinned dragged target s).commands s.commands
unfolding reorder_pinned
reorder_pinned-perm dragged target s = elim (Bool-cases (dragged == target)) [
  | inl e ↦ rw e (Perm.refl s.commands)
  | inr e ↦ rw e (reordered-perm _ _ target s.commands)
]

-- The commands but for those with an id.
abbrev pub others : Text → List Command → List Command
others id = filter (λ c. not (has_id id c))

reorder_pinned-splice :
    (dragged target : Text) (s : CommandState) (moved : Command) (from to i : ℕ)
    → (dragged == target) ≡ false
    → find_index (has_id dragged) s.commands ≡ some from
    → find_index (has_id target) s.commands ≡ some to
    → get_elem? s.commands from ≡ some moved
    → find_index (has_id target) (erase_idx from s.commands) ≡ some i
    → (reorder_pinned dragged target s).commands ≡ insert_at i moved (erase_idx from s.commands)
unfolding reorder_pinned
reorder_pinned-splice dragged target s moved from to i ne at_from at_to elem at_i =
    rw (ne, at_from, at_to, elem, move_before, at_i)

-- A command dragged onto another, both in the list, stands immediately before it, and the rest
-- keep their order.
pub reorder_pinned_lem :
    (dragged target : Text) (s : CommandState) (moved t : Command)
    → dragged ≢ target
    → find (has_id dragged) s.commands ≡ some moved
    → find (has_id target) s.commands ≡ some t
    → let cs = (reorder_pinned dragged target s).commands in
      (pre post : List Command) × (cs ≡ pre ++ moved ∷ t ∷ post)
      × (others dragged cs ≡ others dragged s.commands)
reorder_pinned_lem dragged target s moved t ne hd ht =
    let cs = s.commands in
    let (from, _, _, at_from, elem, is_dragged, _) = find_split (has_id dragged) cs moved hd in
    let (to, _, _, at_to, _, _, _) = find_split (has_id target) cs t ht in
    let is_moved : moved.id ≡ dragged = (eq_iff moved.id dragged).0 is_dragged in
    let not_target : has_id target moved ≡ false =
      ground (arith, eq_iff moved.id target, is_moved) in
    let distinct : (dragged == target) ≡ false = ground (arith, eq_iff dragged target) in
    let (i, pre, post, at_i, _, _, placed) =
      find_split (has_id target) (erase_idx from cs) t
        (rw (find-erase_idx (has_id target) moved not_target from cs elem) ht) in
    let e =
      reorder_pinned-splice dragged target s moved from to i distinct at_from at_to elem at_i in
    let fails : not (has_id dragged moved) ≡ false = rw is_dragged in
    (
      pre,
      post,
      e ∙ placed moved,
      rw e (
          filter-insert_at (λ c. not (has_id dragged c)) i moved (erase_idx from cs) fails
          ∙ filter-erase_idx (λ c. not (has_id dragged c)) moved fails from cs elem),
    )
