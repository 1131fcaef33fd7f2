-- ===== src/Context/Cap.antt =====
-- The cap on the lines that are read.
use pair_admin.Base.{
  ℕ, zero, suc, ◌+◌, ◌-◌, ◌≡◌, refl, Option, none, some, List, [], ◌∷◌, ◌++◌, Text, codes, arith,
  length, length-append, map, ap, sym, ◌∙◌, append_assoc, false, is_space, drop, join, trim_end,
  trim_end_idem, pos,
}
use pair_admin.Context.{read_terminal_lines, present}

drop-append :
    (old recent : List (Option Text)) (n : ℕ) → n ≡ length old → drop n (old ++ recent) ≡ recent
drop-append [] recent zero h = refl
drop-append [] recent (suc n) h = absurd (omega arith)
drop-append (l ∷ old) recent zero h = absurd (omega arith)
drop-append (l ∷ old) recent (suc n) h = drop-append old recent n (omega arith)

trim_end-full : (s : Text) (c : ℕ) → is_space c ≡ false → trim_end (s ++ c ∷ []) ≡ s ++ c ∷ []
unfolding trim_end
trim_end-full [] c h = ground arith
trim_end-full (d ∷ []) c h = rw (trim_end-full [] c h) refl
trim_end-full (d ∷ e ∷ s) c h = rw (trim_end-full (e ∷ s) c h) refl

-- What comes before the last line in the joined text.
joined_before : List Text → Text
joined_before [] = []
joined_before (l ∷ ls) = l ++ (codes "\n" ++ joined_before ls)

join-last : (ls : List Text) (l : Text) → join (codes "\n") (ls ++ l ∷ []) ≡ joined_before ls ++ l
unfolding join joined_before
join-last [] l = refl
join-last (k ∷ []) l = sym (append_assoc k (codes "\n" ++ []) l)
join-last (k ∷ m ∷ ls) l =
    ap (λ t. k ++ (codes "\n" ++ t)) (join-last (m ∷ ls) l)
    ∙ sym (append_assoc k (codes "\n" ++ joined_before (m ∷ ls)) l)

present-some : (ls : List Text) → present (map some ls) ≡ ls
present-some [] = refl
present-some (l ∷ ls) = ap (l ∷◌) (present-some ls)

read-full :
    (ls : List Text) (line : Text) (c : ℕ)
    → is_space c ≡ false
    → let lines = ls ++ (line ++ c ∷ []) ∷ [] in
      read_terminal_lines (some (map some lines)) none ≡ join (codes "\n") lines
unfolding read_terminal_lines
read-full ls line c h =
    let lines = ls ++ (line ++ c ∷ []) ∷ [] in
    let ends : join (codes "\n") lines ≡ (joined_before ls ++ line) ++ c ∷ [] =
      join-last ls (line ++ c ∷ []) ∙ sym (append_assoc (joined_before ls) line (c ∷ [])) in
    ap (λ t. trim_end (join (codes "\n") t)) (present-some lines)
    ∙ ap trim_end ends
    ∙ trim_end-full (joined_before ls ++ line) c h
    ∙ sym ends

-- With a cap of n, a buffer whose last n lines are `recent` reads as if it held only these; with no cap,
-- or one that the buffer does not exceed, all of it is read. A buffer that has all its lines, and whose
-- last line does not end in white space, reads as these lines in full, with a line break between each two.
-- What is read has no white space at its end.
pub read-cap :
    (old recent : List (Option Text)) (n k : ℕ) (ls : List Text) (line : Text) (c : ℕ)
    → is_space c ≡ false
    → length recent ≡ n
    → let lines = ls ++ (line ++ c ∷ []) ∷ [] in
      (read_terminal_lines (some (old ++ recent)) (some (pos n))
        ≡ read_terminal_lines (some recent) none)
      × (read_terminal_lines (some recent) (some (pos (n + k)))
          ≡ read_terminal_lines (some recent) none)
      × (read_terminal_lines (some (map some lines)) none ≡ join (codes "\n") lines)
      × (trim_end (read_terminal_lines (some recent) none) ≡ read_terminal_lines (some recent) none)
unfolding read_terminal_lines
read-cap old recent n k ls line c full h =
    let start : length (old ++ recent) - n ≡ length old = omega (arith, length-append old recent) in
    let none_left : length recent - (n + k) ≡ 0 = omega arith in
    (
      rw (drop-append old recent (length (old ++ recent) - n) start) refl,
      rw none_left refl,
      read-full ls line c full,
      trim_end_idem (join (codes "\n") (present recent)),
    )
