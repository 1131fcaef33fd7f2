-- ===== src/Preview/Lines.antt =====
-- The frames that are written to a terminal, which does not turn a line feed into a new line.
use pair_admin.Base.{
  ℕ, ◌≡◌, refl, Bool, false, not, ◌&&◌, ◌||◌, List, [], ◌∷◌, ◌++◌, Text, arith, nat_eq, All,
  Without, split-Without, split, join, trim_end, ap, ◌∙◌, append_assoc,
}
use pair_admin.Preview.{line_end, clear_rest, formatted, update_text}

-- A line feed that does not follow a carriage return, where `before` is the code unit before.
abbrev has_bare_lf : ℕ → Text → Bool
has_bare_lf before [] = false
has_bare_lf before (c ∷ s) = (nat_eq c 10 && not (nat_eq before 13)) || has_bare_lf c s

has_bare_lf-line :
    (before : ℕ) (p s : Text)
    → Without 10 p
    → has_bare_lf before (p ++ (line_end ++ s)) ≡ has_bare_lf 10 s
has_bare_lf-line before [] s h = refl
has_bare_lf-line before (c ∷ p) s h = ground (arith, has_bare_lf-line c p s)

has_bare_lf-end :
    (before : ℕ) (p : Text) → Without 10 p → has_bare_lf before (p ++ clear_rest) ≡ false
has_bare_lf-end before [] h = refl
has_bare_lf-end before (c ∷ p) h = ground (arith, has_bare_lf-end c p)

joined-no_bare_lf :
    (before : ℕ) (ps : List Text)
    → All (Without 10) ps
    → has_bare_lf before (join line_end ps ++ clear_rest) ≡ false
unfolding join
joined-no_bare_lf before [] h = refl
joined-no_bare_lf before (p ∷ []) h = has_bare_lf-end before p h.0
joined-no_bare_lf before (p ∷ q ∷ ps) h =
    ap (has_bare_lf before) (append_assoc p (line_end ++ join line_end (q ∷ ps)) clear_rest)
    ∙ has_bare_lf-line before p (join line_end (q ∷ ps) ++ clear_rest) h.0
    ∙ joined-no_bare_lf 10 (q ∷ ps) h.1

-- Whatever a terminal is said to hold, every line feed in the frame that is written to it follows a
-- carriage return, so that no line starts where the one before it ended.
pub update_text-no_bare_lf : (content : Text) → has_bare_lf 0 (update_text content) ≡ false
unfolding update_text formatted
update_text-no_bare_lf content =
    joined-no_bare_lf b'H' (split 10 (trim_end content)) (split-Without 10 (trim_end content))
