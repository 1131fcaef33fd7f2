-- ===== src/Network/Lists.antt =====
-- Lists of ports: what is written with commas is what is scanned.
use pair_admin.Base.{
  ℕ, ◌+◌, ◌≤◌, ◌≡◌, refl, true, false, Option, some, List, [], ◌∷◌, ◌++◌, Text, codes, arith, any,
  map, nat_eq, is_space, is_truthy, join, split, All, ap, ◌∙◌, ℤ, pos, show, IsDecimal,
  show-IsDecimal, show-is_truthy, split-append, split-join, any-append, append-nil, ◌-◌,
}
use pair_admin.Network.{is_separator, ports_from, parse_token, parse_tokens, parse_ports}
use pair_admin.Network.Bounds.{IsPort}
use pair_admin.Network.Words.{
  IsWord, words-join, words-word, join-HasNoSpace, word-HasNoSpace, normalize_dashes-id,
}

decimal-plain : (t : Text) → IsDecimal t → any is_separator t ≡ false
unfolding is_space
decimal-plain [] h = refl
decimal-plain (c ∷ t) h = ground (arith, decimal-plain t)

decimal-no_dash : (t : Text) → IsDecimal t → any (λ c. nat_eq c b'-') t ≡ false
decimal-no_dash [] h = refl
decimal-no_dash (c ∷ t) h = ground (arith, decimal-no_dash t)

show-IsWord : (n : ℕ) → IsWord (show n)
show-IsWord n = (show-is_truthy n, decimal-plain (show n) (show-IsDecimal n))

shows-IsWord : (ps : List ℕ) → All IsWord (map show ps)
shows-IsWord [] = tt
shows-IsWord (p ∷ ps) = (show-IsWord p, shows-IsWord ps)

-- "lo-hi"
abbrev range_text : ℕ → ℕ → Text
range_text lo hi = show lo ++ b'-' ∷ show hi

is_truthy-append : (s t : Text) → is_truthy s ≡ true → is_truthy (s ++ t) ≡ true
is_truthy-append [] t h = absurd (ground arith)
is_truthy-append (c ∷ s) t h = refl

range_text-IsWord : (lo hi : ℕ) → IsWord (range_text lo hi)
unfolding is_space
range_text-IsWord lo hi = (
  is_truthy-append (show lo) (b'-' ∷ show hi) (show-is_truthy lo),
  ground
      (arith, any-append is_separator (show lo) (b'-' ∷ show hi), show-IsWord lo, show-IsWord hi),
)

range_text-dash : (lo hi : ℕ) → any (λ c. nat_eq c b'-') (range_text lo hi) ≡ true
range_text-dash lo hi = ground (arith, any-append (λ c. nat_eq c b'-') (show lo) (b'-' ∷ show hi))

range_text-split : (lo hi : ℕ) → split b'-' (range_text lo hi) ≡ show lo ∷ show hi ∷ []
unfolding join
range_text-split lo hi =
    split-append b'-' (show lo) (show hi) (decimal-no_dash (show lo) (show-IsDecimal lo))
    ∙ ap (show lo ∷◌)
        (split-join b'-' (show hi) [] (decimal-no_dash (show hi) (show-IsDecimal hi), tt))

-- `Number` reads back what `String` writes.
abbrev pub ReadsDecimals : (Text → Option ℤ) → Type 0
ReadsDecimals integer_of = (n : ℕ) → integer_of (show n) ≡ some (pos n)

module _ (integer_of : Text → Option ℤ) (reads : ReadsDecimals integer_of) where
  parse_token-show : (p : ℕ) → IsPort p → parse_token integer_of (show p) ≡ p ∷ []
  unfolding parse_token
  parse_token-show p h = rw (decimal-no_dash (show p) (show-IsDecimal p), reads p) (ground arith)

  parse_tokens-shows : (ps : List ℕ) → All IsPort ps → parse_tokens integer_of (map show ps) ≡ ps
  unfolding parse_tokens
  parse_tokens-shows [] h = refl
  parse_tokens-shows (p ∷ ps) h = rw (parse_token-show p h.0, parse_tokens-shows ps h.1) refl

  -- Every list of ports from 1 to 65535, repetitions included, comes back from the ports field when it is
  -- written in decimal with commas between them, if `Number` reads decimals.
  pub parse_ports-join :
      (ps : List ℕ) → All IsPort ps → parse_ports integer_of (join (codes ",") (map show ps)) ≡ ps
  unfolding parse_ports
  parse_ports-join ps h =
      let written = shows-IsWord ps in
      rw
        (
          normalize_dashes-id (join (codes ",") (map show ps))
              (join-HasNoSpace (map show ps) written),
          words-join (map show ps) written,
        )
        (parse_tokens-shows ps h)

  parse_token-range :
      (lo hi : ℕ)
      → IsPort lo
      → IsPort hi
      → lo ≤ hi
      → parse_token integer_of (range_text lo hi) ≡ ports_from lo (hi + 1 - lo)
  unfolding parse_token
  parse_token-range lo hi l h le =
      rw (range_text-dash lo hi, range_text-split lo hi, reads lo, reads hi) (ground arith)

  -- A range of two ports in decimal scans the ports from the first to the last, in order, if `Number`
  -- reads decimals.
  pub parse_ports-range :
      (lo hi : ℕ)
      → IsPort lo
      → IsPort hi
      → lo ≤ hi
      → parse_ports integer_of (range_text lo hi) ≡ ports_from lo (hi + 1 - lo)
  unfolding parse_ports parse_tokens
  parse_ports-range lo hi l h le =
      let w = range_text-IsWord lo hi in
      rw
        (
          normalize_dashes-id (range_text lo hi) (word-HasNoSpace (range_text lo hi) w.1),
          words-word (range_text lo hi) w,
          parse_token-range lo hi l h le,
        )
        (append-nil (ports_from lo (hi + 1 - lo)))
