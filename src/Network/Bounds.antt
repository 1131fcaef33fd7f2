-- ===== src/Network/Bounds.antt =====
-- The ports that are scanned.
use pair_admin.Base.{
  ℕ, zero, suc, ◌+◌, ◌-◌, ◌≤◌, not, ◌&&◌, ◌||◌, Option, none, some, List, [], ◌∷◌, Text, arith, All,
  All-append, any, nat_eq, leb, split, ℤ, pos, negsuc, Bool-cases, inl, inr,
}
use pair_admin.Network.{
  ports_from, port_range, single_port, range_of, parse_token, parse_tokens, parse_ports, words,
  normalize_dashes,
}

-- A TCP port.
abbrev pub IsPort : ℕ → Type 0
IsPort p = (1 ≤ p) × (p ≤ 65535)

ports_from-IsPort : (lo n : ℕ) → 1 ≤ lo → lo + n ≤ 65536 → All IsPort (ports_from lo n)
ports_from-IsPort lo zero h k = tt
ports_from-IsPort lo (suc n) h k =
    ((h, omega arith), ports_from-IsPort (lo + 1) n (omega arith) (omega arith))

port_range-IsPort : (a b : Option ℤ) → All IsPort (port_range a b)
port_range-IsPort none b = tt
port_range-IsPort (some (negsuc n)) b = tt
port_range-IsPort (some (pos lo)) none = tt
port_range-IsPort (some (pos lo)) (some (negsuc n)) = tt
port_range-IsPort (some (pos lo)) (some (pos hi)) =
    elim (Bool-cases (nat_eq lo 0 || not (leb hi 65535) || not (leb lo hi))) [
      | inl bad ↦ rw bad tt
      | inr good ↦ rw good (ports_from-IsPort lo (hi + 1 - lo) (ground arith) (ground arith))
    ]

single_port-IsPort : (a : Option ℤ) → All IsPort (single_port a)
single_port-IsPort none = tt
single_port-IsPort (some (negsuc n)) = tt
single_port-IsPort (some (pos p)) = elim (Bool-cases (not (nat_eq p 0) && leb p 65535)) [
  | inl good ↦ rw good ((ground arith, ground arith), tt)
  | inr bad ↦ rw bad tt
]

module _ (integer_of : Text → Option ℤ) where
  range_of-IsPort : (parts : List Text) → All IsPort (range_of integer_of parts)
  range_of-IsPort [] = tt
  range_of-IsPort (a ∷ []) = tt
  range_of-IsPort (a ∷ b ∷ []) = port_range-IsPort (integer_of a) (integer_of b)
  range_of-IsPort (a ∷ b ∷ c ∷ ps) = tt

  parse_token-IsPort : (t : Text) → All IsPort (parse_token integer_of t)
  unfolding parse_token
  parse_token-IsPort t = elim (Bool-cases (any (λ c. nat_eq c b'-') t)) [
    | inl dash ↦ rw dash (range_of-IsPort (split b'-' t))
    | inr none_there ↦ rw none_there (single_port-IsPort (integer_of t))
  ]

  parse_tokens-IsPort : (ts : List Text) → All IsPort (parse_tokens integer_of ts)
  unfolding parse_tokens
  parse_tokens-IsPort [] = tt
  parse_tokens-IsPort (t ∷ ts) =
      All-append IsPort (parse_token integer_of t) (parse_tokens integer_of ts)
        (parse_token-IsPort t) (parse_tokens-IsPort ts)

  -- Whatever is typed into the ports field, and whatever numbers its tokens are: only ports from 1 to
  -- 65535 are scanned.
  pub parse_ports-IsPort : (raw : Text) → All IsPort (parse_ports integer_of raw)
  unfolding parse_ports
  parse_ports-IsPort raw = parse_tokens-IsPort (words (normalize_dashes raw))
