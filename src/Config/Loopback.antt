-- ===== src/Config/Loopback.antt =====
-- Which server URLs count as this machine. The parser of URLs is a parameter: the host name of a text that
-- it takes, if it does.
use pair_admin.Base.{
  ℕ, nat_eq, nat_eq_iff, eq_iff, show, show_injective, show-IsDecimal, show-is_truthy, IsDecimal,
  Bool-cases, sym, ◌≡◌, refl, Bool, true, false, not, ◌&&◌, ◌||◌, Option, none, some, [], ◌∷◌, ◌++◌,
  Text, codes, ◌==◌, if◌then◌else◌, is_truthy, trim, to_lower, starts_with, arith, inl, inr, ◌∙◌,
}
use pair_admin.Config.Llm.{LlmTab}

abbrev pub is_loopback_name : Text → Bool
is_loopback_name hostname =
    (hostname == codes "localhost")
    || (hostname == codes "::1" || hostname == codes "[::1]")
    || starts_with hostname (codes "127.")

to_lower-is_truthy : (s : Text) → is_truthy (to_lower s) ≡ is_truthy s
unfolding to_lower
to_lower-is_truthy [] = refl
to_lower-is_truthy (c ∷ s) = refl

-- An IPv4 address, as URL parsers write it.
abbrev pub dotted : ℕ → ℕ → ℕ → ℕ → Text
dotted a b c d = show a ++ b'.' ∷ (show b ++ b'.' ∷ (show c ++ b'.' ∷ show d))

starts_with-decimal :
    (w rest : Text)
    → IsDecimal w
    → starts_with (w ++ b'.' ∷ rest) (codes "127.") ≡ (w == codes "127")
unfolding starts_with ◌==◌
starts_with-decimal [] rest h = refl
starts_with-decimal (x ∷ []) rest h = ground arith
starts_with-decimal (x ∷ y ∷ []) rest h = ground arith
starts_with-decimal (x ∷ y ∷ z ∷ []) rest h = ground arith
starts_with-decimal (x ∷ y ∷ z ∷ u ∷ w) rest h = ground arith

-- None of the other names of this machine begins with a digit.
no_name :
    (w rest : Text)
    → IsDecimal w
    → is_truthy w ≡ true
    → ((w ++ rest) == codes "localhost" ≡ false)
      × ((w ++ rest) == codes "::1" ≡ false)
      × ((w ++ rest) == codes "[::1]" ≡ false)
unfolding ◌==◌
no_name [] rest h t = absurd (ground arith)
no_name (x ∷ w) rest h t = (ground arith, ground arith, ground arith)

show_127 : show 127 ≡ codes "127"
unfolding show
show_127 = refl

show-is_127 : (a : ℕ) → (show a == codes "127") ≡ nat_eq a 127
show-is_127 a = elim (Bool-cases (nat_eq a 127)) [
  | inl same ↦ rw (same, (nat_eq_iff a 127).0 same) ((eq_iff (show 127) (codes "127")).1 show_127)
  | inr other ↦ ground (
    arith,
    other,
    eq_iff (show a) (codes "127"),
    λ (h : show a ≡ codes "127"). show_injective a 127 (h ∙ sym show_127),
  )
]

is_loopback_name-dotted : (a b c d : ℕ) → is_loopback_name (dotted a b c d) ≡ nat_eq a 127
is_loopback_name-dotted a b c d =
    let rest = show b ++ b'.' ∷ (show c ++ b'.' ∷ show d) in
    let (local, six, bracketed) =
      no_name (show a) (b'.' ∷ rest) (show-IsDecimal a) (show-is_truthy a) in
    rw (local, six, bracketed)
      (starts_with-decimal (show a) rest (show-IsDecimal a) ∙ show-is_127 a)

module _ (hostname_of : Text → Option Text) where
  -- The second attempt, with a scheme in front.
  abbrev pub hostname_with_scheme : Text → Option Text
  hostname_with_scheme trimmed = hostname_of (codes "http://" ++ trimmed)

  abbrev pub hostname : Text → Option Text
  hostname trimmed = elim (hostname_of trimmed) [
    | none ↦ hostname_with_scheme trimmed
    | some name ↦ some name
  ]

  abbrev pub is_loopback_of : Option Text → Bool
  is_loopback_of none = false
  is_loopback_of (some name) = is_loopback_name name

  unfoldable pub is_loopback_host : Text → Bool
  is_loopback_host host =
      let trimmed = to_lower (trim host) in
      if not (is_truthy trimmed) then true else is_loopback_of (hostname trimmed)

  -- Whether the warning that terminal output leaves the machine shows.
  unfoldable pub is_remote_ollama : LlmTab → Bool
  is_remote_ollama t =
      (t.provider == codes "ollama")
      && is_truthy (trim t.ollama_host)
      && not (is_loopback_host t.ollama_host)

  -- The address a.b.c.d in decimal counts as this machine exactly if it begins with 127.
  pub is_loopback_host-dotted :
      (host : Text) (a b c d : ℕ)
      → is_truthy (trim host) ≡ true
      → hostname_of (to_lower (trim host)) ≡ some (dotted a b c d)
      → is_loopback_host host ≡ nat_eq a 127
  unfolding is_loopback_host
  is_loopback_host-dotted host a b c d set h =
      rw (to_lower-is_truthy (trim host), set, hostname, h) (is_loopback_name-dotted a b c d)

  -- The test of the prefix "127." takes host names for addresses: a server of any name that begins so
  -- counts as this machine, and no warning shows.
  pub prefix_trusted :
      (t : LlmTab) (rest : Text)
      → hostname_of (to_lower (trim t.ollama_host)) ≡ some (codes "127." ++ rest)
      → is_remote_ollama t ≡ false
  unfolding is_remote_ollama is_loopback_host starts_with ◌==◌
  prefix_trusted t rest h = ground arith

  -- A bare "localhost:11434", which the parser takes for a URL with the scheme "localhost" and no host
  -- name, is never tried with "http://" in front, and the warning shows though the server is local.
  pub bare_localhost_warned :
      (t : LlmTab)
      → t.provider ≡ codes "ollama"
      → to_lower (trim t.ollama_host) ≡ codes "localhost:11434"
      → hostname_of (codes "localhost:11434") ≡ some []
      → is_remote_ollama t ≡ true
  unfolding is_remote_ollama is_loopback_host starts_with ◌==◌
  bare_localhost_warned t p u h = ground (arith, to_lower-is_truthy (trim t.ollama_host))
