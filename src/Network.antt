-- ===== src/Network.antt =====
-- The Network panel: frontend/src/components/scanner/ports.ts, and the search and the results of
-- frontend/src/components/scanner/NetworkPanel.tsx. `Number` of a token is a parameter: the integer that
-- it is, if it is one.
pub mod Words
pub mod Bounds
pub mod Lists
pub mod Panel
pub mod Controls
pub mod PanelTests
pub mod Tests
use pair_admin.Base.{
  ℕ, zero, suc, ◌+◌, ◌-◌, Bool, true, false, not, ◌&&◌, ◌||◌, Option, none, some, List, [], ◌∷◌,
  ◌++◌, Text, codes, any, filter, if◌then◌else◌, nat_eq, leb, is_truthy, is_space, trim, split,
  or_else, ℤ, pos, negsuc,
}
use pair_admin.Scanner.{
  HostRow, HostState, ScanRequest, scan_request, ScannerState, ScannerStatus, scanning,
}
use pair_admin.Connect.Wizard.{Prefill}

-- The first half of `replace(/\s*-\s*/g, "-")`: no white space before a dash.
abbrev pub before_dash : ℕ → Text → Text
before_dash c [] = c ∷ []
before_dash c (d ∷ s) = if is_space c && nat_eq d b'-' then d ∷ s else c ∷ d ∷ s

unfoldable pub trim_before_dashes : Text → Text
trim_before_dashes [] = []
trim_before_dashes (c ∷ s) = before_dash c (trim_before_dashes s)

-- The second half: none behind one; `behind` is whether only white space stands since a dash.
unfoldable pub trim_behind_dashes : Bool → Text → Text
trim_behind_dashes behind [] = []
trim_behind_dashes behind (c ∷ s) =
    let skipped = trim_behind_dashes true s in
    let kept = c ∷ trim_behind_dashes (nat_eq c b'-') s in
    if behind && is_space c then skipped else kept

unfoldable pub normalize_dashes : Text → Text
normalize_dashes raw = trim_behind_dashes false (trim_before_dashes raw)

abbrev pub is_separator : ℕ → Bool
is_separator c = is_space c || nat_eq c b','

abbrev pub flush : Text → List Text → List Text
flush [] ws = ws
flush (c ∷ w) ws = (c ∷ w) ∷ ws

-- The first word, which may be empty, and the other words.
unfoldable pub words_from : Text → Text × List Text
words_from [] = ([], [])
words_from (c ∷ s) =
    let (w, ws) = words_from s in if is_separator c then ([], flush w ws) else (c ∷ w, ws)

-- `split(/[\s,]+/)`, less the empty texts at the ends, which both callers skip.
unfoldable pub words : Text → List Text
words s = let (w, ws) = words_from s in flush w ws

unfoldable pub parse_targets : Text → List Text
parse_targets raw = let t = trim raw in if not (is_truthy t) then [] else words (normalize_dashes t)

-- The loop from `lo` on, `n` numbers.
abbrev pub ports_from : ℕ → ℕ → List ℕ
ports_from lo zero = []
ports_from lo (suc n) = lo ∷ ports_from (lo + 1) n

-- The range of two integers.
abbrev pub port_range : Option ℤ → Option ℤ → List ℕ
port_range (some (pos lo)) (some (pos hi)) =
    if nat_eq lo 0 || not (leb hi 65535) || not (leb lo hi) then [] else ports_from lo (hi + 1 - lo)
port_range _ _ = []

abbrev pub single_port : Option ℤ → List ℕ
single_port (some (pos p)) = if not (nat_eq p 0) && leb p 65535 then p ∷ [] else []
single_port _ = []

module _ (integer_of : Text → Option ℤ) where
  abbrev pub range_of : List Text → List ℕ
  range_of (a ∷ b ∷ []) = port_range (integer_of a) (integer_of b)
  range_of _ = []

  unfoldable pub parse_token : Text → List ℕ
  parse_token token =
      if any (λ c. nat_eq c b'-') token
      then range_of (split b'-' token)
      else single_port (integer_of token)

  unfoldable pub parse_tokens : List Text → List ℕ
  parse_tokens [] = []
  parse_tokens (t ∷ ts) = parse_token t ++ parse_tokens ts

  unfoldable pub parse_ports : Text → List ℕ
  parse_ports raw = parse_tokens (words (normalize_dashes raw))

  -- "Search", which is disabled while a scan runs: the argument of `startScan`, with at most 16 probes.
  unfoldable pub search : Text → Text → ScanRequest
  search target ports_raw = scan_request (parse_targets target) (parse_ports ports_raw) (some 16)

abbrev is_actionable : HostState → Bool
is_actionable HostState.ssh = true
is_actionable HostState.ssh_known = true
is_actionable _ = false

unfoldable pub actionable_rows : List HostRow → List HostRow
actionable_rows rows = filter (λ (r : HostRow). is_actionable r.state) rows

-- "Add to hosts": what the connection dialog opens with.
abbrev ssh_port : HostRow → ℕ
ssh_port row = elim row.ssh [ none ↦ 22 | some info ↦ info.port ]

unfoldable pub handle_add_to_hosts : HostRow → Prefill
handle_add_to_hosts row = record { host = row.ip; port = ssh_port row }
