-- ===== src/Base/Split.antt =====
-- Splitting a joined text gives back the parts.
use mathlib.Core.Path.{◌≡◌, refl, ap, ◌∙◌}
use mathlib.Core.Bool.{false}
use mathlib.Core.Logic.{inl, inr}
use mathlib.Core.List.{List, [], ◌∷◌, ◌++◌}
use Prim.Native.Nat.{ℕ}
use native.Mathlib.Omega.{arith}
use pair_admin.Base.Tests.{nat_eq, Bool-cases}
use pair_admin.Base.Lists.{any, All}
use pair_admin.Base.Strings.{Text, split, join, cons_head}

-- The separator does not occur.
abbrev pub Without : ℕ → Text → Type 0
Without sep p = any (λ c. nat_eq c sep) p ≡ false

split_part : (sep : ℕ) (p : Text) → Without sep p → split sep p ≡ p ∷ []
unfolding split
split_part sep [] h = refl
split_part sep (c ∷ p) h = ground (arith, split_part sep p)

pub split-append :
    (sep : ℕ) (p s : Text) → Without sep p → split sep (p ++ sep ∷ s) ≡ p ∷ split sep s
unfolding split
split-append sep [] s h = ground arith
split-append sep (c ∷ p) s h = ground (arith, split-append sep p s)

pub split-join :
    (sep : ℕ) (p : Text) (ps : List Text)
    → All (Without sep) (p ∷ ps)
    → split sep (join (sep ∷ []) (p ∷ ps)) ≡ p ∷ ps
unfolding join
split-join sep p [] h = split_part sep p h.0
split-join sep p (q ∷ ps) (h, hs) =
    split-append sep p (join (sep ∷ []) (q ∷ ps)) h ∙ ap (p ∷◌) (split-join sep q ps hs)

cons_head-Without :
    (sep c : ℕ) (ps : List Text)
    → nat_eq c sep ≡ false
    → All (Without sep) ps
    → All (Without sep) (cons_head c ps)
unfolding cons_head
cons_head-Without sep c [] h ws = (ground arith, tt)
cons_head-Without sep c (p ∷ ps) h ws = (ground arith, ws.1)

-- The parts do not have the separator in them.
pub split-Without : (sep : ℕ) (s : Text) → All (Without sep) (split sep s)
unfolding split
split-Without sep [] = (refl, tt)
split-Without sep (c ∷ s) = elim (Bool-cases (nat_eq c sep)) [
  | inl same ↦ rw same (refl, split-Without sep s)
  | inr other ↦ rw other (cons_head-Without sep c (split sep s) other (split-Without sep s))
]
