-- ===== src/Base/Integers.antt =====
-- Integers on the native numbers, and `parseInt`.
use Prim.Native.Nat.{ℕ, zero, suc, ◌+◌, ◌-◌, ◌*◌, ◌/◌, ◌%◌, ◌<◌}
use mathlib.Core.Path.{◌≡◌, refl, ap, sym, ◌∙◌}
use native.Mathlib.Omega.{arith}
use mathlib.Core.Bool.{Bool, true, false, not, ◌&&◌}
use mathlib.Core.Logic.{inl, inr}
use mathlib.Core.Option.{Option, none, some}
use mathlib.Core.List.{[], ◌∷◌}
use pair_admin.Base.Tests.{if◌then◌else◌, leb, ltb, nat_eq, Bool-cases}
use pair_admin.Base.Strings.{Text, is_truthy}
use pair_admin.Base.Lists.{any}

pub data ℤ : Type 0 where
  pos : ℕ → ℤ
  negsuc : ℕ → ℤ

abbrev is_digit : ℕ → Bool
is_digit c = leb b'0' c && leb c b'9'

-- The number that the leading digits stand for, after those read into `n`.
abbrev pub digits_from : ℕ → Text → ℕ
digits_from n [] = n
digits_from n (c ∷ s) =
    let more = digits_from (10 * n + (c - 48)) s in if is_digit c then more else n

abbrev pub digits : Text → Option ℕ
digits [] = none
digits (c ∷ s) = if is_digit c then some (digits_from 0 (c ∷ s)) else none

abbrev negate : ℕ → ℤ
negate zero = pos zero
negate (suc n) = negsuc n

abbrev negated : Option ℕ → Option ℤ
negated none = none
negated (some n) = some (negate n)

abbrev as_pos : Option ℕ → Option ℤ
as_pos none = none
as_pos (some n) = some (pos n)

-- `parseInt(s, 10)` on a trimmed text, with `none` for NaN.
unfoldable pub parse_int : Text → Option ℤ
parse_int [] = none
parse_int (c ∷ s) =
    if nat_eq c b'-'
    then negated (digits s)
    else if nat_eq c b'+'
    then as_pos (digits s)
    else as_pos (digits (c ∷ s))

-- The decimal digits of `n` in front of those read so far; each round takes one, so that n + 1 rounds
-- are enough.
show_from : ℕ → ℕ → Text → Text
show_from zero n acc = acc
show_from (suc k) n acc =
    let more = show_from k (n / 10) ((48 + n % 10) ∷ acc) in
    if ltb n 10 then (48 + n) ∷ acc else more

-- `String(n)`
unfoldable pub show : ℕ → Text
unfolding show_from
show n = show_from (suc n) n []

digits_from-digit :
    (c d : ℕ) (acc : Text) → d < 10 → digits_from c ((48 + d) ∷ acc) ≡ digits_from (10 * c + d) acc
digits_from-digit c d acc h =
    let same : 48 + d - 48 ≡ d = omega arith in
    let digit : is_digit (48 + d) ≡ true = ground arith in rw (digit, same) refl

digits_from-show_from :
    (k n : ℕ) (acc : Text) → n < k → digits_from 0 (show_from k n acc) ≡ digits_from n acc
unfolding show_from
digits_from-show_from zero n acc h = absurd (omega arith)
digits_from-show_from (suc k) n acc h = elim (Bool-cases (ltb n 10)) [
  | inl small ↦
      let start : 10 * 0 + n ≡ n = omega arith in
      rw (small, digits_from-digit 0 n acc (ground arith), start) refl
  | inr large ↦
      let parts : 10 * (n / 10) + n % 10 ≡ n = omega arith in
      rw
        (
          large,
          digits_from-show_from k (n / 10) ((48 + n % 10) ∷ acc) (ground arith),
          digits_from-digit (n / 10) (n % 10) acc (omega arith),
          parts,
        )
        refl
]

pub digits-show : (n : ℕ) → digits_from 0 (show n) ≡ n
unfolding show
digits-show n = digits_from-show_from (suc n) n [] (omega arith)

-- Two numbers with the same digits are the same.
pub show_injective : (m n : ℕ) → show m ≡ show n → m ≡ n
show_injective m n h = sym (digits-show m) ∙ ap (digits_from 0) h ∙ digits-show n

-- Decimal digits throughout.
abbrev pub IsDecimal : Text → Type 0
IsDecimal t = any (λ c. not (is_digit c)) t ≡ false

digit-is_digit : (d : ℕ) → d < 10 → is_digit (48 + d) ≡ true
digit-is_digit d h = ground arith

show_from-IsDecimal : (k n : ℕ) (acc : Text) → IsDecimal acc → IsDecimal (show_from k n acc)
unfolding show_from
show_from-IsDecimal zero n acc h = h
show_from-IsDecimal (suc k) n acc h = elim (Bool-cases (ltb n 10)) [
  | inl small ↦ rw (small, digit-is_digit n (ground arith)) h
  | inr large ↦ rw large (
      show_from-IsDecimal k (n / 10) ((48 + n % 10) ∷ acc)
        (rw (digit-is_digit (n % 10) (omega arith)) h))
]

pub show-IsDecimal : (n : ℕ) → IsDecimal (show n)
unfolding show
show-IsDecimal n = show_from-IsDecimal (suc n) n [] refl

show_from-is_truthy : (k n c : ℕ) (acc : Text) → is_truthy (show_from k n (c ∷ acc)) ≡ true
unfolding show_from
show_from-is_truthy zero n c acc = refl
show_from-is_truthy (suc k) n c acc =
    ground (arith, show_from-is_truthy k (n / 10) (48 + n % 10) (c ∷ acc))

pub show-is_truthy : (n : ℕ) → is_truthy (show n) ≡ true
unfolding show show_from
show-is_truthy n = ground (arith, show_from-is_truthy n (n / 10) (48 + n % 10) [])
