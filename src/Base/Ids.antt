-- ===== src/Base/Ids.antt =====
-- Ids that are used once.
use mathlib.Core.Path.{◌≡◌, refl}
use mathlib.Core.Bool.{Bool, false, ◌||◌}
use mathlib.Core.List.{List, [], ◌∷◌, ◌++◌}
use native.Mathlib.Omega.{arith}
use pair_admin.Base.Lists.{any, All}
use pair_admin.Base.Strings.{Text, ◌==◌, eq_iff}

abbrev pub IsUnused : Text → List Text → Type 0
IsUnused id xs = any (λ x. x == id) xs ≡ false

abbrev pub Distinct : List Text → Type 0
Distinct [] = Unit
Distinct (x ∷ xs) = IsUnused x xs × Distinct xs

pub any-append {ℓ} :
    {A : Type ℓ} (p : A → Bool) (xs ys : List A) → any p (xs ++ ys) ≡ (any p xs || any p ys)
any-append p [] ys = refl
any-append p (x ∷ xs) ys = ground (arith, any-append p xs ys)

IsUnused-append :
    (id : Text) (xs ys : List Text) → IsUnused id xs → IsUnused id ys → IsUnused id (xs ++ ys)
IsUnused-append id xs ys h k = ground (arith, any-append (λ x. x == id) xs ys)

IsUnused-of_All : (x : Text) (xs ys : List Text) → All (λ y. IsUnused y (x ∷ xs)) ys → IsUnused x ys
IsUnused-of_All x xs [] h = refl
IsUnused-of_All x xs (y ∷ ys) h =
    ground (arith, IsUnused-of_All x xs ys h.1, eq_iff x y, eq_iff y x)

All-tail :
    (x : Text) (xs ys : List Text) → All (λ y. IsUnused y (x ∷ xs)) ys → All (λ y. IsUnused y xs) ys
All-tail x xs [] h = tt
All-tail x xs (y ∷ ys) h = (ground arith, All-tail x xs ys h.1)

pub Distinct-append :
    (xs ys : List Text)
    → Distinct xs
    → Distinct ys
    → All (λ y. IsUnused y xs) ys
    → Distinct (xs ++ ys)
Distinct-append [] ys d e u = e
Distinct-append (x ∷ xs) ys (v, d) e u = (
  IsUnused-append x xs ys v (IsUnused-of_All x xs ys u),
  Distinct-append xs ys d e (All-tail x xs ys u),
)
