-- ===== src/QuickSelect/Labels.antt =====
-- The labels of the items, read back as keys.
use pair_admin.Base.{
  ℕ, zero, suc, ◌+◌, ◌<◌, ◌≡◌, refl, some, List, [], ◌∷◌, map, arith, length, length-append,
  length-take, take, get_elem?, filter,
}
use Prim.Native.Nat.{min}
use pair_admin.Command.{Command}
use pair_admin.Terminal.{TerminalTab}
use pair_admin.QuickSelect.{
  QuickSelectItem, decimal, with_labels, unlabelled, select_items, fkey_number, max_items,
}

fkey_number-decimal : (i : ℕ) → i < 12 → fkey_number (b'F' ∷ decimal (i + 1)) ≡ some (i + 1)
unfolding fkey_number
fkey_number-decimal i h = ground arith

with_labels-label :
    (n i : ℕ) (items : List QuickSelectItem) (item : QuickSelectItem)
    → get_elem? (with_labels n items) i ≡ some item
    → item.label ≡ b'F' ∷ decimal (n + i + 1)
with_labels-label n i [] item h = cc
with_labels-label n zero (x ∷ items) item h = ground arith
with_labels-label n (suc i) (x ∷ items) item h =
    ground (arith, with_labels-label (n + 1) i items item h)

length-with_labels :
    (n : ℕ) (items : List QuickSelectItem) → length (with_labels n items) ≡ length items
length-with_labels n [] = refl
length-with_labels n (x ∷ items) = omega (arith, length-with_labels (n + 1) items)

pub get_elem?-bound {ℓ} :
    {A : Type ℓ} (xs : List A) (i : ℕ) (a : A) → get_elem? xs i ≡ some a → i < length xs
get_elem?-bound [] i a h = cc
get_elem?-bound (x ∷ xs) zero a h = omega arith
get_elem?-bound (x ∷ xs) (suc i) a h = omega (arith, get_elem?-bound xs i a h)

length-map {ℓ κ} :
    {A : Type ℓ} {B : Type κ} (f : A → B) (xs : List A) → length (map f xs) ≡ length xs
length-map f [] = refl
length-map f (x ∷ xs) = omega (arith, length-map f xs)

-- There is an item for each pinned command and each tab, up to twelve.
length-select_items :
    (commands : List Command) (tabs : List TerminalTab)
    → length (select_items commands tabs)
      ≡ min 12 (length (filter (λ (c : Command). c.pinned) commands) + length tabs)
unfolding select_items
length-select_items commands tabs = rw (
  length-with_labels 0 (take max_items (unlabelled commands tabs)),
  length-take max_items (unlabelled commands tabs),
  length-append,
  length-map,
  length-map,
)

-- The label of an item is the name of the F-key that stands for its place in the list.
pub select_items-label :
    (commands : List Command) (tabs : List TerminalTab) (i : ℕ) (item : QuickSelectItem)
    → get_elem? (select_items commands tabs) i ≡ some item
    → fkey_number item.label ≡ some (i + 1)
unfolding select_items
select_items-label commands tabs i item h =
    let bound = get_elem?-bound (select_items commands tabs) i item h in
    let small : i < 12 = omega (arith, length-select_items commands tabs, bound) in
    let place : 0 + i + 1 ≡ i + 1 = omega arith in
    rw (with_labels-label 0 i (take max_items (unlabelled commands tabs)) item h, place)
      (fkey_number-decimal i small)
