-- ===== src/Command/Unique.antt =====
-- The ids of a list of commands under the array methods that the store calls.
use pair_admin.Base.{
  ℕ, zero, suc, ◌≡◌, refl, Bool, false, some, List, [], ◌∷◌, map, Text, ◌==◌, eq_iff, arith, filter,
  get_elem?, insert_at, erase_idx, IsUnused, Distinct, Bool-cases, inl, inr,
}
use pair_admin.Command.{Command}

abbrev pub ids : List Command → List Text
ids = map (λ c. c.id)

IsUnused-filter :
    (id : Text) (p : Command → Bool) (cs : List Command)
    → IsUnused id (ids cs)
    → IsUnused id (ids (filter p cs))
IsUnused-filter id p [] h = refl
IsUnused-filter id p (c ∷ cs) h = ground (arith, IsUnused-filter id p cs)

pub Distinct-filter :
    (p : Command → Bool) (cs : List Command) → Distinct (ids cs) → Distinct (ids (filter p cs))
Distinct-filter p [] d = tt
Distinct-filter p (c ∷ cs) (u, d) = elim (Bool-cases (p c)) [
  | inl kept ↦ rw kept (IsUnused-filter c.id p cs u, Distinct-filter p cs d)
  | inr gone ↦ rw gone (Distinct-filter p cs d)
]

IsUnused-insert_at :
    (id : Text) (i : ℕ) (c : Command) (cs : List Command)
    → (c.id == id) ≡ false
    → IsUnused id (ids cs)
    → IsUnused id (ids (insert_at i c cs))
IsUnused-insert_at id zero c cs h u = ground arith
IsUnused-insert_at id (suc i) c [] h u = ground arith
IsUnused-insert_at id (suc i) c (b ∷ cs) h u = ground (arith, IsUnused-insert_at id i c cs h)

pub Distinct-insert_at :
    (i : ℕ) (c : Command) (cs : List Command)
    → IsUnused c.id (ids cs)
    → Distinct (ids cs)
    → Distinct (ids (insert_at i c cs))
Distinct-insert_at zero c cs u d = (u, d)
Distinct-insert_at (suc i) c [] u d = (refl, tt)
Distinct-insert_at (suc i) c (b ∷ cs) u (v, d) = (
  IsUnused-insert_at b.id i c cs (ground (arith, eq_iff c.id b.id, eq_iff b.id c.id)) v,
  Distinct-insert_at i c cs (ground arith) d,
)

IsUnused-erase_idx :
    (id : Text) (i : ℕ) (cs : List Command)
    → IsUnused id (ids cs)
    → IsUnused id (ids (erase_idx i cs))
IsUnused-erase_idx id i [] u = u
IsUnused-erase_idx id zero (c ∷ cs) u = ground arith
IsUnused-erase_idx id (suc i) (c ∷ cs) u = ground (arith, IsUnused-erase_idx id i cs)

IsUnused-get_elem? :
    (id : Text) (i : ℕ) (cs : List Command) (c : Command)
    → get_elem? cs i ≡ some c
    → IsUnused id (ids cs)
    → (c.id == id) ≡ false
IsUnused-get_elem? id i [] c h u = cc
IsUnused-get_elem? id zero (b ∷ cs) c h u = ground arith
IsUnused-get_elem? id (suc i) (b ∷ cs) c h u = IsUnused-get_elem? id i cs c h (ground arith)

-- What is taken out of a list without doubles is not in the rest.
pub Distinct-erase_idx :
    (i : ℕ) (cs : List Command) (c : Command)
    → get_elem? cs i ≡ some c
    → Distinct (ids cs)
    → Distinct (ids (erase_idx i cs)) × IsUnused c.id (ids (erase_idx i cs))
Distinct-erase_idx i [] c h d = cc
Distinct-erase_idx zero (b ∷ cs) c h (u, d) = (d, ground arith)
Distinct-erase_idx (suc i) (b ∷ cs) c h (u, d) =
    let (e, v) = Distinct-erase_idx i cs c h d in
    (
      (IsUnused-erase_idx b.id i cs u, e),
      ground (arith, IsUnused-get_elem? b.id i cs c h u, eq_iff b.id c.id, eq_iff c.id b.id),
    )
