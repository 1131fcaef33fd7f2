-- ===== src/Stream/Pending.antt =====
-- The laws of the `Map` of chunks that came early.
use pair_admin.Base.{
  ℕ, ◌≤◌, ◌<◌, ◌≡◌, refl, none, some, List, [], ◌∷◌, Text, arith, if◌then◌else◌, nat_eq, length,
}
use pair_admin.Stream.{map_get, map_set, map_delete}

pub map_get-map_set :
    (j k : ℕ) (v : Text) (m : List (ℕ × Text))
    → map_get j (map_set k v m) ≡ (if nat_eq k j then some v else map_get j m)
map_get-map_set j k v [] = ground arith
map_get-map_set j k v ((i, t) ∷ m) = ground (arith, map_get-map_set j k v m)

pub map_get-map_delete :
    (j k : ℕ) (m : List (ℕ × Text))
    → map_get j (map_delete k m) ≡ (if nat_eq k j then none else map_get j m)
map_get-map_delete j k [] = ground arith
map_get-map_delete j k ((i, t) ∷ m) = ground (arith, map_get-map_delete j k m)

length-map_delete-le : (k : ℕ) (m : List (ℕ × Text)) → length (map_delete k m) ≤ length m
length-map_delete-le k [] = omega arith
length-map_delete-le k ((i, t) ∷ m) = ground (arith, length-map_delete-le k m)

pub length-map_delete :
    (k : ℕ) (m : List (ℕ × Text)) (t : Text)
    → map_get k m ≡ some t
    → length (map_delete k m) < length m
length-map_delete k [] t h = ground arith
length-map_delete k ((i, v) ∷ m) t h =
    ground (arith, length-map_delete-le k m, length-map_delete k m t)

pub map_get_of_empty : (k : ℕ) (m : List (ℕ × Text)) → length m ≤ 0 → map_get k m ≡ none
map_get_of_empty k [] h = refl
map_get_of_empty k (e ∷ m) h = absurd (omega arith)
