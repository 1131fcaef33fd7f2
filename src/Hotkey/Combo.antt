-- ===== src/Hotkey/Combo.antt =====
-- A combo that the settings build, read back.
use pair_admin.Base.{
  ℕ, ◌≡◌, refl, ap, ◌∙◌, Bool, true, false, none, some, List, [], ◌∷◌, ◌++◌, Text, codes, ◌==◌,
  arith, if◌then◌else◌, nat_eq, is_truthy, length, split, join, to_lower, to_upper, lower_code,
  upper_code, Without, All, All-append, split-append, split-join, Bool-cases, inl, inr,
}
use pair_admin.Hotkey.{
  KeyEvent, last, init, has, parse_hotkey, flag, modifiers, is_modifier_key, key_part,
  build_key_combo,
}

lower_upper_code : (c : ℕ) → lower_code (upper_code c) ≡ lower_code c
unfolding lower_code upper_code
lower_upper_code c = ground arith

to_lower-to_upper : (s : Text) → to_lower (to_upper s) ≡ to_lower s
unfolding to_lower to_upper
to_lower-to_upper [] = refl
to_lower-to_upper (c ∷ s) = rw (lower_upper_code c) (ap (lower_code c ∷◌) (to_lower-to_upper s))

-- Upper case brings in no "+".
Without-to_upper : (s : Text) → Without b'+' s → Without b'+' (to_upper s)
unfolding to_upper upper_code
Without-to_upper [] h = refl
Without-to_upper (c ∷ s) h = ground (arith, Without-to_upper s)

truthy-to_upper : (s : Text) → is_truthy (to_upper s) ≡ is_truthy s
unfolding to_upper
truthy-to_upper [] = refl
truthy-to_upper (c ∷ s) = refl

last-append : (xs : List Text) (x : Text) → last (xs ++ x ∷ []) ≡ x
last-append [] x = refl
last-append (y ∷ []) x = refl
last-append (y ∷ z ∷ xs) x = last-append (z ∷ xs) x

init-append : (xs : List Text) (x : Text) → init (xs ++ x ∷ []) ≡ xs
init-append [] x = refl
init-append (y ∷ []) x = refl
init-append (y ∷ z ∷ xs) x = ap (y ∷◌) (init-append (z ∷ xs) x)

-- The list of modifiers, read back flag by flag.
has-modifiers :
    (c s a m : Bool)
    → let mods =
        flag c (codes "Ctrl")
        ++ (flag s (codes "Shift") ++ (flag a (codes "Alt") ++ flag m (codes "Meta"))) in
      (has (codes "Ctrl") mods ≡ c)
      × (has (codes "Shift") mods ≡ s)
      × (has (codes "Alt") mods ≡ a)
      × (has (codes "Meta") mods ≡ m)
      × All (Without b'+') mods
unfolding ◌==◌
has-modifiers true true true true = (refl, refl, refl, refl, (refl, (refl, (refl, (refl, tt)))))
has-modifiers true true true false = (refl, refl, refl, refl, (refl, (refl, (refl, tt))))
has-modifiers true true false true = (refl, refl, refl, refl, (refl, (refl, (refl, tt))))
has-modifiers true true false false = (refl, refl, refl, refl, (refl, (refl, tt)))
has-modifiers true false true true = (refl, refl, refl, refl, (refl, (refl, (refl, tt))))
has-modifiers true false true false = (refl, refl, refl, refl, (refl, (refl, tt)))
has-modifiers true false false true = (refl, refl, refl, refl, (refl, (refl, tt)))
has-modifiers true false false false = (refl, refl, refl, refl, (refl, tt))
has-modifiers false true true true = (refl, refl, refl, refl, (refl, (refl, (refl, tt))))
has-modifiers false true true false = (refl, refl, refl, refl, (refl, (refl, tt)))
has-modifiers false true false true = (refl, refl, refl, refl, (refl, (refl, tt)))
has-modifiers false true false false = (refl, refl, refl, refl, (refl, tt))
has-modifiers false false true true = (refl, refl, refl, refl, (refl, (refl, tt)))
has-modifiers false false true false = (refl, refl, refl, refl, (refl, tt))
has-modifiers false false false true = (refl, refl, refl, refl, (refl, tt))
has-modifiers false false false false = (refl, refl, refl, refl, tt)

-- A key that is not a modifier, has a text, and is not "+".
abbrev pub IsPlain : Text → Type 0
IsPlain key = (is_modifier_key key ≡ false) × (is_truthy key ≡ true) × Without b'+' key

-- The text that stands for a plain key in a combo.
key_text : Text → Text
key_text key = if nat_eq (length key) 1 then to_upper key else key

key_part_plain : (key : Text) → IsPlain key → key_part key ≡ key_text key ∷ []
unfolding key_text
key_part_plain key (m, t, w) = rw m refl

key_text-fits :
    (key : Text)
    → IsPlain key
    → Without b'+' (key_text key)
      × (is_truthy (key_text key) ≡ true)
      × (to_lower (key_text key) ≡ to_lower key)
unfolding key_text
key_text-fits key (m, t, w) = elim (Bool-cases (nat_eq (length key) 1)) [
  | inl e ↦ rw e (Without-to_upper key w, truthy-to_upper key ∙ t, to_lower-to_upper key)
  | inr e ↦ rw e (w, t, refl)
]

split-join_last :
    (xs : List Text) (x : Text)
    → All (Without b'+') xs
    → Without b'+' x
    → split b'+' (join (codes "+") (xs ++ x ∷ [])) ≡ xs ++ x ∷ []
split-join_last [] x hs h = split-join b'+' x [] (h, tt)
split-join_last (y ∷ xs) x hs h =
    split-join b'+' y (xs ++ x ∷ []) (hs.0, All-append (Without b'+') xs (x ∷ []) hs.1 (h, tt))

truthy-join :
    (xs : List Text) (x : Text)
    → is_truthy x ≡ true
    → is_truthy (join (codes "+") (xs ++ x ∷ [])) ≡ true
unfolding join
truthy-join [] x h = h
truthy-join ([] ∷ []) x h = refl
truthy-join ([] ∷ y ∷ xs) x h = refl
truthy-join ((c ∷ s) ∷ []) x h = refl
truthy-join ((c ∷ s) ∷ y ∷ xs) x h = refl

parse-join :
    (xs : List Text) (x : Text)
    → All (Without b'+') xs
    → Without b'+' x
    → is_truthy x ≡ true
    → parse_hotkey (join (codes "+") (xs ++ x ∷ []))
      ≡ some (record {
        ctrl = has (codes "Ctrl") xs;
        shift = has (codes "Shift") xs;
        alt = has (codes "Alt") xs;
        meta = has (codes "Meta") xs;
        key = to_lower x;
      })
unfolding parse_hotkey
parse-join xs x hs h t =
    rw (truthy-join xs x t, split-join_last xs x hs h, last-append xs x, init-append xs x, t) refl

-- Parsing the combo that the settings build for a key event gives back the event's modifiers and its
-- key in lower case, when the key is not a modifier, has a text, and has no "+" in it.
pub parse-build :
    (e : KeyEvent)
    → IsPlain e.key
    → parse_hotkey (build_key_combo e)
      ≡ some (record {
        ctrl = e.ctrl_key;
        shift = e.shift_key;
        alt = e.alt_key;
        meta = e.meta_key;
        key = to_lower e.key;
      })
unfolding build_key_combo
parse-build e h =
    let flags = has-modifiers e.ctrl_key e.shift_key e.alt_key e.meta_key in
    let fits = key_text-fits e.key h in
    rw (key_part_plain e.key h) (
      parse-join (modifiers e) (key_text e.key) flags.4 fits.0 fits.1
      ∙ cc (flags.0, flags.1, flags.2, flags.3, fits.2))

-- The key "+" is cut into two empty parts, so that the combo has no key.
split-join_plus :
    (xs : List Text)
    → All (Without b'+') xs
    → split b'+' (join (codes "+") (xs ++ codes "+" ∷ [])) ≡ xs ++ [] ∷ [] ∷ []
unfolding join split
split-join_plus [] hs = refl
split-join_plus (y ∷ []) hs = split-append b'+' y (codes "+") hs.0
split-join_plus (y ∷ z ∷ xs) hs =
    split-append b'+' y (join (codes "+") (z ∷ xs ++ codes "+" ∷ [])) hs.0
    ∙ ap (y ∷◌) (split-join_plus (z ∷ xs) hs.1)

last-append_two : (xs : List Text) (x y : Text) → last (xs ++ x ∷ y ∷ []) ≡ y
last-append_two [] x y = refl
last-append_two (z ∷ []) x y = refl
last-append_two (z ∷ w ∷ xs) x y = last-append_two (w ∷ xs) x y

-- The combo that the settings build for the key "+", with any modifiers, does not parse.
pub parse-build_plus : (e : KeyEvent) → e.key ≡ codes "+" → parse_hotkey (build_key_combo e) ≡ none
unfolding parse_hotkey build_key_combo ◌==◌ to_upper
parse-build_plus e h =
    let flags = has-modifiers e.ctrl_key e.shift_key e.alt_key e.meta_key in
    rw
      (
        h,
        truthy-join (modifiers e) (codes "+") refl,
        split-join_plus (modifiers e) flags.4,
        last-append_two (modifiers e) [] [],
      )
      refl
