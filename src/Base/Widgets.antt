-- ===== src/Base/Widgets.antt =====
-- What a component shows: the texts, fields and buttons of its markup, in order, without their layout.
-- `A` is what the user can do. A field has its label, or its placeholder where it has no label.
use Prim.Native.Nat.{ℕ}
use mathlib.Core.Path.{◌≡◌, refl}
use mathlib.Core.Logic.{◌⊎◌, inl, inr}
use mathlib.Core.Bool.{Bool, true, false}
use mathlib.Core.Option.{Option, some}
use mathlib.Core.List.{List, [], ◌∷◌, ◌++◌}
use native.Mathlib.Omega.{arith}
use pair_admin.Base.Tests.{if◌then◌else◌}
use pair_admin.Base.Lists.{any}
use pair_admin.Base.Strings.{Text, ◌==◌}
use pair_admin.Base.Integers.{ℤ}

pub data Widget {ℓ} (A : Type ℓ) : Type ℓ where
  words : Text → Widget A
  -- a text in red or amber
  alert : Text → Widget A
  button : (label : Text) (disabled : Bool) (action : A) → Widget A
  text_field : (label value : Text) (on_change : Text → A) → Widget A
  secret_field : (label value : Text) (on_change : Text → A) → Widget A
  -- a text that can be selected, but not changed
  text_area : (label value : Text) → Widget A
  number_field : (label : Text) (value : ℕ) (on_change : ℕ → A) → Widget A
  -- a field for a whole number, and what its loss of the focus does, if anything
  integer_field : (label : Text) (value : ℤ) (on_change : ℤ → A) (on_blur : Option A) → Widget A
  checkbox : (label : Text) (checked disabled : Bool) (on_change : Bool → A) → Widget A
  choice : (label : Text) (options : List (Text × A)) → Widget A

module _ {A : Type 0} where
  -- `condition && markup`
  abbrev pub when : Bool → List (Widget A) → List (Widget A)
  when true ws = ws
  when false ws = []

  abbrev pub AnOption : A → List (Text × A) → Type 0
  AnOption a [] = ⊥
  AnOption a ((label, b) ∷ os) = (a ≡ b) ⊎ AnOption a os

  -- The user can do `a` with the widget: a button or a checkbox must be enabled, and a field takes any
  -- value.
  abbrev pub OfferedBy : A → Widget A → Type 0
  OfferedBy a (words t) = ⊥
  OfferedBy a (alert t) = ⊥
  OfferedBy a (button label disabled b) = (disabled ≡ false) × (a ≡ b)
  OfferedBy a (text_field label value f) = (t : Text) × (a ≡ f t)
  OfferedBy a (secret_field label value f) = (t : Text) × (a ≡ f t)
  OfferedBy a (text_area label value) = ⊥
  OfferedBy a (number_field label value f) = (n : ℕ) × (a ≡ f n)
  OfferedBy a (integer_field label value f blur) = ((z : ℤ) × (a ≡ f z)) ⊎ (blur ≡ some a)
  OfferedBy a (checkbox label checked disabled f) = (disabled ≡ false) × (b : Bool) × (a ≡ f b)
  OfferedBy a (choice label os) = AnOption a os

  abbrev pub Offered : A → List (Widget A) → Type 0
  Offered a [] = ⊥
  Offered a (w ∷ ws) = OfferedBy a w ⊎ Offered a ws

  abbrev pub is_words : Text → Widget A → Bool
  is_words t (words u) = t == u
  is_words t (alert u) = t == u
  is_words t _ = false

  abbrev pub is_alert : Text → Widget A → Bool
  is_alert t (alert u) = t == u
  is_alert t _ = false

  abbrev pub is_field : Text → Widget A → Bool
  is_field t (text_field label value f) = t == label
  is_field t (secret_field label value f) = t == label
  is_field t _ = false

  -- The texts on display that can be selected.
  abbrev pub areas : List (Widget A) → List Text
  areas [] = []
  areas (text_area label value ∷ ws) = value ∷ areas ws
  areas (w ∷ ws) = areas ws

  -- The fields with a label: what each shows, and what typing into it does.
  abbrev pub fields_of : Text → List (Widget A) → List (Text × (Text → A))
  fields_of l [] = []
  fields_of l (text_field label value f ∷ ws) =
      let rest = fields_of l ws in if l == label then (value, f) ∷ rest else rest
  fields_of l (secret_field label value f ∷ ws) =
      let rest = fields_of l ws in if l == label then (value, f) ∷ rest else rest
  fields_of l (w ∷ ws) = fields_of l ws

  -- A text, an alert, a field with a label.
  abbrev pub shows : Text → List (Widget A) → Bool
  shows t ws = any (is_words t) ws

  abbrev pub alerts : Text → List (Widget A) → Bool
  alerts t ws = any (is_alert t) ws

  abbrev pub has_field : Text → List (Widget A) → Bool
  has_field t ws = any (is_field t) ws

  pub fields_of-append :
      (l : Text) (ws vs : List (Widget A))
      → fields_of l (ws ++ vs) ≡ fields_of l ws ++ fields_of l vs
  fields_of-append l [] vs = refl
  fields_of-append l (w ∷ ws) vs = ground (arith, fields_of-append l ws vs)

  pub Offered-append :
      (a : A) (ws vs : List (Widget A)) → Offered a (ws ++ vs) → Offered a ws ⊎ Offered a vs
  Offered-append a [] vs h = inr h
  Offered-append a (w ∷ ws) vs (inl h) = inl (inl h)
  Offered-append a (w ∷ ws) vs (inr h) = elim (Offered-append a ws vs h) [
    | inl k ↦ inl (inr k)
    | inr k ↦ inr k
  ]

  pub Offered-when :
      (a : A) (b : Bool) (ws : List (Widget A)) → Offered a (when b ws) → (b ≡ true) × Offered a ws
  Offered-when a true ws h = (refl, h)
  Offered-when a false ws h = absurd h

  pub Offered-append_not :
      (a : A) (ws vs : List (Widget A)) → ¬ Offered a ws → ¬ Offered a vs → ¬ Offered a (ws ++ vs)
  Offered-append_not a ws vs h k both = elim (Offered-append a ws vs both) [
    | inl l ↦ h l
    | inr r ↦ k r
  ]

  pub Offered-when_not :
      (a : A) (b : Bool) (ws : List (Widget A)) → ¬ Offered a ws → ¬ Offered a (when b ws)
  Offered-when_not a b ws h k = h (Offered-when a b ws k).1

  pub Offered-left : (a : A) (ws vs : List (Widget A)) → Offered a ws → Offered a (ws ++ vs)
  Offered-left a [] vs h = absurd h
  Offered-left a (w ∷ ws) vs (inl h) = inl h
  Offered-left a (w ∷ ws) vs (inr h) = inr (Offered-left a ws vs h)

  pub Offered-right : (a : A) (ws vs : List (Widget A)) → Offered a vs → Offered a (ws ++ vs)
  Offered-right a [] vs h = h
  Offered-right a (w ∷ ws) vs h = inr (Offered-right a ws vs h)
