-- ===== src/Layout/Shown.antt =====
-- The theme that is chosen is the one that the document and the terminals show.
use pair_admin.Base.{
  ◌≡◌, refl, ap, ◌∙◌, ◌⊎◌, inl, inr, Bool, true, false, not, Option, List, [], ◌∷◌, ◌++◌, Text,
  ◌==◌, eq_iff, is_truthy, any, filter, All, Bool-cases, any-append, append-nil, arith,
}
use pair_admin.Layout.Theme.{
  ThemeState, dark, light, initial_theme, remove_class, add_class, theme_class, apply_theme,
  mounted, set_theme, is_dark_xterm,
}

-- The two themes that the buttons and the command `/theme` set.
abbrev IsNamed : Text → Type 0
IsNamed t = (t ≡ dark) ⊎ (t ≡ light)

abbrev HasNeither : List Text → Type 0
HasNeither cs = (any (λ x. x == light) cs ≡ false) × (any (λ x. x == dark) cs ≡ false)

-- The choices, each with what the system prefers at its time.
abbrev pub set_themes : List (Bool × Text) → ThemeState → ThemeState
set_themes [] s = s
set_themes ((prefers_dark, t) ∷ ts) s = set_themes ts (set_theme prefers_dark t s)

remove_class-absent :
    (c : Text) (cs : List Text) → any (λ x. x == c) cs ≡ false → remove_class c cs ≡ cs
remove_class-absent c [] h = refl
remove_class-absent c (x ∷ cs) h = ground (arith, remove_class-absent c cs)

any-remove_class : (c : Text) (cs : List Text) → any (λ x. x == c) (remove_class c cs) ≡ false
any-remove_class c [] = refl
any-remove_class c (x ∷ cs) = ground (arith, any-remove_class c cs)

any-filter : (p q : Text → Bool) (cs : List Text) → any p cs ≡ false → any p (filter q cs) ≡ false
any-filter p q [] h = refl
any-filter p q (x ∷ cs) h = ground (arith, any-filter p q cs)

abbrev pub others : List Text → List Text
others cs = remove_class dark (remove_class light cs)

others-HasNeither : (cs : List Text) → HasNeither (others cs)
others-HasNeither cs = (
  any-filter (λ x. x == light) (λ x. not (x == dark)) (remove_class light cs)
      (any-remove_class light cs),
  any-remove_class dark (remove_class light cs),
)

remove_class-append :
    (c : Text) (cs ds : List Text)
    → remove_class c (cs ++ ds) ≡ remove_class c cs ++ remove_class c ds
remove_class-append c [] ds = refl
remove_class-append c (x ∷ cs) ds = ground (arith, remove_class-append c cs ds)

others-named : (t : Text) → IsNamed t → others (t ∷ []) ≡ []
unfolding ◌==◌
others-named t (inl h) = rw h refl
others-named t (inr h) = rw h refl

-- Beside classes that are none of the two, one theme is replaced by another.
others-append :
    (base : List Text) (t : Text) → HasNeither base → IsNamed t → others (base ++ t ∷ []) ≡ base
others-append base t (hl, hd) ht =
    ap (remove_class dark) (remove_class-append light base (t ∷ []))
    ∙ remove_class-append dark (remove_class light base) (remove_class light (t ∷ []))
    ∙ rw
        (
          others-named t ht,
          remove_class-absent light base hl,
          remove_class-absent dark base hd,
          append-nil base,
        )
        refl

theme_class-named : (d : Bool) (t : Text) → IsNamed t → theme_class d t ≡ t
unfolding ◌==◌
theme_class-named d t (inl h) = rw h refl
theme_class-named d t (inr h) = rw h refl

add_class-named :
    (t : Text) (base : List Text) → HasNeither base → IsNamed t → add_class t base ≡ base ++ t ∷ []
add_class-named t base (hl, hd) (inl h) = rw (h, hd) refl
add_class-named t base (hl, hd) (inr h) = rw (h, hl) refl

-- The state is right for `base`, the other classes of the document.
abbrev pub IsShown : List Text → ThemeState → Type 0
IsShown base s =
    IsNamed s.theme × (s.classes ≡ base ++ s.theme ∷ []) × (initial_theme s.stored ≡ s.theme)

mounted-IsShown :
    (d : Bool) (stored : Option Text) (cs : List Text)
    → IsNamed (initial_theme stored)
    → IsShown (others cs) (mounted d stored cs)
unfolding mounted apply_theme
mounted-IsShown d stored cs h = (
  h,
  ap (λ c. add_class c (others cs)) (theme_class-named d (initial_theme stored) h)
      ∙ add_class-named (initial_theme stored) (others cs) (others-HasNeither cs) h,
  refl,
)

is_truthy-named : (t : Text) → IsNamed t → is_truthy t ≡ true
is_truthy-named t (inl h) = rw h refl
is_truthy-named t (inr h) = rw h refl

set_theme-classes :
    (d : Bool) (t : Text) (base : List Text) (s : ThemeState)
    → HasNeither base
    → IsNamed t
    → IsShown base s
    → (set_theme d t s).classes ≡ base ++ t ∷ []
unfolding set_theme apply_theme
set_theme-classes d t base s hb ht (hn, hc, hi) = elim (Bool-cases (t == s.theme)) [
  | inl same ↦ rw (same, hc, (eq_iff t s.theme).0 same) refl
  | inr other ↦
      rw (other, hc, others-append base s.theme hb hn, theme_class-named d t ht)
        (add_class-named t base hb ht)
]

set_theme-IsShown :
    (d : Bool) (t : Text) (base : List Text) (s : ThemeState)
    → HasNeither base
    → IsNamed t
    → IsShown base s
    → IsShown base (set_theme d t s)
unfolding set_theme
set_theme-IsShown d t base s hb ht hs =
    (ht, set_theme-classes d t base s hb ht hs, rw (is_truthy-named t ht) refl)

set_themes-IsShown :
    (ts : List (Bool × Text)) (base : List Text) (s : ThemeState)
    → HasNeither base
    → All (λ c. IsNamed c.1) ts
    → IsShown base s
    → IsShown base (set_themes ts s)
set_themes-IsShown [] base s hb h hs = hs
set_themes-IsShown ((d, t) ∷ ts) base s hb (ht, h) hs =
    set_themes-IsShown ts base (set_theme d t s) hb h (set_theme-IsShown d t base s hb ht hs)

is_dark_xterm-named :
    (t : Text) (base : List Text)
    → HasNeither base
    → IsNamed t
    → is_dark_xterm (base ++ t ∷ []) ≡ (t == dark)
unfolding is_dark_xterm
is_dark_xterm-named t base (hl, hd) ht =
    any-append (λ x. x == dark) base (t ∷ [])
    ∙ rw hd (elim (Bool-cases (t == dark)) [ inl h ↦ rw h refl | inr h ↦ rw h refl ])

abbrev pub last_theme : List (Bool × Text) → Text → Text
last_theme [] before = before
last_theme ((d, t) ∷ ts) before = last_theme ts t

set_themes-theme :
    (ts : List (Bool × Text)) (s : ThemeState) → (set_themes ts s).theme ≡ last_theme ts s.theme
unfolding set_theme
set_themes-theme [] s = refl
set_themes-theme ((d, t) ∷ ts) s = set_themes-theme ts (set_theme d t s)

-- Start with no stored theme or with "dark" or "light", choose any of the two any number of times, and
-- the theme is the last one chosen, or the first one if none is. The document has that class, not the
-- other one, and its further classes as they were; the terminals are dark exactly if the theme is "dark";
-- and the next start, whatever the document has then and the system prefers, has the same theme.
pub themes_shown :
    (d : Bool) (stored : Option Text) (cs : List Text) (ts : List (Bool × Text)) (d' : Bool)
    (cs' : List Text)
    → IsNamed (initial_theme stored)
    → All (λ c. IsNamed c.1) ts
    → let s = set_themes ts (mounted d stored cs) in
      (s.theme ≡ last_theme ts (initial_theme stored))
      × (s.classes ≡ others cs ++ s.theme ∷ [])
      × (is_dark_xterm s.classes ≡ (s.theme == dark))
      × ((mounted d' s.stored cs').theme ≡ s.theme)
unfolding mounted
themes_shown d stored cs ts d' cs' h hs =
    let base = others-HasNeither cs in
    let s = set_themes ts (mounted d stored cs) in
    let (named, shown, again) =
      set_themes-IsShown ts (others cs) (mounted d stored cs) base hs
        (mounted-IsShown d stored cs h) in
    (
      set_themes-theme ts (mounted d stored cs),
      shown,
      ap is_dark_xterm shown ∙ is_dark_xterm-named s.theme (others cs) base named,
      again,
    )
