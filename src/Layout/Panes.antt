-- ===== src/Layout/Panes.antt =====
-- Which terminals the layout shows: the middle column of
-- frontend/src/components/layout/ThreeColumnLayout.tsx, and the empty state of
-- frontend/src/components/terminal/TerminalPreview.tsx.
use pair_admin.Base.{
  ◌≡◌, ap, refl, Bool, true, false, ◌&&◌, List, [], ◌∷◌, ◌++◌, Text, codes, ◌==◌, eq_iff, subst,
  nat_eq, length, any, filter, if◌then◌else◌, arith, inl, inr, Widget, words, when, Distinct,
  IsUnused, Bool-cases,
}
use pair_admin.Terminal.{TerminalTab, TerminalState}
use pair_admin.Terminal.Tabs.{
  Action, step, IsValid, IsAllowed, step-IsValid, has_tab, ids, IsUnused-of_has_tab,
}

-- A preview that is mounted, and whether it is displayed.
pub record Pane : Type 0 where
  pub tab_id : Text
  pub displayed : Bool

abbrev pub pane : Text → Pane
pane id = record { tab_id = id; displayed = true }

abbrev tab_panes : Text → List TerminalTab → List Pane
tab_panes active [] = []
tab_panes active (t ∷ ts) =
    record { tab_id = t.id; displayed = t.id == active } ∷ tab_panes active ts

unfoldable pub panes : {Term : Type 0} → TerminalState Term → List Pane
panes s =
    (if nat_eq (length s.tabs) 0 then pane [] ∷ [] else []) ++ tab_panes s.active_tab_id s.tabs

abbrev pub on_display : List Pane → List Pane
on_display ps = filter (λ (p : Pane). p.displayed) ps

-- An entry of `GetAdapterStatus`.
pub record AdapterStatusInfo : Type 0 where
  pub name : Text
  pub status : Text

abbrev is_onboarding : AdapterStatusInfo → Bool
is_onboarding a = a.name == codes "atspi" && a.status == codes "onboarding"

-- The preview without a tab.
unfoldable pub empty_state : List AdapterStatusInfo → List (Widget Text)
empty_state statuses =
    words (codes "No terminal sessions detected.")
    ∷ when (any is_onboarding statuses) (
        words (codes "Enable accessibility for GUI terminals")
        ∷ words (codes "$ gsettings set org.gnome.desktop.interface toolkit-accessibility true")
        ∷ words (codes "Then restart your terminal application.")
        ∷ [])

shown-unused :
    (active : Text) (ts : List TerminalTab)
    → IsUnused active (ids ts)
    → on_display (tab_panes active ts) ≡ []
shown-unused active [] h = refl
shown-unused active (t ∷ ts) h = ground (arith, shown-unused active ts)

shown-active :
    (active : Text) (ts : List TerminalTab)
    → Distinct (ids ts)
    → has_tab active ts ≡ true
    → on_display (tab_panes active ts) ≡ pane active ∷ []
shown-active active [] u h = cc
shown-active active (t ∷ ts) (fresh, u) h = elim (Bool-cases (t.id == active)) [
  | inl same ↦
      let e = (eq_iff t.id active).0 same in
      let rest = shown-unused active ts (subst (λ id. IsUnused id (ids ts)) e fresh) in
      rw (same, rest) (ap (λ id. pane id ∷ []) e)
  | inr other ↦ rw other (shown-active active ts u (rw (other, has_tab) at h))
]

shown-tabs :
    (active : Text) (ts : List TerminalTab)
    → Distinct (ids ts)
    → on_display (tab_panes active ts) ≡ (if has_tab active ts then pane active ∷ [] else [])
shown-tabs active ts u = elim (Bool-cases (has_tab active ts)) [
  | inl there ↦ rw there (shown-active active ts u there)
  | inr missing ↦ rw missing (shown-unused active ts (IsUnused-of_has_tab active ts missing))
]

panes-tabs :
    (active : Text) (ts : List TerminalTab)
    → Distinct (ids ts)
    → on_display ((if nat_eq (length ts) 0 then pane [] ∷ [] else []) ++ tab_panes active ts) ≡ (
        if nat_eq (length ts) 0
        then pane [] ∷ []
        else if has_tab active ts
        then pane active ∷ []
        else [])
panes-tabs active [] u = refl
panes-tabs active (t ∷ ts) u =
    let some_tab : nat_eq (length (t ∷ ts)) 0 ≡ false = ground arith in
    rw some_tab (shown-tabs active (t ∷ ts) u)

module _ {Term : Type 0} where
  abbrev pub run : List (Action Term) → TerminalState Term → TerminalState Term
  run [] s = s
  run (a ∷ as') s = run as' (step a s)

  -- Whoever makes a tab active names one that is there.
  abbrev pub AreAllowed : List (Action Term) → TerminalState Term → Type 0
  AreAllowed [] s = Unit
  AreAllowed (a ∷ as') s = IsAllowed a s × AreAllowed as' (step a s)

  run-IsValid :
      (as' : List (Action Term)) (s : TerminalState Term)
      → AreAllowed as' s
      → IsValid s
      → IsValid (run as' s)
  run-IsValid [] s h v = v
  run-IsValid (a ∷ as') s (ha, h) v = run-IsValid as' (step a s) h (step-IsValid a s ha v)

  -- After any operations of the terminal store, each of which makes only a tab active that is there:
  -- without tabs the empty state is on display, and otherwise the terminal of the active tab and no other
  -- one. If none of the tabs is active nothing is on display, although there are tabs.
  pub one_on_display :
      (as' : List (Action Term)) (s : TerminalState Term)
      → IsValid s
      → AreAllowed as' s
      → let t = run as' s in
        on_display (panes t) ≡ (
          if nat_eq (length t.tabs) 0
          then pane [] ∷ []
          else if has_tab t.active_tab_id t.tabs
          then pane t.active_tab_id ∷ []
          else [])
  unfolding panes
  one_on_display as' s v h =
      let t = run as' s in panes-tabs t.active_tab_id t.tabs (run-IsValid as' s h v).unique
