-- ===== src/Terminal/Tabs.antt =====
-- The invariant of the tab list: ids are used once, and the active tab is one of the tabs or none.
use mathlib.Core.Bool.{not}
use pair_admin.Base.{
  ◌≡◌, refl, ◌⊎◌, inl, inr, Bool, true, false, Option, none, some, List, [], ◌∷◌, ◌++◌, map, Text,
  ◌==◌, eq_iff, eq_refl, arith, if◌then◌else◌, any, any-append, nat_eq, ◌&&◌, filter, modify_first,
  map-modify_first, map-append_one, or_else, IsUnused, Distinct, Distinct-append, Bool-cases,
  length,
}
use pair_admin.Terminal.{
  TerminalTab, TerminalState, TabDetails, has_id, with_saved_host, first_id, set_copy_mode_open,
  set_new_terminal_dialog_open, set_active_tab, add_tab, remove_tab, rename_tab, set_saved_host_id,
  clear_tabs, set_term_ref, take_next_tab_number,
}

pub data Action (Term : Type 0) : Type 0 where
  copy_mode dialog : Bool → Action Term
  select : (id : Text) → Action Term
  add : (id name : Text) → TabDetails → Action Term
  remove : (id : Text) → Action Term
  rename save_host : (id text : Text) → Action Term
  clear : Action Term
  set_ref : (id : Text) → Option Term → Action Term
  take_number : Action Term

abbrev pub ids : List TerminalTab → List Text
ids = map (λ t. t.id)

abbrev pub has_tab : Text → List TerminalTab → Bool
has_tab id ts = any (has_id id) ts

module _ {Term : Type 0} where
  unfoldable pub step : Action Term → TerminalState Term → TerminalState Term
  step (copy_mode opened) s = set_copy_mode_open opened s
  step (dialog opened) s = set_new_terminal_dialog_open opened s
  step (select id) s = set_active_tab id s
  step (add id name details) s = add_tab id name details s
  step (remove id) s = remove_tab id s
  step (rename id name) s = rename_tab id name s
  step (save_host id host) s = set_saved_host_id id host s
  step clear s = clear_tabs s
  step (set_ref id term) s = set_term_ref id term s
  step take_number s = (take_next_tab_number s).0

  pub record IsValid (s : TerminalState Term) : Type 0 where
    pub unique : Distinct (ids s.tabs)
    pub active : (s.active_tab_id ≡ []) ⊎ (has_tab s.active_tab_id s.tabs ≡ true)

  -- `setActiveTab` checks nothing: the caller names a tab that is there.
  abbrev pub IsAllowed : Action Term → TerminalState Term → Type 0
  IsAllowed (select id) s = has_tab id s.tabs ≡ true
  IsAllowed _ s = Unit

pub IsUnused-of_has_tab :
    (id : Text) (ts : List TerminalTab) → has_tab id ts ≡ false → IsUnused id (ids ts)
IsUnused-of_has_tab id [] h = refl
IsUnused-of_has_tab id (t ∷ ts) h = ground (arith, IsUnused-of_has_tab id ts)

IsUnused-filter :
    (id : Text) (p : TerminalTab → Bool) (ts : List TerminalTab)
    → IsUnused id (ids ts)
    → IsUnused id (ids (filter p ts))
IsUnused-filter id p [] h = refl
IsUnused-filter id p (t ∷ ts) h = ground (arith, IsUnused-filter id p ts)

Distinct-filter :
    (p : TerminalTab → Bool) (ts : List TerminalTab)
    → Distinct (ids ts)
    → Distinct (ids (filter p ts))
Distinct-filter p [] d = tt
Distinct-filter p (t ∷ ts) (u, d) = elim (Bool-cases (p t)) [
  | inl kept ↦ rw kept (IsUnused-filter t.id p ts u, Distinct-filter p ts d)
  | inr gone ↦ rw gone (Distinct-filter p ts d)
]

-- A removal keeps the other ids.
has_tab-filter :
    (id j : Text) (ts : List TerminalTab)
    → (j == id) ≡ false
    → has_tab j (filter (λ t. not (has_id id t)) ts) ≡ has_tab j ts
has_tab-filter id j [] h = refl
has_tab-filter id j (t ∷ ts) h =
    ground (arith, has_tab-filter id j ts h, eq_iff t.id id, eq_iff t.id j, eq_iff j id)

first_id_there : (ts : List TerminalTab) → (first_id ts ≡ []) ⊎ (has_tab (first_id ts) ts ≡ true)
first_id_there [] = inl refl
first_id_there (t ∷ ts) = inr (rw (eq_refl t.id))

has_tab-modify :
    (id j : Text) (f : TerminalTab → TerminalTab) (ts : List TerminalTab)
    → ((t : TerminalTab) → (f t).id ≡ t.id)
    → has_tab j (modify_first (has_id id) f ts) ≡ has_tab j ts
has_tab-modify id j f [] h = refl
has_tab-modify id j f (t ∷ ts) h = ground (arith, h t, has_tab-modify id j f ts h)

module _ {Term : Type 0} where
  modify-IsValid :
      (id : Text) (f : TerminalTab → TerminalTab) (s : TerminalState Term)
      → ((t : TerminalTab) → (f t).id ≡ t.id)
      → IsValid s
      → IsValid (record s { tabs = modify_first (has_id id) f s.tabs })
  modify-IsValid id f s h v = record {
    unique = rw (map-modify_first (λ (t : TerminalTab). t.id) (has_id id) f s.tabs h) v.unique;
    active = rw (has_tab-modify id s.active_tab_id f s.tabs h) v.active;
  }

  new_active :
      (b : Bool) (s : TerminalState Term) (t : TerminalTab)
      → IsValid s
      → let id = if b then t.id else s.active_tab_id in
        (id ≡ []) ⊎ (has_tab id (s.tabs ++ t ∷ []) ≡ true)
  new_active true s t v =
      inr (ground (arith, any-append (has_id t.id) s.tabs (t ∷ []), eq_refl t.id))
  new_active false s t v =
      ground (arith, any-append (has_id s.active_tab_id) s.tabs (t ∷ []), v.active)

  add_tab-IsValid :
      (id name : Text) (details : TabDetails) (s : TerminalState Term)
      → IsValid s
      → IsValid (add_tab id name details s)
  unfolding add_tab
  add_tab-IsValid id name details s v = elim (Bool-cases (has_tab id s.tabs)) [
    | inl there ↦ rw there v
    | inr new ↦
        let t : TerminalTab = record { id = id; name = name; details = details } in
        rw new (record {
          unique =
              rw (map-append_one (λ (t : TerminalTab). t.id) s.tabs t)
                (Distinct-append _ _ v.unique (refl, tt) (IsUnused-of_has_tab id s.tabs new, tt));
          active =
              new_active
                (nat_eq (length (s.tabs ++ t ∷ [])) 1 && not (or_else details.degraded false)) s t
                v;
        })
  ]

  remove_tab-IsValid : (id : Text) (s : TerminalState Term) → IsValid s → IsValid (remove_tab id s)
  unfolding remove_tab
  remove_tab-IsValid id s v = record {
    unique = Distinct-filter _ s.tabs v.unique;
    active = elim (Bool-cases (s.active_tab_id == id)) [
      | inl gone ↦ rw gone (first_id_there (filter (λ t. not (has_id id t)) s.tabs))
      | inr stays ↦ rw (stays, has_tab-filter id s.active_tab_id s.tabs stays) v.active
    ];
  }

  -- Every operation keeps the ids distinct and the active tab, if any, among the tabs, closing it
  -- included, provided that a tab that is made active is there.
  pub step-IsValid :
      (a : Action Term) (s : TerminalState Term) → IsAllowed a s → IsValid s → IsValid (step a s)
  unfolding step rename_tab set_saved_host_id clear_tabs set_term_ref take_next_tab_number
  step-IsValid (copy_mode opened) s h v = record { unique = v.unique; active = v.active }
  step-IsValid (dialog opened) s h v = record { unique = v.unique; active = v.active }
  step-IsValid (select id) s h v = record { unique = v.unique; active = inr h }
  step-IsValid (add id name details) s h v = add_tab-IsValid id name details s v
  step-IsValid (remove id) s h v = remove_tab-IsValid id s v
  step-IsValid (rename id name) s h v = modify-IsValid id _ s (λ t. refl) v
  step-IsValid (save_host id host) s h v = modify-IsValid id (with_saved_host host) s (λ t. refl) v
  step-IsValid clear s h v = record { unique = tt; active = inl refl }
  step-IsValid (set_ref id none) s h v = record { unique = v.unique; active = v.active }
  step-IsValid (set_ref id (some term)) s h v = record { unique = v.unique; active = v.active }
  step-IsValid take_number s h v = record { unique = v.unique; active = v.active }
