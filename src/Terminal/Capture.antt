-- ===== src/Terminal/Capture.antt =====
-- The tab list after the event `terminal:tabs`.
use mathlib.Core.Bool.{not}
use pair_admin.Base.{
  ◌≡◌, refl, ◌∙◌, ◌||◌, ◌&&◌, Bool, true, List, [], ◌∷◌, ◌++◌, append_assoc, append-nil, Text, ◌==◌,
  eq_iff, eq_refl, arith, if◌then◌else◌, any-append, filter, Bool-cases, inl, inr,
}
use pair_admin.Terminal.{
  TerminalTab, TerminalState, TabInfo, no_details, has_id, listed, add_tab, remove_tab,
  remove_missing, add_new, handle_tabs,
}
use pair_admin.Terminal.Tabs.{step, add, remove, IsValid, has_tab, step-IsValid}

filter-filter :
    (p q : TerminalTab → Bool) (ts : List TerminalTab)
    → filter p (filter q ts) ≡ filter (λ t. q t && p t) ts
filter-filter p q [] = refl
filter-filter p q (t ∷ ts) = ground (arith, filter-filter p q ts)

-- Two tests that agree on the tabs of a list.
filter_congr :
    (p q : TerminalTab → Bool) (ts : List TerminalTab)
    → ((t : TerminalTab) → has_tab t.id ts ≡ true → p t ≡ q t)
    → filter p ts ≡ filter q ts
filter_congr p q [] h = refl
filter_congr p q (t ∷ ts) h =
    ground (arith, h t (rw (eq_refl t.id)), filter_congr p q ts (λ u m. h u (ground arith)))

-- Not closed by the first loop over the tabs `ts`.
abbrev survives : List TabInfo → List TerminalTab → TerminalTab → Bool
survives infos ts t = listed t.id infos || not (has_tab t.id ts)

filter-true :
    (p : TerminalTab → Bool) (ts : List TerminalTab)
    → ((t : TerminalTab) → p t ≡ true)
    → filter p ts ≡ ts
filter-true p [] h = refl
filter-true p (t ∷ ts) h = ground (arith, h t, filter-true p ts h)

survives-cons :
    (infos : List TabInfo) (u t : TerminalTab) (ts : List TerminalTab)
    → (if listed u.id infos then survives infos ts t else not (t.id == u.id) && survives infos ts t)
      ≡ survives infos (u ∷ ts) t
survives-cons infos u t ts = elim (Bool-cases (u.id == t.id)) [
  | inl same ↦ rw ((eq_iff u.id t.id).0 same, eq_refl t.id) (ground arith)
  | inr other ↦ ground (arith, eq_iff u.id t.id, eq_iff t.id u.id)
]

module _ {Term : Type 0} (infos : List TabInfo) where
  remove_missing-tabs :
      (ts : List TerminalTab) (s : TerminalState Term)
      → (remove_missing infos ts s).tabs ≡ filter (survives infos ts) s.tabs
  unfolding remove_missing remove_tab
  remove_missing-tabs [] s =
      ground (arith, filter-true (survives infos []) s.tabs (λ t. ground arith))
  remove_missing-tabs (u ∷ ts) s = elim (Bool-cases (listed u.id infos)) [
    | inl there ↦
        rw (there, remove_missing)
          (remove_missing-tabs ts s
            ∙ filter_congr _ _ s.tabs (λ t m. rw there at (survives-cons infos u t ts)))
    | inr missing ↦
        rw (missing, remove_missing)
          (remove_missing-tabs ts (remove_tab u.id s)
            ∙ filter-filter _ _ s.tabs
            ∙ filter_congr _ _ s.tabs (λ t m. rw missing at (survives-cons infos u t ts)))
  ]

has_tab-listed :
    (infos : List TabInfo) (j : Text) (ts : List TerminalTab)
    → has_tab j (filter (λ t. listed t.id infos) ts) ≡ (has_tab j ts && listed j infos)
has_tab-listed infos j [] = refl
has_tab-listed infos j (t ∷ ts) = elim (Bool-cases (t.id == j)) [
  | inl same ↦
      rw ((eq_iff t.id j).0 same, eq_refl j)
        (ground (arith, has_tab-listed infos j ts, eq_refl j, (eq_iff t.id j).0 same))
  | inr other ↦ ground (arith, has_tab-listed infos j ts)
]

has_tab_congr : (i j : Text) (ts : List TerminalTab) → (i == j) ≡ true → has_tab i ts ≡ has_tab j ts
has_tab_congr i j ts h = rw ((eq_iff i j).0 h)

module _ {Term : Type 0} where
  has_tab-add_tab :
      (id name j : Text) (s : TerminalState Term)
      → has_tab j (add_tab id name no_details s).tabs ≡ (has_tab j s.tabs || id == j)
  unfolding add_tab
  has_tab-add_tab id name j s = elim (Bool-cases (has_tab id s.tabs)) [
    | inl there ↦ rw there (ground (arith, eq_iff id j))
    | inr new ↦ rw new (
        ground (
          arith,
          any-append (has_id j) s.tabs (record { id = id; name = name; details = no_details } ∷ []),
        ))
  ]

  append-add_tab :
      (id name : Text) (s : TerminalState Term)
      → (new : List TerminalTab) × ((add_tab id name no_details s).tabs ≡ s.tabs ++ new)
  unfolding add_tab
  append-add_tab id name s = elim (Bool-cases (has_tab id s.tabs)) [
    | inl there ↦ ([], rw (there, append-nil))
    | inr new ↦ (record { id = id; name = name; details = no_details } ∷ [], rw new)
  ]

  module _ (current : List TerminalTab) where
    has_tab-add_new :
        (j : Text) (is : List TabInfo) (s : TerminalState Term)
        → has_tab j (add_new current is s).tabs
          ≡ (has_tab j s.tabs || (listed j is && not (has_tab j current)))
    unfolding add_new
    has_tab-add_new j [] s = ground arith
    has_tab-add_new j (i ∷ is) s = elim (Bool-cases (has_tab i.id current)) [
      | inl old ↦
          rw (old, add_new) (ground (arith, has_tab-add_new j is s, has_tab_congr i.id j current))
      | inr new ↦
          rw (new, add_new)
            (ground (
              arith,
              has_tab-add_new j is (add_tab i.id i.name no_details s),
              has_tab-add_tab i.id i.name j s,
              has_tab_congr i.id j current,
            ))
    ]

    append-add_new :
        (is : List TabInfo) (s : TerminalState Term)
        → (new : List TerminalTab) × ((add_new current is s).tabs ≡ s.tabs ++ new)
    unfolding add_new
    append-add_new [] s = ([], rw append-nil)
    append-add_new (i ∷ is) s = elim (Bool-cases (has_tab i.id current)) [
      | inl old ↦ rw (old, add_new) (append-add_new is s)
      | inr new ↦
          let (one, e) = append-add_tab i.id i.name s in
          let (more, f) = append-add_new is (add_tab i.id i.name no_details s) in
          rw (new, add_new) (one ++ more, f ∙ (rw (e, append_assoc)))
    ]

    add_new-IsValid :
        (is : List TabInfo) (s : TerminalState Term) → IsValid s → IsValid (add_new current is s)
    unfolding add_new step
    add_new-IsValid [] s v = v
    add_new-IsValid (i ∷ is) s v = elim (Bool-cases (has_tab i.id current)) [
      | inl old ↦ rw (old, add_new) (add_new-IsValid is s v)
      | inr new ↦
          rw (new, add_new)
            (add_new-IsValid is _ (step-IsValid (add i.id i.name no_details) s tt v))
    ]

  remove_missing-IsValid :
      (infos : List TabInfo) (ts : List TerminalTab) (s : TerminalState Term)
      → IsValid s
      → IsValid (remove_missing infos ts s)
  unfolding remove_missing step
  remove_missing-IsValid infos [] s v = v
  remove_missing-IsValid infos (t ∷ ts) s v = elim (Bool-cases (listed t.id infos)) [
    | inl there ↦ rw (there, remove_missing) (remove_missing-IsValid infos ts s v)
    | inr missing ↦
        rw (missing, remove_missing)
          (remove_missing-IsValid infos ts _ (step-IsValid (remove t.id) s tt v))
  ]

  -- After the event, in a state that keeps the invariant, the tabs are exactly those that it
  -- lists. The tabs that stay keep their order and all their data, in front of the new ones, and
  -- the invariant is kept.
  pub handle_tabs_lem :
      (infos : List TabInfo) (s : TerminalState Term) (j : Text)
      → IsValid s
      → let s' = handle_tabs infos s in
        (new : List TerminalTab) × (s'.tabs ≡ filter (λ t. listed t.id infos) s.tabs ++ new)
        × (has_tab j s'.tabs ≡ listed j infos)
        × IsValid s'
  unfolding handle_tabs
  handle_tabs_lem infos s j v =
      let s1 = remove_missing infos s.tabs s in
      let kept : s1.tabs ≡ filter (λ t. listed t.id infos) s.tabs =
        remove_missing-tabs infos s.tabs s ∙ filter_congr _ _ s.tabs (λ t m. ground arith) in
      let (new, e) = append-add_new s.tabs infos s1 in
      let there : has_tab j (handle_tabs infos s).tabs ≡ listed j infos =
        has_tab-add_new s.tabs j infos s1
        ∙ rw kept (ground (arith, has_tab-listed infos j s.tabs)) in
      (
        new,
        e ∙ (rw kept),
        there,
        add_new-IsValid s.tabs infos s1 (remove_missing-IsValid infos s.tabs s v),
      )
