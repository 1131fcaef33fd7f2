-- ===== src/Terminal/Numbers.antt =====
-- The numbers of auto-generated tab names, and which tab `addTab` activates.
use pair_admin.Base.{
  ℕ, ◌+◌, ◌≤◌, ◌≡◌, refl, false, none, some, List, [], ◌∷◌, ◌++◌, Text, arith, any, length,
  length-append, nat_eq,
}
use pair_admin.Terminal.{
  TerminalTab, TerminalState, TabDetails, has_id, add_tab, remove_tab, rename_tab,
  set_saved_host_id, clear_tabs, set_term_ref, take_next_tab_number,
}
use pair_admin.Terminal.Tabs.{
  Action, step, copy_mode, dialog, select, add, remove, rename, save_host, clear, set_ref,
  take_number,
}

module _ {Term : Type 0} where
  -- The numbers that a history hands out.
  unfoldable pub numbers : List (Action Term) → TerminalState Term → List ℕ
  numbers [] s = []
  numbers (take_number ∷ rest) s = let (s', n) = take_next_tab_number s in n ∷ numbers rest s'
  numbers (a ∷ rest) s = numbers rest (step a s)

-- Each number is at least the bound, and less than all that come later.
abbrev Ascending : ℕ → List ℕ → Type 0
Ascending m [] = Unit
Ascending m (n ∷ ns) = (m ≤ n) × Ascending (n + 1) ns

Ascending-le : (m n : ℕ) (ns : List ℕ) → m ≤ n → Ascending n ns → Ascending m ns
Ascending-le m n [] h a = tt
Ascending-le m n (k ∷ ns) h a = (omega arith, a.1)

module _ {Term : Type 0} where
  -- No operation but `takeNextTabNumber` moves the counter.
  step-number :
      (a : Action Term) (s : TerminalState Term) → s.next_tab_number ≤ (step a s).next_tab_number
  unfolding step add_tab remove_tab rename_tab set_saved_host_id clear_tabs set_term_ref
      take_next_tab_number
  step-number (copy_mode opened) s = omega arith
  step-number (dialog opened) s = omega arith
  step-number (select id) s = omega arith
  step-number (add id name details) s = ground arith
  step-number (remove id) s = omega arith
  step-number (rename id name) s = omega arith
  step-number (save_host id host) s = omega arith
  step-number clear s = omega arith
  step-number (set_ref id none) s = omega arith
  step-number (set_ref id (some term)) s = omega arith
  step-number take_number s = omega arith

  -- Through any history, whatever tabs are opened and closed on the way, the numbers handed out grow
  -- strictly: none is used twice.
  pub numbers-Ascending :
      (rest : List (Action Term)) (s : TerminalState Term)
      → Ascending s.next_tab_number (numbers rest s)
  unfolding numbers take_next_tab_number
  numbers-Ascending [] s = tt
  numbers-Ascending (take_number ∷ rest) s =
      (omega arith, numbers-Ascending rest (record s { next_tab_number = s.next_tab_number + 1 }))
  numbers-Ascending (a ∷ rest) s =
      Ascending-le _ _ _ (step-number a s) (numbers-Ascending rest (step a s))

  -- A tab with a new id that is added behind another never becomes active, degraded or not: with a
  -- degraded tab first, the first tab that is not degraded stays inactive.
  pub add_tab_behind :
      (id name : Text) (details : TabDetails) (s : TerminalState Term) (t : TerminalTab)
      (ts : List TerminalTab)
      → s.tabs ≡ t ∷ ts
      → any (has_id id) s.tabs ≡ false
      → let s' = add_tab id name details s in
        (s'.active_tab_id ≡ s.active_tab_id)
        × (s'.tabs ≡ s.tabs ++ record { id = id; name = name; details = details } ∷ [])
  unfolding add_tab
  add_tab_behind id name details s t ts e h =
      let tab : TerminalTab = record { id = id; name = name; details = details } in
      let many : nat_eq (length (s.tabs ++ tab ∷ [])) 1 ≡ false =
        ground (arith, length-append s.tabs (tab ∷ []), e) in
      rw (h, many) (refl, refl)
