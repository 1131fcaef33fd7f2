-- ===== src/Network/Controls.antt =====
-- What the Network panel offers, and what comes of a row that is added to the hosts.
use mathlib.Core.List.{Memᴰ}
use pair_admin.Base.{
  ℤ, ◌≡◌, refl, ◌⊎◌, ◌↔◌, inl, inr, subst, true, false, Option, List, [], ◌∷◌, ◌++◌, Text, arith,
  or_else, Offered, Offered-append, Offered-when, Offered-left, Offered-right, Offered-append_not,
  when, Widget, Bool-cases,
}
use pair_admin.Terminal.{TabKind}
use pair_admin.Scanner.{HostRow, ScannerState}
use pair_admin.Network.{actionable_rows, is_actionable, handle_add_to_hosts, ssh_port}
use pair_admin.Connect.{list_remote_hosts, get_settings}
use pair_admin.Connect.Dialog.{Dialog, Step}
use pair_admin.Connect.Wizard.{on_open}
use pair_admin.Network.Panel.{
  Panel, Action, toggle_expanded, search_clicked, stop_clicked, add_to_hosts, press, is_scanning,
  fields, progress_row, outcome, row_list, row_widgets, view,
}

abbrev pub IsShown : Panel → Type 0
IsShown p = (or_else p.enabled false ≡ true) × (p.expanded ≡ true)

body : Panel → List (Widget Action)
body p =
    fields p
    ++ (when (is_scanning p.scanner.status) (progress_row p.scanner)
        ++ (outcome p.scanner ++ row_list (actionable_rows p.scanner.rows)))

-- Beside its heading, the panel offers what its body does, when it is shown.
view_iff :
    (a : Action) (p : Panel)
    → ¬ (a ≡ toggle_expanded)
    → Offered a (view p) ↔ (IsShown p × Offered a (body p))
unfolding view body fields
view_iff a p ne = (
  λ o.
      let (e, h) = Offered-when a (or_else p.enabled false) _ o in
      elim h [
        | inl toggled ↦ absurd (ne toggled.1)
        | inr rest ↦ let (x, b) = Offered-when a p.expanded _ rest in ((e, x), b)
      ],
  λ ((e, x), b). rw (e, x) (inr b),
)

add-row :
    (r x : HostRow)
    → Offered (add_to_hosts r) (row_widgets x)
    → (r ≡ x) × (is_actionable x.state ≡ true)
add-row r x o = ground arith

row-add : (r : HostRow) → is_actionable r.state ≡ true → Offered (add_to_hosts r) (row_widgets r)
row-add r h = rw h (inr (inr (inl (refl, refl))))

add-rows :
    (r : HostRow) (rows : List HostRow)
    → Offered (add_to_hosts r) (row_list (actionable_rows rows))
    → Memᴰ r rows × (is_actionable r.state ≡ true)
unfolding row_list actionable_rows
add-rows r [] o = absurd o
add-rows r (x ∷ xs) o = elim (Bool-cases (is_actionable x.state)) [
  | inl found ↦ elim (Offered-append _ (row_widgets x) _ (rw found at o)) [
    | inl l ↦ let (e, h) = add-row r x l in (Memᴰ.head e, rw e h)
    | inr l ↦ let (m, h) = add-rows r xs l in (Memᴰ.tail m, h)
  ]
  | inr other ↦ let (m, h) = add-rows r xs (rw other at o) in (Memᴰ.tail m, h)
]

rows-add :
    (r : HostRow) (rows : List HostRow)
    → Memᴰ r rows
    → is_actionable r.state ≡ true
    → Offered (add_to_hosts r) (row_list (actionable_rows rows))
unfolding row_list actionable_rows
rows-add r [] m h = elim m [ ]
rows-add r (x ∷ xs) (Memᴰ.head e) h =
    rw (subst (λ (y : HostRow). is_actionable y.state ≡ true) e h) (
      Offered-left _ (row_widgets x) _
        (subst (λ y. Offered (add_to_hosts r) (row_widgets y)) e (row-add r h)))
rows-add r (x ∷ xs) (Memᴰ.tail m) h = elim (Bool-cases (is_actionable x.state)) [
  | inl found ↦ rw found (Offered-right _ (row_widgets x) _ (rows-add r xs m h))
  | inr other ↦ rw other (rows-add r xs m h)
]

only_adds-rows :
    (a : Action) (rows : List HostRow)
    → ((r : HostRow) → ¬ (a ≡ add_to_hosts r))
    → ¬ Offered a (row_list rows)
unfolding row_list
only_adds-rows a [] ne = λ o. o
only_adds-rows a (x ∷ xs) ne =
    Offered-append_not a (row_widgets x) (row_list xs)
      (λ o. elim (Bool-cases (is_actionable x.state)) [
        | inl found ↦ elim (rw found at o) [
          | inl w ↦ w
          | inr (inl w) ↦ w
          | inr (inr (inl b)) ↦ ne x b.1
          | inr (inr (inr (inl w))) ↦ w
          | inr (inr (inr (inr w))) ↦ w
        ]
        | inr other ↦ ground arith
      ])
      (only_adds-rows a xs ne)

nothing-outcome : (a : Action) (s : ScannerState) → ¬ Offered a (outcome s)
unfolding outcome
nothing-outcome a s o = ground arith

body-parts :
    (a : Action) (p : Panel)
    → Offered a (body p)
    → Offered a (fields p)
      ⊎ ((is_scanning p.scanner.status ≡ true) × Offered a (progress_row p.scanner))
      ⊎ Offered a (row_list (actionable_rows p.scanner.rows))
unfolding body
body-parts a p o = elim (Offered-append a (fields p) _ o) [
  | inl f ↦ inl f
  | inr l ↦
      elim (Offered-append a (when (is_scanning p.scanner.status) (progress_row p.scanner)) _ l) [
        | inl q ↦ inr (inl (Offered-when a _ _ q))
        | inr k ↦ elim (Offered-append a (outcome p.scanner) _ k) [
          | inl q ↦ absurd (nothing-outcome a p.scanner q)
          | inr rows ↦ inr (inr rows)
        ]
      ]
]

pub add_iff :
    (r : HostRow) (p : Panel)
    → Offered (add_to_hosts r) (view p)
      ↔ (IsShown p × Memᴰ r p.scanner.rows × (is_actionable r.state ≡ true))
unfolding body fields progress_row
add_iff r p =
    let (there, back) = view_iff (add_to_hosts r) p (λ e. ground arith) in
    (
      λ o.
          let (s, b) = there o in
          elim (body-parts (add_to_hosts r) p b) [
            | inl f ↦ absurd (ground arith)
            | inr (inl q) ↦ absurd (ground arith)
            | inr (inr rows) ↦ let (m, h) = add-rows r p.scanner.rows rows in (s, m, h)
          ],
      λ (s, m, h). back (
        s,
        Offered-right _ (fields p) _ (
            Offered-right _ (when (is_scanning p.scanner.status) (progress_row p.scanner)) _
              (Offered-right _ (outcome p.scanner) _ (rows-add r p.scanner.rows m h))),
      ),
    )

search_iff :
    (p : Panel)
    → Offered search_clicked (view p) ↔ (IsShown p × (is_scanning p.scanner.status ≡ false))
unfolding body fields progress_row
search_iff p =
    let (there, back) = view_iff search_clicked p (λ e. ground arith) in
    (
      λ o.
          let (s, b) = there o in
          elim (body-parts search_clicked p b) [
            | inl f ↦ (s, ground arith)
            | inr (inl q) ↦ absurd (ground arith)
            | inr (inr rows) ↦ absurd (only_adds-rows search_clicked _ (λ r e. ground arith) rows)
          ],
      λ (s, h). back (s, inr (inr (inl (h, refl)))),
    )

stop_iff :
    (p : Panel)
    → Offered stop_clicked (view p) ↔ (IsShown p × (is_scanning p.scanner.status ≡ true))
unfolding body fields progress_row
stop_iff p =
    let (there, back) = view_iff stop_clicked p (λ e. ground arith) in
    (
      λ o.
          let (s, b) = there o in
          elim (body-parts stop_clicked p b) [
            | inl f ↦ absurd (ground arith)
            | inr (inl q) ↦ (s, q.0)
            | inr (inr rows) ↦ absurd (only_adds-rows stop_clicked _ (λ r e. ground arith) rows)
          ],
      λ (s, h). back (s, Offered-right _ (fields p) _ (rw h (inr (inl (refl, refl))))),
    )

-- The buttons of the panel are on display only while it is enabled and open. Then "Search" is enabled
-- exactly while no scan runs and "Stop" is there exactly while one does, and "Add to hosts" stands beside
-- exactly the scan's rows that answered as an SSH server.
pub controls_lem :
    (p : Panel)
    → (Offered search_clicked (view p) ↔ (IsShown p × (is_scanning p.scanner.status ≡ false)))
      × (Offered stop_clicked (view p) ↔ (IsShown p × (is_scanning p.scanner.status ≡ true)))
      × ((r : HostRow)
          → Offered (add_to_hosts r) (view p)
            ↔ (IsShown p × Memᴰ r p.scanner.rows × (is_actionable r.state ≡ true)))
controls_lem p = (search_iff p, stop_iff p, λ r. add_iff r p)

-- A row that is added from the panel as it stands is one that the scan found with an SSH server. The
-- connection dialog, whatever it held before, then opens at an SSH form for the row's address and the port
-- of its server, without a secret and without trust in the host's key, and it opens no terminal.
pub added_lem :
    (integer_of : Text → Option ℤ) (r : HostRow) (p : Panel) (d : Dialog)
    → Offered (add_to_hosts r) (view p)
    → let p' = (press integer_of (add_to_hosts r) p).0 in
      let (d', calls) = on_open p'.dialog_initial d in
      Memᴰ r p.scanner.rows
      × (is_actionable r.state ≡ true)
      × (p'.dialog_open ≡ true)
      × (d'.step ≡ Step.form)
      × (d'.form.kind ≡ TabKind.ssh)
      × (d'.form.host ≡ r.ip)
      × (d'.form.port ≡ ssh_port r)
      × (d'.form.password ≡ [])
      × (d'.form.passphrase ≡ [])
      × (d'.form.trust_new_host_key ≡ false)
      × (calls ≡ list_remote_hosts ∷ get_settings ∷ [])
unfolding press on_open handle_add_to_hosts
added_lem integer_of r p d o =
    let (_, m, h) = (add_iff r p).0 o in
    (m, h, refl, refl, refl, refl, refl, refl, refl, refl, refl)
