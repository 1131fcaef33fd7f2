-- ===== src/Connect/Consent.antt =====
-- The consent to a new host key: what is on display when it is given.
use pair_admin.Base.{
  ℕ, ◌≡◌, refl, sym, ap, subst, inl, inr, true, false, Option, none, some, List, [], ◌∷◌, Text,
  arith, Offered, Offered-append_not, Offered-when, Bool-cases, Offered-when_not, ltb, button,
  Widget, words, eq_refl, codes, length, when, shows, take,
}
use pair_admin.Connect.Dialog.{Dialog, Step, ConnectStatus, HostKeyConfirmState}
use pair_admin.Connect.Wizard.{RemoteHostStatus}
use pair_admin.Connect.Fields.{
  Action, address, host_key_text, host_key_buttons, accept_key, go_back, messages, host_key_step,
  form_step, address_fields, auth_fields, save_fields, transport_fields, form_buttons,
}
use pair_admin.Connect.Recent.{
  paged_recent_hosts, filtered_recent_hosts, recent_all_page_count, clamped_recent_page,
}
use pair_admin.Connect.Screen.{
  Screen, recent_inline_cap, page_buttons, rows_or_none, host_key_shown, step_shown, recent_part,
  render_host_row, host_rows, type_step, recent_all_step, view,
}

no_accept-row :
    (status : ConnectStatus) (st : RemoteHostStatus)
    → ¬ Offered accept_key (render_host_row status st)
unfolding render_host_row
no_accept-row status st h = ground arith

no_accept-rows :
    (status : ConnectStatus) (sts : List RemoteHostStatus)
    → ¬ Offered accept_key (host_rows status sts)
unfolding host_rows
no_accept-rows status [] = λ h. h
no_accept-rows status (st ∷ sts) =
    Offered-append_not accept_key (render_host_row status st) (host_rows status sts)
      (no_accept-row status st) (no_accept-rows status sts)

no_accept-messages : (d : Dialog) → ¬ Offered accept_key (messages d)
unfolding messages
no_accept-messages d h = ground arith

no_accept-form : (d : Dialog) → ¬ Offered accept_key (form_step d)
unfolding form_step address_fields auth_fields save_fields transport_fields form_buttons messages
no_accept-form d h = ground arith

no_accept-recent :
    (n : ℕ) (status : ConnectStatus) (sts : List RemoteHostStatus)
    → ¬ Offered accept_key (recent_part n status sts)
unfolding recent_part
no_accept-recent n status sts =
    Offered-append_not accept_key (words (codes "Recent") ∷ host_rows status sts) _
      (λ h. elim h [ inl k ↦ k | inr k ↦ no_accept-rows status sts k ]) (λ h. ground arith)

no_accept-type : (s : Screen) → ¬ Offered accept_key (type_step s)
unfolding type_step
no_accept-type s =
    let n = length s.recent_hosts in
    let first = take recent_inline_cap s.recent_hosts in
    let tail =
      Offered-append_not accept_key _ (messages s.dialog)
        (Offered-when_not accept_key (ltb 0 n) _ (no_accept-recent n s.dialog.connect_status first))
        (no_accept-messages s.dialog) in
    λ h. ground (arith, tail)

no_accept-rows_or_none :
    (query : Text) (status : ConnectStatus) (sts : List RemoteHostStatus)
    → ¬ Offered accept_key (rows_or_none query status sts)
no_accept-rows_or_none query status [] = λ h. ground arith
no_accept-rows_or_none query status (st ∷ sts) = no_accept-rows status (st ∷ sts)

no_accept-pages : (page count : ℕ) → ¬ Offered accept_key (page_buttons page count)
no_accept-pages page count h = ground arith

no_accept-back : ¬ Offered accept_key (button (codes "Back") false go_back ∷ [])
no_accept-back h = ground arith

no_accept-recent_all : (s : Screen) → ¬ Offered accept_key (recent_all_step s)
unfolding recent_all_step
no_accept-recent_all s =
    let n = length (filtered_recent_hosts s.recent_search s.recent_hosts) in
    let count = recent_all_page_count n in
    let tail =
      Offered-append_not accept_key _ _
        (no_accept-rows_or_none s.recent_search s.dialog.connect_status
          (paged_recent_hosts s.recent_search s.recent_page s.recent_hosts))
        (Offered-append_not accept_key _ _
          (Offered-when_not accept_key (ltb 1 count)
            (page_buttons (clamped_recent_page s.recent_page n) count)
            (no_accept-pages (clamped_recent_page s.recent_page n) count))
          (Offered-append_not accept_key (messages s.dialog)
            (button (codes "Back") false go_back ∷ []) (no_accept-messages s.dialog)
            no_accept-back)) in
    λ h. ground (arith, tail)

no_accept-changed :
    (c : HostKeyConfirmState) (d : Dialog)
    → c.changed ≡ true
    → ¬ Offered accept_key (host_key_step c d)
unfolding host_key_step
no_accept-changed c d e =
    Offered-append_not accept_key (host_key_text c) _ (λ h. ground arith)
      (Offered-append_not accept_key (messages d) (host_key_buttons c d) (no_accept-messages d)
        (λ h. ground arith))

host_key_step-shows :
    (c : HostKeyConfirmState) (d : Dialog)
    → (shows c.fingerprint (host_key_step c d) ≡ true)
      × (shows c.key_type (host_key_step c d) ≡ true)
      × (shows (address c) (host_key_step c d) ≡ true)
unfolding host_key_step
host_key_step-shows c d =
    ground (arith, eq_refl c.fingerprint, eq_refl c.key_type, eq_refl (address c))

-- The key on display: all that is said of it is said of this host, and it is no changed one.
abbrev IsAsked : HostKeyConfirmState → Option HostKeyConfirmState → List (Widget Action) → Type 0
IsAsked c confirm ws =
    (confirm ≡ some c)
    × (c.changed ≡ false)
    × (shows c.fingerprint ws ≡ true)
    × (shows c.key_type ws ≡ true)
    × (shows (address c) ws ≡ true)

host_key_shown-IsAsked :
    (confirm : Option HostKeyConfirmState) (d : Dialog)
    → Offered accept_key (host_key_shown confirm d)
    → (c : HostKeyConfirmState) × IsAsked c confirm (host_key_shown confirm d)
host_key_shown-IsAsked none d h = absurd h
host_key_shown-IsAsked (some c) d h = elim (Bool-cases c.changed) [
  | inl e ↦ absurd (no_accept-changed c d e h)
  | inr e ↦ let (f, k, a) = host_key_step-shows c d in (c, (refl, e, f, k, a))
]

step_shown-IsAsked :
    (st : Step) (s : Screen)
    → Offered accept_key (step_shown st s)
    → (c : HostKeyConfirmState) × IsAsked c s.dialog.host_key_confirm (step_shown st s)
step_shown-IsAsked Step.type s h = absurd (no_accept-type s h)
step_shown-IsAsked Step.recent_all s h = absurd (no_accept-recent_all s h)
step_shown-IsAsked Step.host_key_confirm s h =
    host_key_shown-IsAsked s.dialog.host_key_confirm s.dialog h
step_shown-IsAsked Step.form s h = absurd (no_accept-form s.dialog h)

-- The consent is offered only beside the key that it is for.
pub view-IsAsked :
    (s : Screen)
    → Offered accept_key (view s)
    → (c : HostKeyConfirmState) × IsAsked c s.dialog.host_key_confirm (view s)
unfolding view
view-IsAsked s h =
    let (is_open, offered) = Offered-when accept_key s.is_open (step_shown s.dialog.step s) h in
    let shown = step_shown s.dialog.step s in
    let same : view s ≡ shown = ap (λ b. when b shown) is_open in
    let (c, asked) = step_shown-IsAsked s.dialog.step s offered in
    (c, subst (IsAsked c s.dialog.host_key_confirm) (sym same) asked)
