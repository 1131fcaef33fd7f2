-- ===== src/Gate/Change.antt =====
-- The change of the master password: frontend/src/components/settings/ChangeMasterPasswordDialog.tsx.
use pair_admin.Base.{
  ◌≡◌, refl, ◌↔◌, Bool, true, false, not, ◌&&◌, Option, none, some, List, [], ◌∷◌, Text, codes,
  ◌==◌, arith, if◌then◌else◌, is_truthy, any, Bool-cases, inl, inr, eq_refl,
}
use pair_admin.Scanner.{Rejection}
use pair_admin.Connect.{wails_error_message}

pub record ChangeDialog : Type 0 where
  pub current : Text
  pub next : Text
  pub confirm : Text
  pub pending : Bool
  pub error : Text
  pub done : Bool

-- The effect that runs when the dialog opens.
abbrev pub opened : ChangeDialog
opened = record { current = []; next = []; confirm = []; pending = false; error = []; done = false }

-- The two passwords that `ChangeMasterPassword` is called with, if it is.
unfoldable pub handle_submit : ChangeDialog → ChangeDialog × Option (Text × Text)
handle_submit d =
    if d.pending
    then (d, none)
    else if not (is_truthy d.next)
    then (record d { error = codes "New master password must not be empty." }, none)
    else if not (d.next == d.confirm)
    then (record d { error = codes "New passwords do not match." }, none)
    else (record d { error = []; pending = true }, some (d.current, d.next))

-- `none` for a change that was made.
unfoldable pub change_answered : Option Rejection → ChangeDialog → ChangeDialog
change_answered none d = record d { pending = false; done = true }
change_answered (some err) d = record d {
  pending = false;
  error = wails_error_message err (codes "Failed to change the master password");
}

-- The fields are disabled while a change is under way. An answer comes whenever the call ends, also after the
-- dialog was closed and opened anew.
pub data Event : Type 0 where
  opens submits : Event
  types : (current next confirm : Text) → Event
  answered : Option Rejection → Event

unfoldable pub on_event : Event → ChangeDialog → ChangeDialog
on_event opens d = opened
on_event submits d = (handle_submit d).0
on_event (types c n k) d = if d.pending then d else record d { current = c; next = n; confirm = k }
on_event (answered outcome) d = change_answered outcome d

unfoldable pub run : List Event → ChangeDialog → ChangeDialog
run [] d = d
run (e ∷ es) d = run es (on_event e d)

-- The back end is asked for a change exactly if none is under way and the new password is not empty and
-- was typed twice alike, and then with what was typed.
pub handle_submit-call :
    (d : ChangeDialog)
    → ((handle_submit d).1 ≡ some (d.current, d.next))
      ↔ ((not d.pending && (is_truthy d.next && d.next == d.confirm)) ≡ true)
unfolding handle_submit
handle_submit-call d = ground arith

-- The answer says that the change was made.
abbrev pub is_made : Event → Bool
is_made (answered none) = true
is_made _ = false

on_event-done :
    (e : Event) (d : ChangeDialog)
    → is_made e ≡ false
    → d.done ≡ false
    → (on_event e d).done ≡ false
unfolding on_event handle_submit change_answered
on_event-done opens d h k = refl
on_event-done submits d h k = ground arith
on_event-done (types c n q) d h k = ground arith
on_event-done (answered none) d h k = absurd (ground arith)
on_event-done (answered (some err)) d h k = k

run-done :
    (es : List Event) (d : ChangeDialog)
    → any is_made es ≡ false
    → d.done ≡ false
    → (run es d).done ≡ false
unfolding run
run-done [] d h k = k
run-done (e ∷ es) d h k =
    run-done es (on_event e d) (ground arith) (on_event-done e d (ground arith) k)

-- The dialog says that the password was changed only after the back end has said so.
pub done_lem : (es : List Event) → (run es opened).done ≡ true → any is_made es ≡ true
done_lem es h = elim (Bool-cases (any is_made es)) [
  | inl made ↦ made
  | inr none_yet ↦ let unmade = run-done es opened none_yet refl in absurd (ground arith)
]

-- The answer to a change of the session before: a dialog that was closed and opened anew meanwhile, and in
-- which nothing was typed, says that the password was changed, or why it was not.
pub late_answer :
    (c n : Text) (outcome : Option Rejection)
    → is_truthy n ≡ true
    → let d = run (types c n n ∷ submits ∷ opens ∷ answered outcome ∷ []) opened in
      ((handle_submit (on_event (types c n n) opened)).1 ≡ some (c, n))
      × (d.current ≡ [])
      × (d.next ≡ [])
      × (d ≡ change_answered outcome opened)
unfolding run on_event handle_submit change_answered
late_answer c n none h = rw (h, eq_refl n) (refl, refl, refl, refl)
late_answer c n (some err) h = rw (h, eq_refl n) (refl, refl, refl, refl)
