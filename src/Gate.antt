-- ===== src/Gate.antt =====
-- The startup gate of frontend/src/App.tsx with its dialog,
-- frontend/src/components/settings/MasterPasswordDialog.tsx, and the change of the master password in
-- frontend/src/components/settings/ChangeMasterPasswordDialog.tsx. The calls of the back end are returned
-- by the handlers; their answers are events, with `none` for a call that throws.
pub mod Events
pub mod Passed
pub mod Change
pub mod Tests
use pair_admin.Base.{
  ℕ, ◌+◌, ◌-◌, Bool, true, false, not, ◌&&◌, ◌||◌, Option, none, some, List, [], ◌∷◌, Text, codes,
  ◌==◌, if◌then◌else◌, is_truthy,
}
use pair_admin.Scanner.{Rejection}
use pair_admin.Connect.{wails_error_message}

pub data StartupGate : Type 0 where
  checking password ready : StartupGate

pub data GateMode : Type 0 where
  set unlock : GateMode

pub record MasterPasswordDialog : Type 0 where
  pub password : Text
  pub confirm : Text
  pub pending : Bool
  pub error : Text
  pub retrying : Bool
  pub retry_message : Text

abbrev empty_dialog : MasterPasswordDialog
empty_dialog = record {
  password = [];
  confirm = [];
  pending = false;
  error = [];
  retrying = false;
  retry_message = [];
}

-- What is awaited: the two questions of the mount, the call of a submission, the one of a retry, and how
-- many calls of `LoadAPIKeys`, of which the one of a retry is told apart.
pub record GateState : Type 0 where
  pub gate : StartupGate
  pub gate_mode : GateMode
  pub dialog : MasterPasswordDialog
  pub asks_needs : Bool
  pub asks_has : Bool
  pub asks_retry : Bool
  pub loads : ℕ
  pub loads_for_retry : Bool

pub data GateCall : Type 0 where
  needs_master_password has_master_password load_api_keys : GateCall
  set_master_password : Text → GateCall
  verify_master_password : Text → GateCall

-- At the mount, with the first question asked.
abbrev pub initial : GateState
initial = record {
  gate = checking;
  gate_mode = unlock;
  dialog = empty_dialog;
  asks_needs = true;
  asks_has = false;
  asks_retry = false;
  loads = 0;
  loads_for_retry = false;
}

unfoldable pub load_and_proceed : GateState → GateState × List GateCall
load_and_proceed s = (record s { loads = s.loads + 1 }, load_api_keys ∷ [])

-- `LoadAPIKeys` has come to an end, whichever.
unfoldable pub keys_loaded : GateState → GateState
keys_loaded s = record s { loads = s.loads - 1; gate = ready }

-- The effect of the mount, behind its first await and behind its second.
unfoldable pub needs_answered : Option Bool → GateState → GateState × List GateCall
needs_answered none s = (record s { asks_needs = false; gate = ready }, [])
needs_answered (some needs) s =
    let s' = record s { asks_needs = false } in
    if not needs
    then load_and_proceed s'
    else (record s' { asks_has = true }, has_master_password ∷ [])

unfoldable pub has_answered : Option Bool → GateState → GateState
has_answered none s = record s { asks_has = false; gate = ready }
has_answered (some has) s = record s {
  asks_has = false;
  gate_mode = if has then unlock else set;
  gate = password;
}

abbrev is_set : GateMode → Bool
is_set set = true
is_set unlock = false

abbrev with_error : Text → GateState → GateState
with_error message s = let d = s.dialog in record s { dialog = record d { error = message } }

abbrev submit_call : GateState → GateCall
submit_call s =
    let d = s.dialog in
    if is_set s.gate_mode then set_master_password d.password else verify_master_password d.password

unfoldable pub handle_submit : GateState → GateState × List GateCall
handle_submit s =
    let d = s.dialog in
    if d.pending
    then (s, [])
    else if not (is_truthy d.password)
    then (with_error (codes "Master password must not be empty.") s, [])
    else if is_set s.gate_mode && not (d.password == d.confirm)
    then (with_error (codes "Passwords do not match.") s, [])
    else (record s { dialog = record d { error = []; pending = true } }, submit_call s ∷ [])

abbrev refused : Text → GateState → GateState
refused message s =
    let d = s.dialog in record s { dialog = record d { pending = false; error = message } }

-- `reset` and `onSuccess`
abbrev accepted : GateState → GateState × List GateCall
accepted s = load_and_proceed (record s { dialog = empty_dialog })

-- What the call of a submission comes to: `SetMasterPassword` returns, `VerifyMasterPassword` says
-- whether, or it throws.
pub data SubmitAnswer : Type 0 where
  was_set : SubmitAnswer
  was_verified : Bool → SubmitAnswer
  was_rejected : Rejection → SubmitAnswer

unfoldable pub submit_answered : SubmitAnswer → GateState → GateState × List GateCall
submit_answered was_set s = accepted s
submit_answered (was_verified ok) s =
    if ok then accepted s else (refused (codes "Incorrect master password.") s, [])
submit_answered (was_rejected err) s =
    (refused (wails_error_message err (codes "Failed to set the master password")) s, [])

unfoldable pub handle_retry_os_keychain : GateState → GateState × List GateCall
handle_retry_os_keychain s =
    let d = s.dialog in
    if d.retrying || d.pending then (s, []) else (
      record s { dialog = record d { retrying = true; retry_message = [] }; asks_retry = true },
      needs_master_password ∷ [],
    )

abbrev still_needed : GateState → GateState
still_needed s =
    let d = s.dialog in
    record s {
      dialog = record d {
        retrying = false;
        retry_message =
            codes "No OS keychain detected — set or unlock a master password, or retry.";
      };
    }

-- The answer to a retry, in which a call that throws counts as still needed.
unfoldable pub retry_answered : Option Bool → GateState → GateState × List GateCall
retry_answered none s = (still_needed (record s { asks_retry = false }), [])
retry_answered (some needs) s =
    let s' = record s { asks_retry = false } in
    if needs then (still_needed s', []) else load_and_proceed (record s' { loads_for_retry = true })

-- The rest of a retry that has loaded the keys.
unfoldable pub retry_ended : GateState → GateState
retry_ended s =
    let d = s.dialog in record s { dialog = record d { retrying = false }; loads_for_retry = false }
