-- ===== src/Layout/Security.antt =====
-- The tab "Security": frontend/src/components/settings/SecurityTab.tsx. Its two calls of the back end are
-- awaited together; what came of each is an argument.
use pair_admin.Base.{
  ◌≡◌, Bool, true, false, not, ◌&&◌, Option, some, [], ◌++◌, Text, codes, if◌then◌else◌, is_truthy,
  arith,
}
use pair_admin.Config.{ConfigValue, text, as_bool}

pub record SecurityTab : Type 0 where
  pub checking : Bool
  pub has_master_password : Bool
  pub change_open : Bool
  pub rae_checking : Bool
  pub rae_username : Text
  pub cancelled : Bool

abbrev pub initial : SecurityTab
initial = record {
  checking = true;
  has_master_password = false;
  change_open = false;
  rae_checking = true;
  rae_username = [];
  cancelled = false;
}

-- The button and the dialog's `onClose`.
unfoldable pub set_change_open : Bool → SecurityTab → SecurityTab
set_change_open is_open t = record t { change_open = is_open }

pub data CallResult : Type 0 where
  resolved : Option ConfigValue → CallResult
  rejected : CallResult

-- `typeof name === "string" ? name : ""`
abbrev username_of : Option ConfigValue → Text
username_of (some (text t)) = t
username_of _ = []

-- The handlers after `Promise.all`, which is rejected if one of the two is.
abbrev with_answers : CallResult → CallResult → SecurityTab → SecurityTab
with_answers (resolved has) (resolved name) t = record t {
  has_master_password = as_bool has;
  rae_username = username_of name;
}
with_answers _ _ t = record t { has_master_password = false; rae_username = [] }

abbrev pub finished : SecurityTab → SecurityTab
finished t = record t { checking = false; rae_checking = false }

unfoldable pub status_loaded : CallResult → CallResult → SecurityTab → SecurityTab
status_loaded has name t = if t.cancelled then t else finished (with_answers has name t)

unfoldable pub rae_caption : SecurityTab → Text
rae_caption t =
    codes "Registered Accountable Entity (RAE): "
    ++ (if t.rae_checking
        then codes "resolving…"
        else if is_truthy t.rae_username
        then t.rae_username ++ codes " - declared, unverified (L0)"
        else codes "unknown")

pub data PasswordCaption : Type 0 where
  checking_keychain encrypted_on_disk none_configured : PasswordCaption

unfoldable pub password_caption : SecurityTab → PasswordCaption
password_caption t =
    if t.checking
    then checking_keychain
    else if t.has_master_password
    then encrypted_on_disk
    else none_configured

-- Whether the button that changes the password is there.
unfoldable pub can_change : SecurityTab → Bool
can_change t = not t.checking && t.has_master_password

abbrev pub holds : CallResult → Bool
holds (resolved v) = as_bool v
holds rejected = false

abbrev is_resolved : CallResult → Bool
is_resolved (resolved v) = true
is_resolved rejected = false

-- Whichever way the two calls come out, a tab that is still open ends both of its checks. It says that
-- the credentials are encrypted, and offers to change the password, exactly if there is a password and
-- the name of the account has been found too: without the name it says that no password is configured,
-- even if there is one.
pub status_loaded_lem :
    (has name : CallResult) (t : SecurityTab)
    → t.cancelled ≡ false
    → let u = status_loaded has name t in
      let known = holds has && is_resolved name in
      (u.checking ≡ false)
      × (u.rae_checking ≡ false)
      × (can_change u ≡ known)
      × (password_caption u ≡ (if known then encrypted_on_disk else none_configured))
unfolding status_loaded can_change password_caption
status_loaded_lem (resolved v) (resolved n) t h = ground arith
status_loaded_lem (resolved v) rejected t h = ground arith
status_loaded_lem rejected (resolved n) t h = ground arith
status_loaded_lem rejected rejected t h = ground arith
