-- ===== src/Connect/Secrets.antt =====
-- What becomes of the password and the passphrase.
use pair_admin.Base.{◌≡◌, refl, Option, Text, arith}
use pair_admin.Terminal.{TerminalState}
use pair_admin.Connect.{ConnectRemoteParams, SaveOutcome, connected, save_call, is_touch}

-- The same connection with other secrets.
abbrev pub with_secrets : Text → Text → ConnectRemoteParams → ConnectRemoteParams
with_secrets password passphrase p = record p { password = password; passphrase = passphrase }

is_touch-secrets :
    (password passphrase : Text) (p : ConnectRemoteParams)
    → is_touch (save_call (with_secrets password passphrase p)) ≡ is_touch (save_call p)
unfolding save_call
is_touch-secrets password passphrase p = ground arith

-- No secret reaches the tab: with any other password and passphrase the terminal store, the warning and
-- the closing of the dialog come out the same.
pub connected-secrets :
    {Term : Type 0} (password passphrase id : Text) (p : ConnectRemoteParams)
    (outcome : Option SaveOutcome) (s : TerminalState Term)
    → connected (with_secrets password passphrase p) id outcome s ≡ connected p id outcome s
unfolding connected
connected-secrets password passphrase id p outcome s =
    rw (is_touch-secrets password passphrase p) refl
