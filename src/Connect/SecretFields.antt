-- ===== src/Connect/SecretFields.antt =====
-- The three secrets of the form: the field of each, and what is sent of it.
use pair_admin.Base.{
  ◌≡◌, refl, Bool, true, List, [], ◌∷◌, ◌++◌, Text, arith, codes, ◌==◌, fields_of, fields_of-append,
  if◌then◌else◌, leb, length, map, Bool-cases, inl, inr, append-nil, ap,
}
use pair_admin.Terminal.{AuthType}
use pair_admin.Connect.{
  ConnectRemoteParams, OpenRequest, is_ssh, is_password, is_private_key, open_request,
}
use pair_admin.Connect.Dialog.{Dialog, connect_params, edit_form}
use pair_admin.Connect.Fields.{
  Action, edit, address_fields, auth_fields, save_fields, transport_fields, messages, form_buttons,
  form_step,
}
use pair_admin.Connect.Screen.{Screen, press}

pub data Secret : Type 0 where
  password passphrase key_path : Secret

abbrev pub label : Secret → Text
label password = codes "Password"
label passphrase = codes "Passphrase (optional)"
label key_path = codes "Private key file path"

abbrev pub sent : Secret → OpenRequest → Text
sent password r = r.password
sent passphrase r = r.passphrase
sent key_path r = r.private_key_path

-- The secret in the form, the form with another one, and whether the authentication needs it.
abbrev held : Secret → ConnectRemoteParams → Text
held password f = f.password
held passphrase f = f.passphrase
held key_path f = f.private_key_path

abbrev with_secret : Secret → ConnectRemoteParams → Text → ConnectRemoteParams
with_secret password f t = record f { password = t }
with_secret passphrase f t = record f { passphrase = t }
with_secret key_path f t = record f { private_key_path = t }

abbrev is_needed : Secret → AuthType → Bool
is_needed password a = is_password a
is_needed passphrase a = is_private_key a
is_needed key_path a = is_private_key a

no-address : (x : Secret) (f : ConnectRemoteParams) → fields_of (label x) (address_fields f) ≡ []
unfolding address_fields ◌==◌
no-address password f = refl
no-address passphrase f = refl
no-address key_path f = refl

no-save : (x : Secret) (f : ConnectRemoteParams) → fields_of (label x) (save_fields f) ≡ []
unfolding save_fields ◌==◌
no-save password f = ground arith
no-save passphrase f = ground arith
no-save key_path f = ground arith

no-transport :
    (x : Secret) (b : Bool) (f : ConnectRemoteParams)
    → fields_of (label x) (transport_fields b f) ≡ []
unfolding transport_fields ◌==◌
no-transport x b f = ground arith

no-messages : (x : Secret) (d : Dialog) → fields_of (label x) (messages d) ≡ []
unfolding messages
no-messages x d = ground arith

no-buttons : (x : Secret) (d : Dialog) → fields_of (label x) (form_buttons d) ≡ []
unfolding form_buttons
no-buttons x d = refl

fields-auth :
    (x : Secret) (f : ConnectRemoteParams)
    → is_ssh f.kind ≡ true
    → fields_of (label x) (auth_fields f)
      ≡ (if is_needed x f.auth_type then (held x f, λ t. edit (with_secret x f t)) ∷ [] else [])
unfolding auth_fields ◌==◌
fields-auth password f h = ground arith
fields-auth passphrase f h = ground arith
fields-auth key_path f h = ground arith

-- The fields of a secret in the form of an SSH connection.
fields-form_step :
    (x : Secret) (d : Dialog)
    → is_ssh d.form.kind ≡ true
    → fields_of (label x) (form_step d) ≡ (
        if is_needed x d.form.auth_type
        then (held x d.form, λ t. edit (with_secret x d.form t)) ∷ []
        else [])
unfolding form_step
fields-form_step x d h =
    let f = d.form in
    let l = label x in
    let transport = transport_fields d.prompt_new_host_keys f in
    rw
      (
        fields_of-append l (address_fields f)
            (auth_fields f ++ (save_fields f ++ (transport ++ (messages d ++ form_buttons d)))),
        fields_of-append l (auth_fields f)
            (save_fields f ++ (transport ++ (messages d ++ form_buttons d))),
        fields_of-append l (save_fields f) (transport ++ (messages d ++ form_buttons d)),
        fields_of-append l transport (messages d ++ form_buttons d),
        fields_of-append l (messages d) (form_buttons d),
        no-address x f,
        no-save x f,
        no-transport x d.prompt_new_host_keys f,
        no-messages x d,
        no-buttons x d,
        append-nil,
      )
      (fields-auth x f h)

sent-needed :
    (x : Secret) (d : Dialog)
    → sent x (open_request (connect_params d))
      ≡ (if is_needed x d.form.auth_type then held x d.form else [])
unfolding open_request
sent-needed password d = refl
sent-needed passphrase d = refl
sent-needed key_path d = refl

sent-typed :
    (x : Secret) (id t : Text) (s : Screen)
    → is_needed x s.dialog.form.auth_type ≡ true
    → sent x
        (open_request (connect_params (press id (edit (with_secret x s.dialog.form t)) s).0.dialog))
      ≡ t
unfolding press edit_form open_request
sent-typed password id t s h = rw h refl
sent-typed passphrase id t s h = rw h refl
sent-typed key_path id t s h = rw h refl

-- The text in the field, and none without a field.
abbrev pub text_in : List (Text × (Text → Action)) → Text
text_in [] = []
text_in ((value, f) ∷ fs) = value

-- In the form of an SSH connection each of the three secrets has one field on display or none. What
-- the button sends for it is exactly the text that its field shows, and nothing without a field, whatever
-- was typed before; and once any other text is typed into the field, that is what is sent.
pub ssh_sends_shown :
    (x : Secret) (id t : Text) (s : Screen)
    → is_ssh s.dialog.form.kind ≡ true
    → let fs = fields_of (label x) (form_step s.dialog) in
      (leb (length fs) 1 ≡ true)
      × (sent x (open_request (connect_params s.dialog)) ≡ text_in fs)
      × (map
            (λ ((value, f) : Text × (Text → Action)).
              sent x (open_request (connect_params (press id (f t) s).0.dialog)))
            fs
          ≡ map (λ ((value, f) : Text × (Text → Action)). t) fs)
ssh_sends_shown x id t s ssh = elim (Bool-cases (is_needed x s.dialog.form.auth_type)) [
  | inl needed ↦
      rw (fields-form_step x s.dialog ssh, needed)
        (
          refl,
          rw (sent-needed x s.dialog, needed) refl,
          ap (λ v. v ∷ []) (sent-typed x id t s needed),
        )
  | inr other ↦
      rw (fields-form_step x s.dialog ssh, other)
        (refl, rw (sent-needed x s.dialog, other) refl, refl)
]
