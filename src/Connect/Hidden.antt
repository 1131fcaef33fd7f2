-- ===== src/Connect/Hidden.antt =====
-- What the form shows against what its button sends.
use pair_admin.Base.{
  ◌≡◌, ◌∙◌, refl, Bool, true, false, not, ◌&&◌, ◌||◌, [], ◌++◌, Text, arith, any, any-append,
  alerts, has_field, codes, ◌==◌, Widget, is_alert, is_field,
}
use pair_admin.Terminal.{AuthType, TabKind}
use pair_admin.Connect.{is_ssh, is_winrm, is_password, is_private_key, open_request}
use pair_admin.Connect.Dialog.{Dialog, connect_params}
use pair_admin.Connect.Wizard.{select_kind}
use pair_admin.Connect.Fields.{
  Action, plaintext_alert, address_fields, auth_fields, save_fields, transport_fields, messages,
  form_buttons, form_step,
}

any-form_step :
    (p : Widget Action → Bool) (d : Dialog)
    → any p (form_step d) ≡ (
        any p (address_fields d.form)
        || (any p (auth_fields d.form)
            || (any p (save_fields d.form)
                || (any p (transport_fields d.prompt_new_host_keys d.form)
                    || (any p (messages d) || any p (form_buttons d))))))
unfolding form_step
any-form_step p d =
    let f = d.form in
    let transport = transport_fields d.prompt_new_host_keys f in
    rw
      (
        any-append p (address_fields f)
            (auth_fields f ++ (save_fields f ++ (transport ++ (messages d ++ form_buttons d)))),
        any-append p (auth_fields f)
            (save_fields f ++ (transport ++ (messages d ++ form_buttons d))),
        any-append p (save_fields f) (transport ++ (messages d ++ form_buttons d)),
        any-append p transport (messages d ++ form_buttons d),
        any-append p (messages d) (form_buttons d),
      )
      refl

-- The form with what was typed into its secrets.
abbrev pub typed : Text → Text → Text → Dialog → Dialog
typed password passphrase path d =
    let f = d.form in
    record d {
      form = record f { password = password; passphrase = passphrase; private_key_path = path };
    }

-- The fields of the form, by what they ask for.
has_field-form_step :
    (d : Dialog)
    → let f = d.form in
      (has_field (codes "Password") (form_step d) ≡ (is_winrm f.kind || is_password f.auth_type))
      × (has_field (codes "Passphrase (optional)") (form_step d)
          ≡ (is_ssh f.kind && is_private_key f.auth_type))
      × (has_field (codes "Private key file path") (form_step d)
          ≡ (is_ssh f.kind && is_private_key f.auth_type))
unfolding address_fields auth_fields save_fields transport_fields messages form_buttons ◌==◌
has_field-form_step d = (
  any-form_step (is_field (codes "Password")) d ∙ ground arith,
  any-form_step (is_field (codes "Passphrase (optional)")) d ∙ ground arith,
  any-form_step (is_field (codes "Private key file path")) d ∙ ground arith,
)

-- With a private key chosen for SSH before, the form of WinRM shows the field of the password and not
-- those of the key and its passphrase, while its button sends the latter two and no password.
pub winrm_sends_hidden :
    (id : Text) (d : Dialog) (password passphrase path : Text)
    → d.form.auth_type ≡ AuthType.privatekey
    → let d' = typed password passphrase path (select_kind id TabKind.winrm d).0 in
      let r = open_request (connect_params d') in
      let ws = form_step d' in
      (has_field (codes "Password") ws ≡ true)
      × (r.password ≡ [])
      × (has_field (codes "Passphrase (optional)") ws ≡ false)
      × (r.passphrase ≡ passphrase)
      × (has_field (codes "Private key file path") ws ≡ false)
      × (r.private_key_path ≡ path)
unfolding open_request select_kind
winrm_sends_hidden id d password passphrase path h =
    let d' = typed password passphrase path (select_kind id TabKind.winrm d).0 in
    let shown = has_field-form_step d' in ground (arith, shown)

-- A WinRM connection from the form without TLS is always announced beside its button; no other connection
-- is.
pub plaintext_announced :
    (d : Dialog)
    → let r = open_request (connect_params d) in
      let plaintext = is_winrm r.kind && not r.use_tls in
      (alerts plaintext_alert (transport_fields d.prompt_new_host_keys d.form) ≡ plaintext)
      × ((alerts plaintext_alert (form_step d) || not plaintext) ≡ true)
unfolding open_request transport_fields ◌==◌
plaintext_announced d = ground (arith, any-form_step (is_alert plaintext_alert) d)
