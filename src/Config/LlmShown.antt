-- ===== src/Config/LlmShown.antt =====
-- What the tab "LLM" shows against what it does.
use pair_admin.Base.{
  ℕ, nat_eq, ◌∙◌, ◌≡◌, refl, Bool, true, false, not, ◌&&◌, ◌||◌, Option, some, [], ◌∷◌, ◌++◌, Text,
  codes, ◌==◌, any, any-append, is_truthy, trim, to_lower, includes, arith, eq_refl, alerts,
  has_field, is_alert, Widget, when, choice,
}
use pair_admin.Settings.{SettingsState}
use pair_admin.Config.Llm.{
  LlmTab, SaveOutcome, handle_save, LlmCall, save_api_key, key_calls, qualified, set_model,
  probe_llm_connection,
}
use pair_admin.Config.Loopback.{is_remote_ollama, dotted, is_loopback_host-dotted}
use pair_admin.Config.LlmView.{
  Action, edit, choose_provider, type_key, view, provider_options, is_disabled, model_fields,
  server_fields, key_fields, test_buttons, save_button, remote_alert,
}

any-view :
    (p : Widget Action → Bool) (r : Bool) (t : LlmTab)
    → any p (view r t) ≡ (
        any p (choice (codes "Provider") (provider_options t.providers) ∷ [])
        || (any p (when (not (is_disabled t)) (model_fields t))
            || (any p (server_fields r t)
                || (any p (key_fields t)
                    || (any p (when (not (is_disabled t)) (test_buttons t))
                        || any p (save_button t))))))
unfolding view
any-view p r t =
    let models = when (not (is_disabled t)) (model_fields t) in
    let tests = when (not (is_disabled t)) (test_buttons t) in
    rw
      (
        any-append p (choice (codes "Provider") (provider_options t.providers) ∷ [])
            (models ++ (server_fields r t ++ (key_fields t ++ (tests ++ save_button t)))),
        any-append p models (server_fields r t ++ (key_fields t ++ (tests ++ save_button t))),
        any-append p (server_fields r t) (key_fields t ++ (tests ++ save_button t)),
        any-append p (key_fields t) (tests ++ save_button t),
        any-append p tests (save_button t),
      )
      refl

server-alert :
    (r : Bool) (t : LlmTab)
    → t.provider ≡ codes "ollama"
    → alerts remote_alert (server_fields r t) ≡ r
unfolding server_fields ◌==◌
server-alert true t h = rw h refl
server-alert false t h = rw h refl

is_remote_ollama-dotted :
    (hostname_of : Text → Option Text) (t : LlmTab) (a b c d : ℕ)
    → t.provider ≡ codes "ollama"
    → is_truthy (trim t.ollama_host) ≡ true
    → hostname_of (to_lower (trim t.ollama_host)) ≡ some (dotted a b c d)
    → is_remote_ollama hostname_of t ≡ not (nat_eq a 127)
unfolding is_remote_ollama ◌==◌
is_remote_ollama-dotted hostname_of t a b c d p set h =
    rw (p, set, is_loopback_host-dotted hostname_of t.ollama_host a b c d set h) refl

-- The server of Ollama is set by a URL for which the parser gives the host name a.b.c.d, four numbers in
-- decimal. Below the URL the warning that terminal output leaves the machine shows exactly if a is not 127:
-- for each address of another machine, and for none of the addresses 127.b.c.d of this one. The tab as a
-- whole shows it too unless a is 127.
pub address_warned :
    (hostname_of : Text → Option Text) (t : LlmTab) (a b c d : ℕ)
    → t.provider ≡ codes "ollama"
    → is_truthy (trim t.ollama_host) ≡ true
    → hostname_of (to_lower (trim t.ollama_host)) ≡ some (dotted a b c d)
    → let r = is_remote_ollama hostname_of t in
      (alerts remote_alert (server_fields r t) ≡ not (nat_eq a 127))
      × ((alerts remote_alert (view r t) || nat_eq a 127) ≡ true)
address_warned hostname_of t a b c d p set h =
    let r = is_remote_ollama hostname_of t in
    let remote = is_remote_ollama-dotted hostname_of t a b c d p set h in
    let below = server-alert r t p in
    (below ∙ remote, ground (arith, any-view (is_alert remote_alert) r t, below, remote))

abbrev pub stores_key : Text → Text → LlmCall → Bool
stores_key provider key (save_api_key p k) = p == provider && k == key
stores_key provider key _ = false

-- A key is typed in for one provider, and another one that is not "Disable Pair LLM" is chosen: as long as
-- the status of its key has not come in, Save stores the key for that other provider, whether the calls
-- behind it come out well or not.
pub key_moves :
    (key provider : Text) (o : SaveOutcome) (t : LlmTab) (s : SettingsState)
    → is_truthy key ≡ true
    → (provider == codes "disabled") ≡ false
    → includes t.model (codes "\\") ≡ false
    → o.settings_saved ≡ true
    → let t' = edit (choose_provider provider) (edit (type_key key) t) in
      any (stores_key provider key) (handle_save o t' s).calls ≡ true
unfolding handle_save edit
key_moves key provider o t s k p m saved =
    let t' = record t { provider = provider; model_open = false; api_key = key } in
    ground (
      arith,
      eq_refl provider,
      eq_refl key,
      any-append (stores_key provider key) (key_calls t') (set_model (qualified t') ∷ []),
      any-append (stores_key provider key) (key_calls t')
          (set_model (qualified t') ∷ probe_llm_connection ∷ []),
    )

-- For LM Studio no field of a key is on display then.
pub key_hidden :
    (key : Text) (t : LlmTab)
    → let t' = edit (choose_provider (codes "lmstudio")) (edit (type_key key) t) in
      (has_field (codes "API Key") (key_fields t')
        || has_field (codes "Ollama API key") (key_fields t'))
      ≡ false
unfolding key_fields edit ◌==◌
key_hidden key t = refl
