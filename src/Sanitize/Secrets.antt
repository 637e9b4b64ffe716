-- ===== src/Sanitize/Secrets.antt =====
-- What a preview shows does not depend on a secret.
use kswitch.Prelude.{
  Text, ◌≡◌, refl, sym, ap, ◌∙◌, true, false, Bool-cases, inl, inr, Option, none, some, List, [],
  ◌∷◌, map,
}
use kswitch.Prelude.Dict.{Dict}
use kswitch.Sanitize.{
  AuthProvider, EnvMap, ExecProvider, User, redacted_value, is_safe_key, redact_config,
  redact_auth_provider, redact_exec_provider, redact_user_credentials,
}

-- Two configurations of an auth provider with the same keys, and the same values of the safe ones.
abbrev pub IsLikeConfig : Dict Text → Dict Text → Type 0
IsLikeConfig [] [] = Unit
IsLikeConfig [] (d ∷ ds) = ⊥
IsLikeConfig (c ∷ cs) [] = ⊥
IsLikeConfig ((k, v) ∷ cs) ((l, w) ∷ ds) =
    (k ≡ l) × (is_safe_key k ≡ true → v ≡ w) × IsLikeConfig cs ds

-- Environments with the same names.
abbrev pub IsLikeEnv : List EnvMap → List EnvMap → Type 0
IsLikeEnv [] [] = Unit
IsLikeEnv [] (d ∷ ds) = ⊥
IsLikeEnv (c ∷ cs) [] = ⊥
IsLikeEnv (c ∷ cs) (d ∷ ds) = (c.name ≡ d.name) × IsLikeEnv cs ds

abbrev pub IsAsLong : List Text → List Text → Type 0
IsAsLong [] [] = Unit
IsAsLong [] (d ∷ ds) = ⊥
IsAsLong (c ∷ cs) [] = ⊥
IsAsLong (c ∷ cs) (d ∷ ds) = IsAsLong cs ds

abbrev pub IsLikeAuth : Option AuthProvider → Option AuthProvider → Type 0
IsLikeAuth none none = Unit
IsLikeAuth none (some q) = ⊥
IsLikeAuth (some p) none = ⊥
IsLikeAuth (some p) (some q) = (p.name ≡ q.name) × IsLikeConfig p.config q.config

abbrev pub IsLikeExec : Option ExecProvider → Option ExecProvider → Type 0
IsLikeExec none none = Unit
IsLikeExec none (some q) = ⊥
IsLikeExec (some p) none = ⊥
IsLikeExec (some p) (some q) =
    (p.api_version ≡ q.api_version)
    × (p.command ≡ q.command)
    × (p.install_hint ≡ q.install_hint)
    × (p.provide_cluster_info ≡ q.provide_cluster_info)
    × IsAsLong p.args q.args
    × IsLikeEnv p.env q.env

-- Users that differ in nothing but secrets: the values of the keys that are not known to be safe, the
-- arguments of a credential plugin, and the values of its environment.
abbrev pub IsLike : List User → List User → Type 0
IsLike [] [] = Unit
IsLike [] (v ∷ vs) = ⊥
IsLike (u ∷ us) [] = ⊥
IsLike (u ∷ us) (v ∷ vs) =
    (u.name ≡ v.name)
    × IsLikeAuth u.auth_provider v.auth_provider
    × IsLikeExec u.exec_provider v.exec_provider
    × IsLike us vs

redact_config-IsLikeConfig :
    (c d : Dict Text) → IsLikeConfig c d → redact_config c ≡ redact_config d
unfolding redact_config
redact_config-IsLikeConfig [] [] h = refl
redact_config-IsLikeConfig [] (d ∷ ds) h = absurd h
redact_config-IsLikeConfig (c ∷ cs) [] h = absurd h
redact_config-IsLikeConfig ((k, v) ∷ cs) ((l, w) ∷ ds) (e, same, h) =
    elim (Bool-cases (is_safe_key k)) [
      | inl safe ↦ rw (redact_config-IsLikeConfig cs ds h, same safe, e)
      | inr secret ↦
          let secret' : is_safe_key l ≡ false = ap is_safe_key (sym e) ∙ secret in
          rw (redact_config-IsLikeConfig cs ds h, e, secret')
    ]

map-IsLikeEnv :
    (c d : List EnvMap)
    → IsLikeEnv c d
    → map (λ (e : EnvMap). record e { value = redacted_value }) c
      ≡ map (λ (e : EnvMap). record e { value = redacted_value }) d
map-IsLikeEnv [] [] h = refl
map-IsLikeEnv [] (d ∷ ds) h = absurd h
map-IsLikeEnv (c ∷ cs) [] h = absurd h
map-IsLikeEnv (c ∷ cs) (d ∷ ds) (e, h) = rw (e, map-IsLikeEnv cs ds h)

map-IsAsLong :
    (c d : List Text)
    → IsAsLong c d
    → map (λ (a : Text). redacted_value) c ≡ map (λ (a : Text). redacted_value) d
map-IsAsLong [] [] h = refl
map-IsAsLong [] (d ∷ ds) h = absurd h
map-IsAsLong (c ∷ cs) [] h = absurd h
map-IsAsLong (c ∷ cs) (d ∷ ds) h = rw (map-IsAsLong cs ds h)

redact_auth_provider-IsLikeAuth :
    (p q : Option AuthProvider) → IsLikeAuth p q → redact_auth_provider p ≡ redact_auth_provider q
unfolding redact_auth_provider
redact_auth_provider-IsLikeAuth none none h = refl
redact_auth_provider-IsLikeAuth none (some q) h = absurd h
redact_auth_provider-IsLikeAuth (some p) none h = absurd h
redact_auth_provider-IsLikeAuth (some p) (some q) (e, h) =
    ap some (λ i. record { config = redact_config-IsLikeConfig p.config q.config h i; name = e i })

redact_exec_provider-IsLikeExec :
    (p q : Option ExecProvider) → IsLikeExec p q → redact_exec_provider p ≡ redact_exec_provider q
unfolding redact_exec_provider
redact_exec_provider-IsLikeExec none none h = refl
redact_exec_provider-IsLikeExec none (some q) h = absurd h
redact_exec_provider-IsLikeExec (some p) none h = absurd h
redact_exec_provider-IsLikeExec (some p) (some q) (version, command, hint, info, args, env) =
    ap some (λ i. record {
      api_version = version i;
      args = map-IsAsLong p.args q.args args i;
      command = command i;
      env = map-IsLikeEnv p.env q.env env i;
      install_hint = hint i;
      provide_cluster_info = info i;
    })

-- Two lists of users that differ in nothing but secrets (the values of an auth provider's keys that are
-- not known to be safe, the arguments of a credential plugin and the values of its environment) are the
-- same after redaction: what is shown of a kubeconfig tells nothing about them but how many there are.
pub redact_user_credentials-IsLike :
    (us vs : List User) → IsLike us vs → redact_user_credentials us ≡ redact_user_credentials vs
unfolding redact_user_credentials
redact_user_credentials-IsLike [] [] h = refl
redact_user_credentials-IsLike [] (v ∷ vs) h = absurd h
redact_user_credentials-IsLike (u ∷ us) [] h = absurd h
redact_user_credentials-IsLike (u ∷ us) (v ∷ vs) (name, auth, exec_, h) = λ i.
    record {
      name = name i;
      auth_provider = redact_auth_provider-IsLikeAuth u.auth_provider v.auth_provider auth i;
      exec_provider = redact_exec_provider-IsLikeExec u.exec_provider v.exec_provider exec_ i;
    }
    ∷ redact_user_credentials-IsLike us vs h i
