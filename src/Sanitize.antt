-- ===== src/Sanitize.antt =====
-- ParseSanitizedKubeconfig of pkg/util/util.go, after the parser: the users of types/type.go, and what
-- is taken out of them.
pub mod Secrets
pub mod Tests
use kswitch.Prelude.{
  Text, text, Bool, if◌then◌else◌, is_elem, Option, none, some, List, [], ◌∷◌, map,
}
use kswitch.Prelude.Dict.{Dict}

pub record AuthProvider : Type 0 where
  pub config : Dict Text
  pub name : Text

pub record EnvMap : Type 0 where
  pub name : Text
  pub value : Text

pub record ExecProvider : Type 0 where
  pub api_version : Text
  pub args : List Text
  pub command : Text
  pub env : List EnvMap
  pub install_hint : Text
  pub provide_cluster_info : Bool

pub record User : Type 0 where
  pub name : Text
  pub auth_provider : Option AuthProvider
  pub exec_provider : Option ExecProvider

abbrev pub redacted_value : Text
redacted_value = text "REDACTED"

abbrev pub auth_provider_safe_keys : List Text
auth_provider_safe_keys =
    text "client-id"
    ∷ text "idp-issuer-url"
    ∷ text "idp-certificate-authority"
    ∷ text "idp-certificate-authority-data"
    ∷ text "cmd-path"
    ∷ text "expiry-key"
    ∷ text "token-key"
    ∷ text "scopes"
    ∷ []

unfoldable pub is_safe_key : Text → Bool
is_safe_key key = is_elem key auth_provider_safe_keys

unfoldable pub redact_config : Dict Text → Dict Text
redact_config [] = []
redact_config ((key, value) ∷ config) =
    (key, if is_safe_key key then value else redacted_value) ∷ redact_config config

unfoldable pub redact_auth_provider : Option AuthProvider → Option AuthProvider
redact_auth_provider none = none
redact_auth_provider (some p) = some (record p { config = redact_config p.config })

unfoldable pub redact_exec_provider : Option ExecProvider → Option ExecProvider
redact_exec_provider none = none
redact_exec_provider (some p) = some (record p {
  args = map (λ (a : Text). redacted_value) p.args;
  env = map (λ (e : EnvMap). record e { value = redacted_value }) p.env;
})

unfoldable pub redact_user_credentials : List User → List User
redact_user_credentials [] = []
redact_user_credentials (user ∷ users) =
    record user {
      auth_provider = redact_auth_provider user.auth_provider;
      exec_provider = redact_exec_provider user.exec_provider;
    }
    ∷ redact_user_credentials users
