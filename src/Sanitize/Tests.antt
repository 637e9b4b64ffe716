-- ===== src/Sanitize/Tests.antt =====
-- Two users whose tokens differ.
use kswitch.Prelude.{Text, text, ◌==◌, ◌≡◌, refl, false, some, List, [], ◌∷◌}
use kswitch.Sanitize.{
  User, redacted_value, is_safe_key, redact_config, redact_auth_provider, redact_exec_provider,
  redact_user_credentials,
}
use kswitch.Sanitize.Secrets.{IsLike, redact_user_credentials-IsLike}

abbrev user : Text → List User
user token =
    record {
      name = text "u";
      auth_provider = some (record {
        config = (text "client-id", text "me") ∷ (text "id-token", token) ∷ [];
        name = text "oidc";
      });
      exec_provider = some (record {
        api_version = text "v1";
        args = token ∷ [];
        command = text "login";
        env = record { name = text "SECRET"; value = token } ∷ [];
        install_hint = [];
        provide_cluster_info = false;
      });
    }
    ∷ []

shown :
    redact_user_credentials (user (text "t"))
    ≡ record {
      name = text "u";
      auth_provider = some (record {
        config = (text "client-id", text "me") ∷ (text "id-token", redacted_value) ∷ [];
        name = text "oidc";
      });
      exec_provider = some (record {
        api_version = text "v1";
        args = redacted_value ∷ [];
        command = text "login";
        env = record { name = text "SECRET"; value = redacted_value } ∷ [];
        install_hint = [];
        provide_cluster_info = false;
      });
    }
      ∷ []
unfolding redact_user_credentials redact_auth_provider redact_exec_provider redact_config
    is_safe_key ◌==◌
shown = refl

differ_in_secrets : IsLike (user (text "t")) (user (text "s"))
unfolding is_safe_key ◌==◌
differ_in_secrets = (
  refl,
  (refl, (refl, λ e. refl, (refl, λ e. absurd (cc), tt))),
  (refl, refl, refl, refl, tt, (refl, tt)),
  tt,
)

redact_user_credentials-IsLike_example :
    redact_user_credentials (user (text "t")) ≡ redact_user_credentials (user (text "s"))
redact_user_credentials-IsLike_example =
    redact_user_credentials-IsLike (user (text "t")) (user (text "s")) differ_in_secrets
