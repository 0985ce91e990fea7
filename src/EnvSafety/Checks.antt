-- ===== src/EnvSafety/Checks.antt =====
-- src/env_safety.rs: the checks that the gates run on a configuration, as src/main.rs runs them.
use cron_manager.Base.{not, Option, none, some, List, [], ◌∷◌, unwrap_or}
use cron_manager.Base.Text.{Text, codes}
use cron_manager.Config.{AppConfig, resolve_admin_token}
use cron_manager.EnvSafety.{CredCheck, PostureCheck}

unfoldable pub cred_checks_for : (Text → Option Text) → AppConfig → List CredCheck
unfolding resolve_admin_token
cred_checks_for env cfg =
    record {
      context = codes "admin";
      field = codes "token";
      value = unwrap_or [] (resolve_admin_token env cfg);
      min_len = 32;
    }
    ∷ elim cfg.database [
      | none ↦ []
      | some db ↦
          record {
            context = codes "database";
            field = codes "password";
            value = unwrap_or [] (env db.password_env);
            min_len = 12;
          }
          ∷ []
    ]

unfoldable pub posture_checks_for : AppConfig → List PostureCheck
posture_checks_for cfg =
    record { name = codes "admin.trust_network"; is_safe = not cfg.admin.trust_network }
    ∷ record {
      name = codes "security.block_private_networks";
      is_safe = cfg.security.block_private_networks;
    }
    ∷ record {
      name = codes "security.allow_dangerous_env_overrides";
      is_safe = not cfg.security.allow_dangerous_env_overrides;
    }
    ∷ record {
      name = codes "security.allow_dev_fixture_dsls";
      is_safe = not cfg.security.allow_dev_fixture_dsls;
    }
    ∷ []
