-- ===== src/Router/State.antt =====
-- src/router.rs: the state that the handlers share, and its builders.
use cron_manager.Base.{ℕ, none, some, List, [], ◌∷◌}
use cron_manager.Base.Eq.{list_eq}
use cron_manager.Base.Map.{Map, insert}
use cron_manager.Base.Text.{Text}
use cron_manager.Config.{AppConfig}
use cron_manager.Router.Auth.{Tokens}
use cron_manager.Scheduler.{SchedulerInner}

-- The tokens are its fields `admin_token` and `per_group_tokens`.
pub record AppState : Type 0 where
  pub cfg : AppConfig
  pub scheduler : SchedulerInner
  pub tokens : Tokens
  pub reload_gate : Map Text ℕ

-- `AppState::new`.
unfoldable pub new_state : AppConfig → SchedulerInner → AppState
new_state cfg scheduler = record {
  cfg = cfg;
  scheduler = scheduler;
  tokens = record { admin_token = none; per_group_tokens = [] };
  reload_gate = [];
}

unfoldable pub with_admin_token : Text → AppState → AppState
with_admin_token token self = record self {
  tokens = record self.tokens { admin_token = some token };
}

-- `collect` into a map: a later entry of a key replaces an earlier one.
unfoldable pub collect : List (Text × Text) → Map Text Text → Map Text Text
unfolding insert
collect [] out = out
collect ((group, token) ∷ rest) out = collect rest (insert group token out)

unfoldable pub with_per_group_tokens : List (Text × Text) → AppState → AppState
unfolding collect
with_per_group_tokens tokens self = record self {
  tokens = record self.tokens { per_group_tokens = collect tokens [] };
}
