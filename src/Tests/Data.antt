-- ===== src/Tests/Data.antt =====
-- The inputs that the tests share.
use cron_manager.Base.{ℕ, Bool, true, false, Option, none, some, [], ◌∷◌}
use cron_manager.Base.{if◌then◌else◌}
use cron_manager.Base.Eq.{list_beq}
use cron_manager.Base.Map.{Map}
use cron_manager.Dsl.Loader.Raw.{External, LoadPolicy, RawJob, str, list}
use cron_manager.Dsl.Loader.Walk.{Node, Nodes, file, nil, cons}
use cron_manager.EnvSafety.{refuse}
use cron_manager.Base.Int.{ℤ, pos}
use cron_manager.Base.Text.{Text, codes}
use cron_manager.Security.Ip.{Ipv4Addr, v4}
use cron_manager.Config.{AppConfig, default_limits, default_admin, default_security}
use cron_manager.Dsl.{JobKey, JobSpec, cron, http}
use cron_manager.Executor.Http.{HttpWorld, ParsedUrl, stopped}
use cron_manager.Executor.Shell.{ShellWorld, exited}
use cron_manager.Executor.Dispatch.{AttemptWorld, ExecutorBundle}

abbrev pub public_ip : Ipv4Addr
public_ip = record { o0 = 93; o1 = 184; o2 = 216; o3 = 34 }

abbrev pub api_url : ParsedUrl
api_url = record { scheme = codes "https"; host_str = some (codes "api.test"); port = none }

-- A world in which the request is stopped before there is a response.
abbrev pub web : HttpWorld
web = record {
  method_is_valid = λ m. true;
  parse_url = λ u. some api_url;
  parse_ip = λ h. none;
  lookup_host = λ h p. some (v4 public_ip ∷ []);
  env = λ v. none;
  header_value_is_valid = λ v. true;
  from_utf8_lossy = λ b. b;
  send = λ r. stopped;
}

abbrev pub os : ShellWorld
os = record {
  spawn = λ c n. none;
  run = λ c. record {
    pipes = (true, true);
    wait = exited (some (pos 0));
    stdout = some [];
    stderr = some [];
  };
  from_utf8_lossy = λ b. b;
}

abbrev pub worlds : ℕ → AttemptWorld
worlds n = record {
  http_world = web;
  shell_world = os;
  at = pos 1000;
  duration_ms = 5;
  stop_in_delay = false;
}

abbrev pub bundle : ExecutorBundle
bundle = record {
  http = record {
    max_response_bytes = 16;
    timeout_secs = 30;
    block_private_networks = true;
    allowed_private_hosts = [];
  };
  shell = record {
    baseline_env = (codes "HOME", codes "/srv") ∷ [];
    app_root = codes "/srv";
    timeout_secs = 300;
    max_output_bytes = 16;
  };
  offline_mode = false;
}

abbrev pub ping : JobKey
ping = record { group = codes "ops"; name = codes "ping" }

abbrev pub ping_spec : JobSpec
ping_spec = record {
  key = ping;
  trigger = cron (codes "0 * * * * *");
  window = record { start_ms = none; end_ms = some (pos 5000) };
  retry = record { count = 2; delay = 0; ignore_failures = false };
  kind = http (codes "GET") (codes "https://api.test/") [];
}

abbrev pub config : AppConfig
config = record {
  port = 8080;
  dsl_path = codes "dsl";
  app_root_path = codes "/srv";
  allowed_origins = [];
  shell_environment = [];
  limits = default_limits;
  admin = default_admin;
  security = default_security;
  database = none;
}

abbrev pub parses : Text → Bool
parses e = true

abbrev pub next_fire : Text → ℤ → Option ℤ
next_fire e now = some (pos 2000)

abbrev pub bad_yaml : Text
bad_yaml = codes "]"

abbrev pub backup : RawJob
backup = record {
  trigger = str (codes "0 0 3 * * *");
  ty = codes "exec";
  start_date = none;
  end_date = none;
  retry_count = some 1;
  retry_delay_ms = none;
  ignore_failures = none;
  method = none;
  url = none;
  headers = none;
  header_envs = none;
  command = some (list (codes "/bin/backup" ∷ []));
  allowed_envs = none;
}

-- Every other file holds the job `backup`.
abbrev yaml : Text → Option (Map Text RawJob)
yaml s = if list_beq s bad_yaml then none else some ((codes "backup", backup) ∷ [])

abbrev pub ext : External
ext = record {
  cron_is_valid = λ e. true;
  parse_url = λ u. none;
  parse_yaml = yaml;
  header_name = λ n. some n;
  header_value_is_valid = λ v. true;
  env = λ v. none;
}

abbrev pub policy : LoadPolicy
policy = record {
  max_file_bytes = 1_048_576;
  max_retry_count = 10;
  min_cron_interval_secs = 10;
  block_private_networks = true;
  dev_fixture_action = refuse;
}

abbrev file_of : Text → Text → Node
file_of name body = file name (record { len = some 1; body = some body })

abbrev pub tree : Nodes
tree = cons (file_of (codes "bad.yaml") bad_yaml) (cons (file_of (codes "ops.yml") (codes "-")) nil)
