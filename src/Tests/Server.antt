-- ===== src/Tests/Server.antt =====
-- Tests of the whole process: a boot in production with one HTTP job, and what it serves.
use cron_manager.Base.{
  ℕ, ◌≡◌, refl, Bool, true, false, Option, none, some, List, [], ◌∷◌, ◌++◌, All,
}
use cron_manager.Base.Bytes.{byte_len, len_utf8}
use cron_manager.Base.Eq.{list_eq}
use cron_manager.Base.Int.{pos}
use cron_manager.Base.Map.{get, contains_key, insert, remove}
use cron_manager.Base.Names.{one_of}
use cron_manager.Base.Results.{ok}
use cron_manager.Base.Text.{
  Text, codes, trim, trim_start_by, trim_end_by, is_whitespace, to_ascii_lowercase,
  to_ascii_uppercase, contains, starts_with,
}
use cron_manager.Config.{resolve_admin_token, resolve_per_group_tokens}
use cron_manager.Config.Dsn.{database_dsn}
use cron_manager.Dsl.{JobSpec, cron, http, key_eq, allows}
use cron_manager.Dsl.Loader.Raw.{External, RawJob, Url, Host, domain, str, normalise_trigger}
use cron_manager.Dsl.Loader.Group.{group_from_path, is_yaml}
use cron_manager.Dsl.Loader.Spec.{
  into_spec, kind_of, check_cron, http_kind, validate_http_url, screen_host,
}
use cron_manager.Dsl.Loader.Headers.{build_http_headers, literal_headers, env_headers}
use cron_manager.Dsl.Loader.Walk.{
  in_time, Node, dir, file, cons, nil, load_all_bounded, load_all_with_policy, walk, walk_entry,
  visit_file, fixture_gate, load_file_with_policy, jobs_of,
}
use cron_manager.EnvSafety.{
  production, requires_prod_creds, is_weak, enforce_creds, enforce_posture, action_from_env,
  dev_fixture_pattern,
}
use cron_manager.EnvSafety.Checks.{cred_checks_for, posture_checks_for}
use cron_manager.Executor.Dispatch
use cron_manager.History.{noop}
use cron_manager.Process.{Booted, boot, boot_gates, serve_with}
use cron_manager.Router.Auth.{refuse_to_start_without_token}
use cron_manager.Router.Layers.{Response, bytes}
use cron_manager.Error.{unauthorized}
use cron_manager.Router.Pipeline.{Inbound, Exchange, error_response}
use cron_manager.Router.Serve.{Answer, Request, route, post, execute_job, reload_jobs}
use cron_manager.Router.State.{new_state, with_admin_token, with_per_group_tokens}
use cron_manager.Scheduler.{Loop, starting, looping, register, register_all, begin_running}
use cron_manager.Scheduler.Tasks.{fired, step_task, step_at, apply}
use cron_manager.Security.Ip.{IpAddr, v4, is_private_or_local, v4_is_private_or_local}
use cron_manager.Server.{ServerEvent, turn, arrive, enter, go_on, serve_all}
use cron_manager.Server.Invariant.{IsServing}
use cron_manager.Server.Booted.{served_state_is_sound, started_loop_parses, attempts_stay_public}
use cron_manager.Executor.Http.{
  is_allowlisted, prepare, reject_private_dns, screen_addrs, ssrf_refuses, resolve_headers,
}
use cron_manager.Executor.Http.Ssrf.{MayReach}
use cron_manager.Dsl.Loader.Spec.Laws.{HostIsPublic}
use cron_manager.Tests.Data.{config, ext, next_fire, worlds, web, api_url, public_ip}

abbrev no_ip : Text → Option IpAddr
no_ip s = none

abbrev token : Text
token = codes "kX9vQ2mZ7tR4wB8nkX9vQ2mZ7tR4wB8n"

-- Every variable has this value.
abbrev vars : Text → Option Text
vars v = some token

abbrev there : Text → Bool
there p = true

abbrev ping_raw : RawJob
ping_raw = record {
  trigger = str (codes "0 * * * * *");
  ty = codes "http";
  start_date = none;
  end_date = none;
  retry_count = none;
  retry_delay_ms = none;
  ignore_failures = none;
  method = some (codes "GET");
  url = some (codes "https://api.test/");
  headers = none;
  header_envs = none;
  command = none;
  allowed_envs = none;
}

abbrev api : Url
api = record { scheme = codes "https"; host = some (domain (codes "api.test")); port = none }

abbrev web_ext : External
web_ext = record ext {
  parse_url = λ u. some api;
  parse_yaml = λ s. some ((codes "ping", ping_raw) ∷ []);
}

abbrev tree : Option Node
tree = some (
    dir (codes "dsl")
      (cons (file (codes "ops.yml") (record { len = some 1; body = some (codes "-") })) nil))

abbrev ping : JobSpec
ping = record {
  key = record { group = codes "ops"; name = codes "ping" };
  trigger = cron (codes "0 * * * * *");
  window = record { start_ms = none; end_ms = none };
  retry = record { count = 0; delay = 1000; ignore_failures = false };
  kind = http (codes "GET") (codes "https://api.test/") [];
}

abbrev booted : Booted
booted =
    serve_with no_ip vars config noop
      (record { spec = ping; source_path = codes "dsl/ops.yml" } ∷ [])

up : boot no_ip vars web_ext config production there in_time tree ≡ some (ok booted)
unfolding requires_prod_creds boot boot_gates enforce_creds cred_checks_for enforce_posture
    posture_checks_for refuse_to_start_without_token resolve_admin_token load_all_bounded is_weak
    byte_len len_utf8 trim trim_start_by trim_end_by is_whitespace to_ascii_lowercase contains
    starts_with database_dsn load_all_with_policy walk walk_entry visit_file fixture_gate
    load_file_with_policy jobs_of into_spec kind_of check_cron http_kind validate_http_url
    screen_host build_http_headers normalise_trigger group_from_path is_yaml action_from_env
    dev_fixture_pattern to_ascii_uppercase one_of literal_headers env_headers
up = refl

abbrev inbound : Inbound
inbound = record {
  method = codes "POST";
  matched = some (codes "/execute/:group/:job");
  traceparent = none;
  fresh_trace = codes "4bf92f3577b34da6a3ce929d0e0e4736";
  fresh_span = codes "00f067aa0ba902b700f067aa0ba902b7";
  fresh_log = codes "5bf92f3577b34da6a3ce929d0e0e4736";
}

abbrev plain : ℕ → Response
plain code = record { status = code; headers = []; body = bytes [] }

abbrev render : Answer → Response
render a = plain 200

-- The loop of `ping` begins a run at its next fire.
abbrev fire_ping : List ServerEvent
fire_ping =
    turn 0 (pos 1000) worlds
    ∷ turn 0 (pos 1000) worlds
    ∷ turn 0 (pos 2000) worlds
    ∷ turn 0 (pos 2000) worlds
    ∷ turn 0 (pos 2000) worlds
    ∷ []

abbrev execute_ping : Request
execute_ping = record {
  path = codes "/execute/ops/ping";
  authorization = some (codes "Bearer " ++ token);
  group = codes "ops";
  job = codes "ping";
  pairs = [];
  now = pos 1500;
  instant = 0;
  ending = in_time;
  tree = tree;
}

abbrev anonymous : Request
anonymous = record execute_ping { authorization = none }

-- The loop starts, two calls race, and a reload comes.
abbrev busy : List ServerEvent
busy =
    turn 0 (pos 1000) worlds
    ∷ arrive execute_ping (route true post (codes "/execute/:group/:job") execute_job)
    ∷ enter execute_ping
    ∷ turn 0 (pos 1000) worlds
    ∷ turn 2 (pos 1500) worlds
    ∷ arrive execute_ping (route true post (codes "/reload/:group") reload_jobs)
    ∷ turn 1 (pos 1500) worlds
    ∷ []

served_state_is_sound_example :
    IsServing web_ext config production
      (Dispatch.new no_ip vars config)
      booted.state.tokens
      (serve_all next_fire web_ext production busy booted.state)
served_state_is_sound_example =
    served_state_is_sound no_ip vars config web_ext production next_fire there in_time tree booted
      busy up

abbrev ping_loop : Loop
ping_loop = record { spec = ping; expr = codes "0 * * * * *"; state = 0 }

started_loop_parses_example :
    step_task web_ext.cron_is_valid next_fire
      (pos 1000)
      worlds
      (starting ping_loop)
      booted.state.scheduler
    ≡ (looping ping_loop, booted.state.scheduler)
unfolding serve_all register_all register with_admin_token with_per_group_tokens new_state
    resolve_per_group_tokens resolve_admin_token insert remove
started_loop_parses_example =
    started_loop_parses no_ip vars config web_ext production next_fire there in_time tree booted []
      up 0 ping_loop (pos 1000) worlds refl

attempts_stay_public_example :
    ((u : Url) × (given : Host) × (some api ≡ some u) × (u.host ≡ some given) × HostIsPublic given)
    × All (MayReach (is_allowlisted (codes "api.test") [])) (v4 public_ip ∷ [])
unfolding requires_prod_creds serve_all go_on apply step_at step_task register register_all allows
    begin_running contains_key get insert remove resolve_per_group_tokens resolve_admin_token
    with_admin_token with_per_group_tokens new_state prepare Dispatch.new reject_private_dns
    screen_addrs ssrf_refuses resolve_headers is_private_or_local v4_is_private_or_local
    to_ascii_uppercase is_allowlisted
attempts_stay_public_example =
    attempts_stay_public no_ip vars config web_ext production next_fire there in_time tree booted
      fire_ping up 0 (fired ping_loop) 0 (codes "GET") (codes "https://api.test/") [] web
      (record { method = codes "GET"; url = codes "https://api.test/"; headers = [] }) api_url
      (codes "api.test") (v4 public_ip ∷ []) refl refl refl refl refl refl refl refl

-- The exchange of the request: in time, and no preflight.
abbrev refused_exchange : Exchange
refused_exchange = record {
  inbound = inbound;
  answer = error_response unauthorized;
  deadline_passed = false;
  timed_out = plain 408;
  preflight = none;
  with_cors = λ resp. resp;
}
