-- ===== src/Tests/Answers.antt =====
-- Tests of the answers of the router, and of whole runs of the program.
use cron_manager.Base.{ℕ, ◌≡◌, refl, true, false, none, some, [], ◌∷◌}
use cron_manager.Base.Eq.{list_eq}
use cron_manager.Base.Map.{insert}
use cron_manager.Base.Results.{ok}
use cron_manager.Base.Text.{codes, strip_prefix}
use cron_manager.Config.Files.{config_search_paths, flag_path}
use cron_manager.Dsl.Loader.Walk.{in_time}
use cron_manager.Error.{status}
use cron_manager.Process.Entry.{Host, main}
use cron_manager.Process.Entry.Verdicts.{Agree, main-doctor}
use cron_manager.Router.Layers.{Response, bytes}
use cron_manager.Router.Pipeline.{Inbound, Exchange, respond}
use cron_manager.Tests.Data.{config, ext}

abbrev inbound : Inbound
inbound = record {
  method = codes "GET";
  matched = some (codes "/jobs");
  traceparent = none;
  fresh_trace = codes "4bf92f3577b34da6a3ce929d0e0e4736";
  fresh_span = codes "00f067aa0ba902b700f067aa0ba902b7";
  fresh_log = codes "5bf92f3577b34da6a3ce929d0e0e4736";
}

abbrev plain : ℕ → Response
plain code = record { status = code; headers = []; body = bytes [] }

-- The CORS layer adds a header to the end.
abbrev allow_all : Response → Response
allow_all resp = record resp {
  headers = insert (codes "access-control-allow-origin") (codes "*") resp.headers;
}

abbrev late : Exchange
late = record {
  inbound = inbound;
  answer = plain 200;
  deadline_passed = true;
  timed_out = plain 408;
  preflight = none;
  with_cors = allow_all;
}

abbrev in_time_exchange : Exchange
in_time_exchange = record late { deadline_passed = false }

-- The deadline passes: tower's own answer has none of the headers, and the access log no line.
deadline_bare : respond config (λ v. true) late ≡ (plain 408, none)
unfolding respond
deadline_bare = refl

abbrev host : Host
host = record {
  env = λ v. some (codes "kX9vQ2mZ7tR4wB8nkX9vQ2mZ7tR4wB8n");
  exists = λ p. true;
  is_dir = λ p. true;
  read_to_string = λ p. ok (codes "port: 8080");
  from_str = λ s. some config;
  parse_ip = λ s. none;
  debug = λ s. s;
  external = ext;
  connect = λ dsn. true;
  load_end = in_time;
  tree = none;
}

main-doctor_example :
    Agree
      (main host (codes "cronmanager" ∷ codes "doctor" ∷ []))
      (main host (codes "cronmanager" ∷ []))
unfolding config_search_paths flag_path strip_prefix
main-doctor_example =
    main-doctor host (codes "cronmanager" ∷ codes "doctor" ∷ []) (codes "cronmanager" ∷ []) refl
      refl refl
