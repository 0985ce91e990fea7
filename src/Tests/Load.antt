-- ===== src/Tests/Load.antt =====
-- Tests of the loader.
use cron_manager.Base.{◌≡◌, refl, false, none, some, [], ◌∷◌, All}
use cron_manager.Base.Results.{ok}
use cron_manager.Base.Text.{codes, to_ascii_lowercase, contains, starts_with, join}
use cron_manager.Base.Names.{one_of}
use cron_manager.Dsl.{JobSpec, JobKey, HttpHeader, literal, cron, exec}
use cron_manager.Dsl.Loader.Raw.{normalise_trigger, into_argv}
use cron_manager.Dsl.Loader.Headers.{build_http_headers, literal_headers, env_headers, check_name}
use cron_manager.Dsl.Loader.Headers.Laws.{build_http_headers_ok, HeaderIsSound, AllFresh}
use cron_manager.Dsl.Loader.Spec.{into_spec, check_cron, kind_of, exec_kind}
use cron_manager.Dsl.Loader.Spec.Laws.{into_spec_ok, SpecIsSound}
use cron_manager.Dsl.Loader.Walk.{load_all_with_policy, dir, fixture_gate, display}
use cron_manager.Dsl.Loader.Group.{is_yaml}
use cron_manager.Dsl.Loader.Walk.Laws.{
  IsReadable, load_skips_failures, load_refuses_fixtures, jobs_in, yaml_files,
}
use cron_manager.EnvSafety.{dev_fixture_pattern, slashes}
use cron_manager.Tests.Data.{ext, policy, tree, backup}

abbrev key : JobKey
key = record { group = codes "ops"; name = codes "backup" }

abbrev backup_spec : JobSpec
backup_spec = record {
  key = key;
  trigger = cron (codes "0 0 3 * * *");
  window = record { start_ms = none; end_ms = none };
  retry = record { count = 1; delay = 1000; ignore_failures = false };
  kind = exec (codes "/bin/backup" ∷ []) [];
}

into_spec_ok_example : SpecIsSound ext policy key backup_spec
unfolding into_spec normalise_trigger one_of to_ascii_lowercase check_cron kind_of exec_kind
    into_argv
into_spec_ok_example = into_spec_ok ext policy (codes "ops.yml") key backup backup_spec refl

abbrev x_trace : HttpHeader
x_trace = record { name = codes "x-trace"; source = literal (codes "1") }

build_http_headers_ok_example :
    All (HeaderIsSound ext) (x_trace ∷ []) × AllFresh ext [] (x_trace ∷ [])
unfolding build_http_headers literal_headers env_headers check_name one_of
build_http_headers_ok_example =
    build_http_headers_ok ext (codes "ops.yml") key ((codes "x-trace", codes "1") ∷ []) []
      (x_trace ∷ []) refl

load_skips_failures_example :
    load_all_with_policy ext (codes "dsl") policy (some (dir (codes "dsl") tree))
    ≡ ok (jobs_in ext (codes "dsl") policy (yaml_files [] tree))
unfolding fixture_gate dev_fixture_pattern IsReadable yaml_files is_yaml slashes contains
    to_ascii_lowercase starts_with join
load_skips_failures_example =
    load_skips_failures ext (codes "dsl") policy (codes "dsl") tree (tt, (tt, tt))
      (refl, (refl, tt))

load_refuses_fixtures_example :
    All
      (λ f. dev_fixture_pattern (display ext (codes "dsl") policy f.0) ≡ none)
      (yaml_files [] tree)
load_refuses_fixtures_example =
    load_refuses_fixtures ext (codes "dsl") policy (codes "dsl") tree
      (jobs_in ext (codes "dsl") policy (yaml_files [] tree)) refl load_skips_failures_example
