-- ===== src/Dsl/Loader/Spec/Laws.antt =====
-- What a job that the loader accepts is known to satisfy.
use cron_manager.Base.{
  ◌≤◌, ◌≡◌, ◌≢◌, true, false, some, List, [], ◌∷◌, arith, Option-cases, Bool-cases, inl, inr,
}
use cron_manager.Base.Eq.{list_beq}
use cron_manager.Base.Names.{one_of_iff, IsOneOf}
use cron_manager.Base.Results.{ok}
use cron_manager.Base.Text.{Text, codes, to_ascii_uppercase}
use cron_manager.Security.Ip.{v4, v6, is_private_or_local}
use cron_manager.Dsl.{Trigger, cron, manual, JobKey, JobKind, JobSpec}
use cron_manager.Dsl.Loader.Raw.{
  External, LoadPolicy, RawJob, RawCommand, Host, ipv4, ipv6, domain, Url, into_argv, starts_empty,
}
use cron_manager.Dsl.Loader.Spec.{
  known_methods, web_schemes, screen_host, validate_http_url, http_kind, exec_kind, kind_of,
  check_cron, into_spec,
}

-- A literal address of the host is routable.
abbrev pub HostIsPublic : Host → Type 0
HostIsPublic (ipv4 a) = is_private_or_local (v4 a) ≡ false
HostIsPublic (ipv6 a) = is_private_or_local (v6 a) ≡ false
HostIsPublic (domain _) = Unit

module _ (x : External) (policy : LoadPolicy) where
  pub record UrlIsSound (url : Text) : Type 0 where
    pub parsed : Url
    pub host : Host
    pub is_parsed : x.parse_url url ≡ some parsed
    pub has_host : parsed.host ≡ some host
    pub is_web : IsOneOf web_schemes parsed.scheme
    pub is_public : policy.block_private_networks ≡ true → HostIsPublic host

  abbrev pub KindIsSound : JobKind → Type 0
  KindIsSound (JobKind.http method url headers) =
      IsOneOf known_methods (to_ascii_uppercase method) × UrlIsSound url
  KindIsSound (JobKind.exec [] envs) = ⊥
  KindIsSound (JobKind.exec (program ∷ args) envs) = program ≢ []

  abbrev pub TriggerIsSound : Trigger → Type 0
  TriggerIsSound (cron expr) = x.cron_is_valid expr ≡ true
  TriggerIsSound manual = Unit

  pub record SpecIsSound (key : JobKey) (spec : JobSpec) : Type 0 where
    pub keyed : spec.key ≡ key
    pub scheduled : TriggerIsSound spec.trigger
    pub capped : spec.retry.count ≤ policy.max_retry_count
    pub runnable : KindIsSound spec.kind

  module _ (source : Text) (key : JobKey) where
    screen_host_ok : (h : Host) → screen_host x policy source key h ≡ ok tt → HostIsPublic h
    unfolding screen_host
    screen_host_ok (ipv4 a) e = ground arith
    screen_host_ok (ipv6 a) e = ground arith
    screen_host_ok (domain d) e = tt

    validate_http_url_ok :
        (url : Text) → validate_http_url x policy source key url ≡ ok tt → UrlIsSound url
    unfolding validate_http_url
    validate_http_url_ok url e = elim (Option-cases (x.parse_url url)) [
      | inl missing ↦ absurd (ground arith)
      | inr (u, found) ↦ elim (Option-cases u.host) [
        | inl hostless ↦ absurd (ground arith)
        | inr (h, hosted) ↦ record {
          parsed = u;
          host = h;
          is_parsed = found;
          has_host = hosted;
          is_web = (one_of_iff web_schemes u.scheme).0 (ground arith);
          is_public = λ b. screen_host_ok h (ground arith);
        }
      ]
    ]

    program_named :
        (argv envs : List Text) → starts_empty argv ≡ false → KindIsSound (JobKind.exec argv envs)
    program_named [] envs h = cc
    program_named ([] ∷ args) envs h = cc
    program_named ((c ∷ s) ∷ args) envs h = λ e. ground arith

    into_argv_ok :
        (c : RawCommand) (argv envs : List Text)
        → into_argv c key source ≡ ok argv
        → KindIsSound (JobKind.exec argv envs)
    unfolding into_argv
    into_argv_ok c argv envs e = program_named argv envs (ground arith)

    http_kind_ok :
        (raw : RawJob) (k : JobKind) → http_kind x policy source key raw ≡ ok k → KindIsSound k
    unfolding http_kind
    http_kind_ok raw (JobKind.exec _ _) e = absurd (ground arith)
    http_kind_ok raw (JobKind.http method url headers) e = (
      (one_of_iff known_methods (to_ascii_uppercase method)).0 (ground arith),
      validate_http_url_ok url (ground arith),
    )

    exec_kind_ok :
        (raw : RawJob) (k : JobKind) → exec_kind x policy source key raw ≡ ok k → KindIsSound k
    unfolding exec_kind
    exec_kind_ok raw (JobKind.http _ _ _) e = absurd (ground arith)
    exec_kind_ok raw (JobKind.exec argv envs) e = elim (Option-cases raw.command) [
      | inl missing ↦ absurd (ground arith)
      | inr (c, given) ↦ into_argv_ok c argv envs (ground arith)
    ]

    kind_of_ok :
        (raw : RawJob) (k : JobKind) → kind_of x policy source key raw ≡ ok k → KindIsSound k
    unfolding kind_of
    kind_of_ok raw k e = elim (Bool-cases (list_beq raw.ty (codes "http"))) [
      | inl is_http ↦ http_kind_ok raw k (rw is_http at e)
      | inr other ↦ exec_kind_ok raw k (ground arith)
    ]

    check_cron_ok : (t : Trigger) → check_cron x policy source key t ≡ ok tt → TriggerIsSound t
    unfolding check_cron
    check_cron_ok (cron expr) e = ground arith
    check_cron_ok manual e = tt

    -- A job that the loader accepts keeps the key it was given, has a cron expression that parses
    -- or none, retries no more often than the policy's cap, and can be run: an HTTP job has a
    -- known method and a web URL whose literal address, if private networks are blocked, is
    -- routable; an exec job names a program.
    pub into_spec_ok :
        (raw : RawJob) (spec : JobSpec)
        → into_spec x policy source key raw ≡ ok spec
        → SpecIsSound key spec
    unfolding into_spec
    into_spec_ok raw spec e = record {
      keyed = ground arith;
      scheduled = check_cron_ok spec.trigger (ground arith);
      capped = ground arith;
      runnable = kind_of_ok raw spec.kind (ground arith);
    }
