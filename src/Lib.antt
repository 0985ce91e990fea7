-- ===== src/Lib.antt =====
-- CronManager: a job scheduler. It loads jobs from a tree of YAML files, fires them on their cron
-- schedules or when an HTTP client asks for it, runs each as an HTTP request or a child process with
-- retries, and keeps a history of the attempts. This library models its logic and proves what makes
-- it correct.
--
-- The parts and their files:
-- - Base: texts (lists of code points), byte positions in them, maps (association lists), results and
--   integers, as the Rust standard library has them, with the lemmas that the parts share.
-- - Security (src/security.rs): Env has the blacklist of variables (is_dangerous_env), Ip the tests on
--   addresses (is_private_or_local, is_always_blocked), Host the allowlist entries
--   (normalize_allowed_host), Sanitize the log, history and response texts.
-- - Error (src/error.rs): CronManagerError, and the reply that axum gets from it. The text of a
--   message is not modelled; a Message has one constructor for each format string.
-- - Config (src/config.rs): AppConfig with its defaults, split_allowed_private_hosts and the tokens
--   (which groups have one is in Groups); Bind has bind_is_loopback, Files the search paths and
--   load_or_default, Diagnostics boot_diagnostics, Dsn the DSN of the database with splice_password
--   and percent_encode, and redact_password of src/main.rs.
-- - Doctor (src/doctor.rs): the findings and the report; Doctor.Audit has run. It calls the gates of
--   EnvSafety and Router.Auth.
-- - Process (src/main.rs): main from the configuration to the state that is served: the gates, the
--   DSN, the load of the jobs, and the state of the router with its tokens. Process.Entry has main
--   from its command line on, with cli_entry of src/doctor.rs; Process.Signal has src/signal.rs.
-- - Server: the process that serves, where the parts meet: the tasks of the scheduler go on, and
--   requests to the routes come, in any order. Server.Invariant says what holds all the time,
--   Server.Kept that every event keeps it, Server.Booted and Server.Guarded what follows for a process
--   that has come up.
-- - Trace (src/traceparent.rs, src/access_log.rs, src/security_headers.rs): the layers that put
--   headers on a response and log a request.
-- - EnvSafety (src/env_safety.rs): Environment, the dev-fixture rule, and the credential and posture
--   gates that the process starts with; EnvSafety.Checks builds their inputs from the configuration.
-- - Dsl (src/dsl/mod.rs): the job types. Dsl.Loader (src/dsl/loader.rs): Raw has the YAML shapes and
--   policies, Headers and Spec the validation of one job (into_spec), Group the group of a file, Walk
--   the load of a directory tree.
-- - History (src/history/mod.rs, src/history/postgres.rs): the rows, the two recorders, and what the
--   Postgres recorder makes of a row.
-- - Executor: Http (src/executor/http.rs), Shell (src/executor/shell.rs), and Dispatch
--   (src/executor/mod.rs), the retry loop over both.
-- - Scheduler (src/scheduler.rs): the state and what one lock does to it; Scheduler.Tasks has
--   trigger_now and scheduling_loop as tasks that run from lock to lock, and the interleavings;
--   Scheduler.Tasks.Lock is the specification of what an entry of `running` promises.
--   Scheduler.Registry has trigger_now undisturbed, stop and reload_from (with what is registered in
--   Scheduler.Registry.Registered), which Scheduler.Tasks.Atomic and Scheduler.Tasks.Registration tie
--   to the interleavings; Scheduler.Tasks.Specs says which specs the tasks work with,
--   Scheduler.Tasks.Wiring which cancel handle a run listens to; Scheduler.Describe has the
--   snapshots.
-- - Router (src/router.rs): Reload has the reload gate, Auth the admin gate, Handlers the handlers of
--   /execute, /stop and /reload, which call the scheduler and the loader; State has AppState, Serve
--   the routes of build and what a request to each gets, Layers the CORS origins and the rewrite of a
--   413, Pipeline the layers of build in their order, with what every response carries.
-- - Tests: the model at concrete inputs.
--
-- How they are modelled. State is passed explicitly. The scheduler's two maps, the state of the jobs
-- and the spawned tasks are one record; a step takes one lock, and a list of events is an
-- interleaving. What a run meets from outside (DNS answers, responses, exit statuses, the clock,
-- stops) is an argument: HttpWorld, ShellWorld, AttemptWorld, LoadEnd. Parsers of other crates
-- (cron, url, serde_yaml, header values, IP literals) are parameters: fields of External and
-- HttpWorld, parse_ip, parses (in Server the same as the loader's cron_is_valid) and next_fire, and
-- the file system and the debug format of strings in Doctor and Config.Files. A tokio task whose JoinHandle is dropped goes on, as tokio documents.
-- Instants and lengths are natural numbers; where the source has a machine integer that can wrap or
-- saturate (the u32 count of attempts, saturating_mul of the reload gate) the arithmetic is written
-- out. Every loop is structural recursion, with no fuel but for printing a number, which has one
-- round more than the number and so enough for its digits: the retry loop runs over the number of
-- attempts left, the spawn retries over their fixed number.
--
-- Not modelled: log lines other than those of boot_diagnostics and the access log, the listener and
-- the draining of requests at the end, how axum matches a path to a route and decodes its parameters,
-- the own answers of tower's body limit, timeout and CORS layers (parameters of Pipeline), and SQL. The order of a HashMap
-- or BTreeMap is not modelled, nor that token comparison takes constant time.
pub mod Base
pub mod Security
pub mod Error
pub mod EnvSafety
pub mod Config
pub mod Doctor
pub mod Dsl
pub mod History
pub mod Executor
pub mod Scheduler
pub mod Router
pub mod Trace
pub mod Process
pub mod Server
pub mod Tests
