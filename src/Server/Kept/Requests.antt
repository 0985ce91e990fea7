-- ===== src/Server/Kept/Requests.antt =====
-- Every request to a route keeps the invariant of Server/Invariant.antt.
use cron_manager.Base.{ℕ, sym, subst, inl, inr, Bool, Bool-cases, Option, none, some, All, map}
use cron_manager.Base.Int.{ℤ}
use cron_manager.Base.Map.{Map}
use cron_manager.Base.Results.{Result, ok, err}
use cron_manager.Base.Text.{Text}
use cron_manager.Config.{AppConfig}
use cron_manager.Dsl.{JobKey, key_eq}
use cron_manager.Dsl.Loader.Raw.{External}
use cron_manager.Dsl.Loader.Walk.Accepted.{SpecIsAccepted, load-SpecIsAccepted}
use cron_manager.EnvSafety.{Environment}
use cron_manager.Error.{CronManagerError}
use cron_manager.Executor.Dispatch.{ExecutorBundle}
use cron_manager.Router.Auth.{Tokens, admin_gate}
use cron_manager.Router.Handlers
use cron_manager.Router.Handlers.{
  bounded_query, forbidden_key, fire, execute_bounded, execute_job, snapshot_after, Answered,
  policy_of, stop_job, stopped_answer, reload_jobs, Snapshot,
}
use cron_manager.Router.Handlers.Laws.{reload_jobs_lem}
use cron_manager.Router.Serve
use cron_manager.Router.Serve.{
  Handler, jobs_all, jobs_group, running_all, running_group, index, health, info, Request, Route,
  Answer, Served, executed, after_stop, after_reload, handle, past_gate, serve,
}
use cron_manager.Router.State.{AppState}
use cron_manager.Scheduler.{SchedulerInner, stop}
use cron_manager.Server.{left_by}
use cron_manager.Server.Invariant.{SchedulerIsSound, IsServing}
use cron_manager.Server.Kept.{
  reload_from-SchedulerIsSound, stop-SchedulerIsSound, AnsweredIsSound, execute_job-IsSound,
}

module _ (next_fire : Text → ℤ → Option ℤ) (x : External) (cfg : AppConfig) (e : Environment)
    (bundle : ExecutorBundle) where
  pub serving :
      (st : AppState) (tokens : Tokens) (gate : Map Text ℕ) (s : SchedulerInner)
      → IsServing x cfg e bundle tokens st
      → SchedulerIsSound x cfg e bundle s
      → IsServing x cfg e bundle tokens (record st { scheduler = s; reload_gate = gate })
  serving st tokens gate s v x' = record { config = v.config; guarded = v.guarded; scheduler = x' }

  module _ (tokens : Tokens) (st : AppState) (v : IsServing x cfg e bundle tokens st) where
    abbrev pub ServedIsSound : Served → Type 0
    ServedIsSound served = IsServing x cfg e bundle tokens (left_by st served)

    executed-IsSound :
        (a : Answered) → AnsweredIsSound next_fire x cfg e bundle a → ServedIsSound (executed st a)
    executed-IsSound none h = v
    executed-IsSound (some (err e2, s)) h = serving st tokens st.reload_gate s v h
    executed-IsSound (some (ok shown, s)) h = serving st tokens st.reload_gate s v h

    stop-IsServing :
        (group : Text) (p : Result Bool CronManagerError × SchedulerInner)
        → SchedulerIsSound x cfg e bundle p.1
        → IsServing x cfg e bundle tokens (after_stop st (stopped_answer group p)).1
    stop-IsServing group (err e2, s) h = serving st tokens st.reload_gate s v h
    stop-IsServing group (ok aborted, s) h = serving st tokens st.reload_gate s v h

    reload-IsServing :
        (r : Handlers.Reloaded)
        → SchedulerIsSound x cfg e bundle r.2
        → IsServing x cfg e bundle tokens (after_reload st r).1
    reload-IsServing (err e2, gate, s) h = serving st tokens gate s v h
    reload-IsServing (ok n, gate, s) h = serving st tokens gate s v h

    reload_jobs-SchedulerIsSound :
        (r : Request)
        → SchedulerIsSound x cfg e bundle
            (reload_jobs x st.cfg e r.ending r.tree st.reload_gate st.scheduler r.group r.instant).2
    reload_jobs-SchedulerIsSound r =
        elim (reload_jobs_lem x st.cfg e r.ending r.tree st.reload_gate st.scheduler r.group
          r.instant) [
            | inl (e2, failed, same) ↦
                subst (SchedulerIsSound x cfg e bundle) (sym same) v.scheduler
            | inr (jobs, admitted, in_time', loaded, count', same) ↦
                subst (SchedulerIsSound x cfg e bundle) (sym same) (
                  reload_from-SchedulerIsSound next_fire x cfg e bundle jobs st.scheduler
                    (subst (λ c. All (SpecIsAccepted x (policy_of c e)) (map (λ j. j.spec) jobs))
                      v.config
                      (load-SpecIsAccepted x st.cfg.dsl_path (policy_of st.cfg e) r.tree jobs
                        loaded))
                    v.scheduler)
          ]

    handle-IsServing : (r : Request) (h : Handler) → ServedIsSound (handle next_fire x e r st h)
    unfolding handle stop_job
    handle-IsServing r Serve.execute_job =
        executed-IsSound (execute_job st.cfg st.scheduler r.group r.job r.pairs r.now) (
          subst
            (λ c.
              AnsweredIsSound next_fire x cfg e bundle
                (execute_job c st.scheduler r.group r.job r.pairs r.now))
            (sym v.config)
            (execute_job-IsSound next_fire x cfg e bundle st.scheduler r.group r.job r.now
              v.scheduler r.pairs))
    handle-IsServing r Serve.stop_job =
        let key : JobKey = record { group = r.group; name = r.job } in
        stop-IsServing r.group (stop st.scheduler key)
          (stop-SchedulerIsSound next_fire x cfg e bundle key st.scheduler v.scheduler)
    handle-IsServing r Serve.reload_jobs =
        reload-IsServing
          (reload_jobs x st.cfg e r.ending r.tree st.reload_gate st.scheduler r.group r.instant)
          (reload_jobs-SchedulerIsSound r)
    handle-IsServing r jobs_all = v
    handle-IsServing r jobs_group = v
    handle-IsServing r running_all = v
    handle-IsServing r running_group = v
    handle-IsServing r index = v
    handle-IsServing r health = v
    handle-IsServing r info = v

    past_gate-IsServing :
        (r : Request) (h : Handler) (gate : Result {0, 0} Unit CronManagerError)
        → ServedIsSound (past_gate next_fire x e r st h gate)
    past_gate-IsServing r h (err e2) = v
    past_gate-IsServing r h (ok passed) = handle-IsServing r h

    pub serve-IsServing : (r : Request) (to : Route) → ServedIsSound (serve next_fire x e r st to)
    unfolding serve
    serve-IsServing r to = elim (Bool-cases to.is_gated) [
      | inl gated ↦
          rw gated (past_gate-IsServing r to.handler (admin_gate st.tokens r.authorization r.path))
      | inr public ↦ rw public (handle-IsServing r to.handler)
    ]
