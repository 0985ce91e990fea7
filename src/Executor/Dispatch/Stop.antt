-- ===== src/Executor/Dispatch/Stop.antt =====
-- What a stop during an attempt does to the dispatch.
use cron_manager.Base.{
  ℕ, suc, ◌+◌, ◌-◌, ◌^◌, ◌≤◌, ◌<◌, ◌≡◌, refl, ap, ◌∙◌, false, none, List, lt→ltb, arith,
}
use cron_manager.Base.Results.{err}
use cron_manager.Base.Text.{Text}
use cron_manager.Dsl.{JobSpec, JobKind, http, HttpHeader}
use cron_manager.Error.{internal, stopped_before_response}
use cron_manager.Executor.Http
use cron_manager.Executor.Dispatch.{
  DispatchExtras, ExecutorBundle, AttemptWorld, HttpDispatchResult, from_ok, from_err, both,
  after_attempt, error_of, attempt_result, attempts_from, dispatch,
}
use cron_manager.Executor.Dispatch.Laws.{
  IsRun, attempts_from-IsRun, Ends_length, dispatch-attempts_from,
}

module _ (self : ExecutorBundle) (spec : JobSpec) (extras : DispatchExtras)
    (worlds : ℕ → AttemptWorld) where
  stopped_result :
      (kind : JobKind) (w : AttemptWorld) (method url : Text) (headers : List HttpHeader)
      → kind ≡ http method url headers
      → Http.execute self.http w.http_world method url headers
        ≡ err (internal stopped_before_response)
      → attempt_result self kind extras w ≡ err (from_err (internal stopped_before_response))
  unfolding attempt_result
  stopped_result kind w method url headers is_http h =
      ap (λ k. attempt_result self k extras w) is_http ∙ ap (both from_ok from_err) h

  failed_goes_on :
      (most left : ℕ) (r : HttpDispatchResult)
      → attempt_result self spec.kind extras (worlds 1) ≡ err r
      → r.is_shell_timeout ≡ false
      → (worlds 1).stop_in_delay ≡ false
      → 1 < most
      → (attempts_from self spec extras worlds most (suc left) 1 none).0
        ≡ (attempts_from self spec extras worlds most left 2 r.error_message).0
  unfolding attempts_from
  failed_goes_on most left r h no_timeout no_stop more =
      ap
        (λ x.
          (after_attempt self spec extras worlds most 1 x
            (attempts_from self spec extras worlds most left 2 (error_of x))).0)
        h
      ∙ ground (arith, no_timeout, no_stop, lt→ltb 1 most more)

  -- A stop that meets the first attempt while its HTTP request is under way ends that attempt and
  -- not the run: with a retry left and no stop in the delay, the dispatch makes a second attempt.
  pub stopped_goes_on :
      (method url : Text) (headers : List HttpHeader)
      → self.offline_mode ≡ false
      → 1 ≤ spec.retry.count
      → spec.retry.count + 1 < 2 ^ 31
      → spec.kind ≡ http method url headers
      → Http.execute self.http (worlds 1).http_world method url headers
        ≡ err (internal stopped_before_response)
      → (worlds 1).stop_in_delay ≡ false
      → 2 ≤ (dispatch self spec extras worlds).0.attempts
  stopped_goes_on method url headers on retries small is_http stop no_stop = omega (
    arith,
    run.counted,
    Ends_length self spec extras worlds most _ _ _ run.ended,
    ap (λ o. o.attempts) same,
  )
    where
      most : ℕ
      most = spec.retry.count + 1

      left : ℕ
      left = spec.retry.count - 1

      r : HttpDispatchResult
      r = from_err (internal stopped_before_response)

      run :
          IsRun self spec extras worlds most 2
            (attempts_from self spec extras worlds most (suc left) 2 r.error_message)
      run = attempts_from-IsRun self spec extras worlds most left 2 r.error_message (omega arith)

      same :
          (dispatch self spec extras worlds).0
          ≡ (attempts_from self spec extras worlds most (suc left) 2 r.error_message).0
      same =
          ap (λ d. d.0) (dispatch-attempts_from self spec extras worlds most on refl (omega arith))
          ∙ ap (λ n. (attempts_from self spec extras worlds most n 1 none).0) (omega arith)
          ∙ failed_goes_on most (suc left) r
              (stopped_result spec.kind (worlds 1) method url headers is_http stop) refl no_stop
              (omega arith)
