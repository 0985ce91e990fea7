-- ===== src/Executor/Dispatch/Laws.antt =====
-- What the rows and the outcome of one dispatch say, on every path through the retry loop.
use cron_manager.Base.{
  ℕ, zero, suc, ◌+◌, ◌%◌, ◌^◌, ◌≤◌, ◌<◌, ◌≡◌, refl, ◌⊎◌, inl, inr, Bool, true, false, Option, none,
  some, List, [], ◌∷◌, if◌then◌else◌, ltb, arith, length, subst, sym, lt→ltb, ap, ◌∙◌,
}
use cron_manager.Base.Results.{Result, ok, err}
use cron_manager.Dsl.{JobSpec}
use cron_manager.History.{
  HistoryEntry, success, failed, retrying, skipped, timeout, ErrorText, aborted_by_stop,
}
use cron_manager.Executor.Dispatch.{
  DispatchOutcome, DispatchExtras, ExecutorBundle, AttemptWorld, HttpDispatchResult, attempt_result,
  status_for_history, history_row, exhausted, Dispatched, attempts_from, with_row, ended,
  after_attempt, error_of, dispatch,
}

-- The rows number the attempts from `n` on, and each names the same maximum.
abbrev pub Numbered : ℕ → ℕ → List HistoryEntry → Type 0
Numbered n most [] = Unit
Numbered n most (r ∷ rs) =
    (r.attempt_number ≡ n) × (r.max_attempts ≡ most) × Numbered (n + 1) most rs

-- How the last row and the outcome fit together.
abbrev pub Last : Bool → ℕ → HistoryEntry → DispatchOutcome → Type 0
Last ignored most r o =
    ((r.status ≡ success) × (o.status ≡ success) × (o.last_error ≡ none))
    ⊎ (((r.status ≡ timeout) × (o.status ≡ timeout))
        ⊎ (((r.status ≡ failed)
              × (o.status ≡ (if ignored then skipped else failed))
              × (o.attempts ≡ most))
            ⊎ ((r.status ≡ retrying)
                × (o.status ≡ failed)
                × (o.last_error ≡ some aborted_by_stop))))

-- Every row but the last is of an attempt that is retried.
abbrev pub Ends : Bool → ℕ → List HistoryEntry → DispatchOutcome → Type 0
Ends ignored most [] o = ⊥
Ends ignored most (r ∷ []) o = Last ignored most r o
Ends ignored most (r ∷ s ∷ rs) o = (r.status ≡ retrying) × Ends ignored most (s ∷ rs) o

ltb_self : (a b : ℕ) → a ≡ b → ltb a b ≡ false
ltb_self a b h = ground arith

if_false {ℓ} : {A : Type ℓ} (b : Bool) (x y : A) → b ≡ false → (if b then x else y) ≡ y
if_false true x y h = cc
if_false false x y h = refl

module _ (self : ExecutorBundle) (spec : JobSpec) (extras : DispatchExtras)
    (worlds : ℕ → AttemptWorld) (most : ℕ) where
  pub record IsRun (n : ℕ) (d : Dispatched) : Type 0 where
    pub counted : n + length d.1 ≡ d.0.attempts + 1
    pub bounded : d.0.attempts ≤ most
    pub numbered : Numbered n most d.1
    pub ended : Ends spec.retry.ignore_failures most d.1 d.0

  -- What the later attempts give, when there are any.
  abbrev Rest : ℕ → Bool → Dispatched → Type 0
  Rest n false later = (n ≡ most) × ((e : Option ErrorText) × (later ≡ (exhausted spec most e, [])))
  Rest n true later = (n < most) × IsRun (n + 1) later

  IsRun-retried :
      (n : ℕ) (row : HistoryEntry) (later : Dispatched)
      → row.attempt_number ≡ n
      → row.max_attempts ≡ most
      → row.status ≡ retrying
      → IsRun (n + 1) later
      → IsRun n (with_row row later)
  IsRun-retried n row (o, []) hn hm hs run = absurd run.ended
  IsRun-retried n row (o, r ∷ rs) hn hm hs run = record {
    counted = omega (arith, run.counted);
    bounded = run.bounded;
    numbered = (hn, hm, run.numbered);
    ended = (hs, run.ended);
  }

  IsRun-exhausted :
      (n : ℕ) (row : HistoryEntry) (e : Option ErrorText)
      → row.attempt_number ≡ n
      → row.max_attempts ≡ most
      → row.status ≡ failed
      → n ≡ most
      → IsRun n (with_row row (exhausted spec most e, []))
  unfolding exhausted
  IsRun-exhausted n row e hn hm hs at_end = record {
    counted = omega arith;
    bounded = omega arith;
    numbered = (hn, hm, tt);
    ended = inr (inr (inl (hs, refl, refl)));
  }

  IsRun-failed :
      (b c d : Bool) (n : ℕ) (row : HistoryEntry) (e : Option ErrorText) (later : Dispatched)
      → row.attempt_number ≡ n
      → row.max_attempts ≡ most
      → row.status ≡ (if b then timeout else if c then retrying else failed)
      → n ≤ most
      → Rest n c later
      → IsRun n (
          with_row row (
            if b
            then ended timeout n e
            else if c
            then (if d then ended failed n (some aborted_by_stop) else later)
            else later))
  IsRun-failed true c d n row e later hn hm hs le rest = record {
    counted = omega arith;
    bounded = le;
    numbered = (hn, hm, tt);
    ended = inr (inl (hs, refl));
  }
  IsRun-failed false true true n row e later hn hm hs le rest = record {
    counted = omega arith;
    bounded = le;
    numbered = (hn, hm, tt);
    ended = inr (inr (inr (hs, refl, refl)));
  }
  IsRun-failed false true false n row e later hn hm hs le rest =
      IsRun-retried n row later hn hm hs rest.1
  IsRun-failed false false d n row e later hn hm hs le (at_end, (e_last, is_last)) =
      subst (λ x. IsRun n (with_row row x)) (sym is_last)
        (IsRun-exhausted n row e_last hn hm hs at_end)

  IsRun-attempt :
      (n : ℕ) (res : Result HttpDispatchResult HttpDispatchResult) (later : Dispatched)
      → n ≤ most
      → Rest n (ltb n most) later
      → IsRun n (
          with_row
            (history_row spec n most (worlds n) res)
            (after_attempt self spec extras worlds most n res later))
  unfolding history_row status_for_history
  IsRun-attempt n (ok r) later le rest = record {
    counted = omega arith;
    bounded = le;
    numbered = (refl, refl, tt);
    ended = inl (refl, refl, refl);
  }
  IsRun-attempt n (err r) later le rest =
      IsRun-failed r.is_shell_timeout (ltb n most) (worlds n).stop_in_delay n _ r.error_message
        later refl refl refl le rest

  Rest-last :
      (n : ℕ) (e : Option ErrorText) → n ≡ most → Rest n (ltb n most) (exhausted spec most e, [])
  Rest-last n e h =
      subst (λ b. Rest n b (exhausted spec most e, [])) (sym (ltb_self n most h)) (h, (e, refl))

  Rest-more :
      (n : ℕ) (later : Dispatched) → n < most → IsRun (n + 1) later → Rest n (ltb n most) later
  Rest-more n later h run = subst (λ b. Rest n b later) (sym (lt→ltb n most h)) (h, run)

  pub attempts_from-IsRun :
      (left n : ℕ) (e : Option ErrorText)
      → n + left ≡ most
      → IsRun n (attempts_from self spec extras worlds most (suc left) n e)
  unfolding attempts_from
  attempts_from-IsRun zero n e h = IsRun-attempt n _ _ (omega arith) (Rest-last n _ (omega arith))
  attempts_from-IsRun (suc left) n e h = IsRun-attempt n _ _ (omega arith) (
      Rest-more n _ (omega arith) (
        attempts_from-IsRun left (n + 1)
          (error_of (attempt_result self spec.kind extras (worlds n))) (omega arith)))

  pub dispatch-attempts_from :
      self.offline_mode ≡ false
      → spec.retry.count + 1 ≡ most
      → most < 2 ^ 32
      → dispatch self spec extras worlds ≡ attempts_from self spec extras worlds most most 1 none
  unfolding dispatch
  dispatch-attempts_from on is_most small =
      if_false _ _ _ on ∙ ap (λ k. attempts_from self spec extras worlds k k 1 none) wraps
    where
      wraps : (spec.retry.count + 1) % 2 ^ 32 ≡ most
      wraps = omega arith

  pub Ends_length :
      (b : Bool) (rows : List HistoryEntry) (o : DispatchOutcome)
      → Ends b most rows o
      → 1 ≤ length rows
  Ends_length b [] o h = absurd h
  Ends_length b (r ∷ rs) o h = omega arith

-- A dispatch that is not offline, with fewer than 2^31 attempts allowed: it makes at least one
-- attempt and at most one more than the retry count; the history gets one row for each attempt,
-- numbered from 1 without a gap, all with the same maximum; every row but the last says RETRYING;
-- and the last row agrees with the outcome. That is SUCCESS with no error; or TIMEOUT; or FAILED at
-- the last attempt, which the outcome reports as FAILED, or as SKIPPED when failures are ignored; or
-- RETRYING where a stop came during the delay, which the outcome reports as FAILED.
pub dispatch_rows :
    (self : ExecutorBundle) (spec : JobSpec) (extras : DispatchExtras) (worlds : ℕ → AttemptWorld)
    → self.offline_mode ≡ false
    → spec.retry.count + 1 < 2 ^ 31
    → (length (dispatch self spec extras worlds).1 ≡ (dispatch self spec extras worlds).0.attempts)
      × (1 ≤ (dispatch self spec extras worlds).0.attempts)
      × ((dispatch self spec extras worlds).0.attempts ≤ spec.retry.count + 1)
      × Numbered 1 (spec.retry.count + 1) (dispatch self spec extras worlds).1
      × Ends spec.retry.ignore_failures
          (spec.retry.count + 1)
          (dispatch self spec extras worlds).1
          (dispatch self spec extras worlds).0
dispatch_rows self spec extras worlds on small =
    subst
      (λ d.
        (length d.1 ≡ d.0.attempts)
        × (1 ≤ d.0.attempts)
        × (d.0.attempts ≤ spec.retry.count + 1)
        × Numbered 1 (spec.retry.count + 1) d.1
        × Ends spec.retry.ignore_failures (spec.retry.count + 1) d.1 d.0)
      (sym (
        dispatch-attempts_from self spec extras worlds (spec.retry.count + 1) on refl
          (omega arith)))
      (
        omega (arith, run.counted),
        omega (arith, run.counted, Ends_length self spec extras worlds most _ _ _ run.ended),
        run.bounded,
        run.numbered,
        run.ended,
      )
  where
    most : ℕ
    most = spec.retry.count + 1

    run :
        IsRun self spec extras worlds most 1
          (attempts_from self spec extras worlds most most 1 none)
    run =
        subst
          (λ k.
            IsRun self spec extras worlds most 1
              (attempts_from self spec extras worlds most k 1 none))
          (omega arith)
          (attempts_from-IsRun self spec extras worlds most spec.retry.count 1 none (omega arith))
