-- ===== src/Dsl/Loader/Walk/Accepted.antt =====
-- What the jobs of a load are known to satisfy.
use cron_manager.Base.{
  ◌≡◌, refl, sym, subst, true, false, Option, none, some, List, [], ◌∷◌, ◌++◌, All, All-append,
  Bool-cases, inl, inr, ℕ, ltb, map, if◌then◌else◌, Bool,
}
use cron_manager.Base.Map.{Map}
use cron_manager.Base.Results.{Result, ok, err, >>=-eq-ok, ◌>>=◌, ok-injective}
use cron_manager.Base.Text.{Text}
use cron_manager.Error.{CronManagerError, io, other_kind, yaml_parse}
use cron_manager.Dsl.{JobKey, JobSpec, LoadedJob}
use cron_manager.Dsl.Loader.Raw.{External, LoadPolicy, RawJob}
use cron_manager.Dsl.Loader.Group.{FilePath, is_yaml}
use cron_manager.Dsl.Loader.Spec.{into_spec}
use cron_manager.Dsl.Loader.Spec.Laws.{SpecIsSound, into_spec_ok}
use cron_manager.Dsl.Loader.Walk.{
  FileData, Node, file, dir, unreadable, Nodes, nil, cons, Walked, jobs_of, load_file_with_policy,
  fixture_gate, visit_file, walk, walk_entry, load_all_with_policy, start, after_file, display,
  ok_or, LoadEnd, in_time, panicked, timed_out, load_all_bounded,
}

-- A spec as the loader lets it through under a policy.
abbrev pub SpecIsAccepted : External → LoadPolicy → JobSpec → Type 0
SpecIsAccepted x policy spec = SpecIsSound x policy spec.key spec

module _ (x : External) (root : Text) (policy : LoadPolicy) where
  abbrev JobIsAccepted : LoadedJob → Type 0
  JobIsAccepted job = SpecIsAccepted x policy job.spec

  -- The jobs of a result, where it has some.
  abbrev Yields : Result (List LoadedJob) CronManagerError → Type 0
  Yields r = (jobs : List LoadedJob) → r ≡ ok jobs → All JobIsAccepted jobs

  bind-Yields :
      {A : Type 0} (r : Result A CronManagerError)
      (next : A → Result (List LoadedJob) CronManagerError)
      → ((a : A) → r ≡ ok a → Yields (next a))
      → Yields (r >>= next)
  bind-Yields (err e) next y jobs h = cc
  bind-Yields (ok a) next y jobs h = y a refl jobs h

  guarded-Yields :
      (b : Bool) (e : CronManagerError) (r : Result (List LoadedJob) CronManagerError)
      → Yields r
      → Yields (if b then err e else r)
  guarded-Yields true e r y jobs h = cc
  guarded-Yields false e r y jobs h = y jobs h

  ok-Yields : (jobs : List LoadedJob) → All JobIsAccepted jobs → Yields (ok jobs)
  ok-Yields jobs a jobs2 h = subst (All JobIsAccepted) (ok-injective jobs jobs2 h) a

  keyed-SpecIsAccepted :
      (key : JobKey) (spec : JobSpec) → SpecIsSound x policy key spec → SpecIsAccepted x policy spec
  keyed-SpecIsAccepted key spec sound =
      subst (λ k. SpecIsSound x policy k spec) (sym sound.keyed) sound

  jobs_of-Yields :
      (group source : Text) (raws : Map Text RawJob)
      → Yields (jobs_of x root policy group source raws)
  unfolding jobs_of
  jobs_of-Yields group source [] = ok-Yields [] tt
  jobs_of-Yields group source ((name, raw) ∷ rest) =
      let key : JobKey = record { group = group; name = name } in
      bind-Yields (into_spec x policy source key raw) _ (λ spec first.
        bind-Yields (jobs_of x root policy group source rest) _ (λ more later.
          ok-Yields (record { spec = spec; source_path = source } ∷ more) (
            keyed-SpecIsAccepted key spec (into_spec_ok x policy source key raw spec first),
            jobs_of-Yields group source rest more later,
          )))

  load_file-Yields :
      (path : FilePath) (data' : FileData) → Yields (load_file_with_policy x root policy path data')
  unfolding load_file_with_policy
  load_file-Yields path data' = bind-Yields (ok_or data'.len (io other_kind)) _ (λ len _.
      guarded-Yields (ltb policy.max_file_bytes len) _ _ (
        bind-Yields (ok_or data'.body (io other_kind)) _ (λ body _.
          bind-Yields (ok_or (x.parse_yaml body) (yaml_parse (display x root policy path))) _
            (λ raw _. jobs_of-Yields _ _ raw))))

  Gathers : Walked → Type 0
  Gathers w = All JobIsAccepted w.out

  after_file-Gathers :
      (path : FilePath) (data' : FileData) (w : Walked)
      (r : Result (List LoadedJob) CronManagerError)
      → load_file_with_policy x root policy path data' ≡ r
      → Gathers w
      → Gathers (after_file x root policy w r)
  unfolding Gathers
  after_file-Gathers path data' w (ok jobs) h g =
      All-append JobIsAccepted w.out jobs g (load_file-Yields path data' jobs h)
  after_file-Gathers path data' w (err e) h g = g

  visit_file-Gathers :
      (path : FilePath) (data' : FileData) (w w' : Walked)
      → Gathers w
      → visit_file x root policy path data' w ≡ ok w'
      → Gathers w'
  unfolding visit_file
  visit_file-Gathers path data' w w' g h = elim (Bool-cases (is_yaml path)) [
    | inl yaml ↦
        let gathered =
          after_file x root policy w (load_file_with_policy x root policy path data') in
        let visited : (fixture_gate x root policy path >>= λ _. ok gathered) ≡ ok w' =
          rw yaml at h in
        let (passed, first, last) =
          >>=-eq-ok (fixture_gate x root policy path) (λ _. ok gathered) visited in
        subst Gathers (ok-injective gathered w' last)
          (after_file-Gathers path data' w (load_file_with_policy x root policy path data') refl g)
    | inr other ↦ subst Gathers (ok-injective w w' (rw other at h)) g
  ]

  mutual
    unfolding walk walk_entry

    walk-Gathers :
        (here : FilePath) (ns : Nodes) (w w' : Walked)
        → Gathers w
        → walk x root policy here ns w ≡ ok w'
        → Gathers w'
    walk-Gathers here nil w w' g h = subst Gathers (ok-injective w w' h) g
    walk-Gathers here (cons n ns) w w' g h =
        let (v, first, rest) = >>=-eq-ok (walk_entry x root policy here n w) _ h in
        walk-Gathers here ns v w' (entry-Gathers here n w v g first) rest

    entry-Gathers :
        (here : FilePath) (n : Node) (w w' : Walked)
        → Gathers w
        → walk_entry x root policy here n w ≡ ok w'
        → Gathers w'
    entry-Gathers here (file name d) w w' g h = visit_file-Gathers (here ++ name ∷ []) d w w' g h
    entry-Gathers here (dir name ns) w w' g h = walk-Gathers (here ++ name ∷ []) ns w w' g h
    entry-Gathers here (unreadable name) w w' g h = cc

  load-JobIsAccepted :
      (tree : Option Node) (jobs : List LoadedJob)
      → load_all_with_policy x root policy tree ≡ ok jobs
      → All JobIsAccepted jobs
  unfolding load_all_with_policy Gathers
  load-JobIsAccepted none jobs h = subst (All JobIsAccepted) (ok-injective [] jobs h) tt
  load-JobIsAccepted (some (dir name ns)) jobs h =
      let (w, walked, last) = >>=-eq-ok (walk x root policy [] ns start) _ h in
      subst (All JobIsAccepted) (ok-injective w.out jobs last)
        (walk-Gathers [] ns start w tt walked)
  load-JobIsAccepted (some (file name d)) jobs h = cc
  load-JobIsAccepted (some (unreadable name)) jobs h = cc

  All-specs :
      (jobs : List LoadedJob)
      → All JobIsAccepted jobs
      → All (SpecIsAccepted x policy) (map (λ j. j.spec) jobs)
  All-specs [] a = tt
  All-specs (job ∷ jobs) a = (a.0, All-specs jobs a.1)

  pub load-SpecIsAccepted :
      (tree : Option Node) (jobs : List LoadedJob)
      → load_all_with_policy x root policy tree ≡ ok jobs
      → All (SpecIsAccepted x policy) (map (λ j. j.spec) jobs)
  load-SpecIsAccepted tree jobs h = All-specs jobs (load-JobIsAccepted tree jobs h)

  -- The specs that a load within its deadline gives.
  pub bounded-SpecIsAccepted :
      (secs : ℕ) (ending : LoadEnd) (tree : Option Node) (jobs : List LoadedJob)
      → load_all_bounded x root policy secs ending tree ≡ ok jobs
      → All (SpecIsAccepted x policy) (map (λ j. j.spec) jobs)
  unfolding load_all_bounded
  bounded-SpecIsAccepted secs in_time tree jobs h = load-SpecIsAccepted tree jobs h
  bounded-SpecIsAccepted secs panicked tree jobs h = cc
  bounded-SpecIsAccepted secs timed_out tree jobs h = cc
