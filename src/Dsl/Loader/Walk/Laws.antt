-- ===== src/Dsl/Loader/Walk/Laws.antt =====
-- The walk against the plain list of the YAML files below the root.
use mathlib.Core.List.{append_assoc, append-nil}
use cron_manager.Base.{
  ℕ, ◌+◌, ◌≡◌, refl, sym, ap, ◌∙◌, none, some, Bool-cases, inl, inr, List, [], ◌∷◌, ◌++◌, arith,
  All, All-append, length, length-append, if◌then◌else◌,
}
use cron_manager.Base.Results.{Result, ok, err, >>=-eq-ok}
use cron_manager.Base.Text.{Text}
use cron_manager.Error.{CronManagerError}
use cron_manager.EnvSafety.{dev_fixture_pattern, refuse}
use cron_manager.Dsl.{LoadedJob}
use cron_manager.Dsl.Loader.Raw.{External, LoadPolicy}
use cron_manager.Dsl.Loader.Group.{FilePath, is_yaml}
use cron_manager.Dsl.Loader.Walk.{
  FileData, Node, file, dir, unreadable, Nodes, nil, cons, Walked, load_file_with_policy,
  fixture_gate, visit_file, walk, walk_entry, load_all_with_policy, start, display, after_file,
}

abbrev pub Found : Type 0
Found = FilePath × FileData

unfoldable mutual
  -- The YAML files below a directory, in the order of the walk.
  pub yaml_files : FilePath → Nodes → List Found
  yaml_files here nil = []
  yaml_files here (cons n ns) = yaml_files_of here n ++ yaml_files here ns

  pub yaml_files_of : FilePath → Node → List Found
  yaml_files_of here (file name d) =
      if is_yaml (here ++ name ∷ []) then (here ++ name ∷ [], d) ∷ [] else []
  yaml_files_of here (dir name ns) = yaml_files (here ++ name ∷ []) ns
  yaml_files_of here (unreadable name) = []

unfoldable mutual
  pub IsReadable : Nodes → Type 0
  IsReadable nil = Unit
  IsReadable (cons n ns) = NodeIsReadable n × IsReadable ns

  pub NodeIsReadable : Node → Type 0
  NodeIsReadable (file name d) = Unit
  NodeIsReadable (dir name ns) = IsReadable ns
  NodeIsReadable (unreadable name) = ⊥

module _ (x : External) (root : Text) (policy : LoadPolicy) where
  -- The jobs of the files that load, in the order of the files.
  abbrev loaded_jobs : Result (List LoadedJob) CronManagerError → List LoadedJob
  loaded_jobs (ok jobs) = jobs
  loaded_jobs (err e) = []

  abbrev failure : Result (List LoadedJob) CronManagerError → ℕ
  failure (ok jobs) = 0
  failure (err e) = 1

  pub jobs_in : List Found → List LoadedJob
  jobs_in [] = []
  jobs_in ((p, d) ∷ fs) = loaded_jobs (load_file_with_policy x root policy p d) ++ jobs_in fs

  failures_in : List Found → ℕ
  failures_in [] = 0
  failures_in ((p, d) ∷ fs) = failure (load_file_with_policy x root policy p d) + failures_in fs

  -- What the walk has gathered after these files.
  after : Walked → List Found → Walked
  after w fs = record {
    out = w.out ++ jobs_in fs;
    yaml_files_seen = w.yaml_files_seen + length fs;
    files_failed = w.files_failed + failures_in fs;
  }

  abbrev pub GatePasses : Found → Type 0
  GatePasses f = fixture_gate x root policy f.0 ≡ ok tt

  jobs_in-append : (fs gs : List Found) → jobs_in (fs ++ gs) ≡ jobs_in fs ++ jobs_in gs
  unfolding jobs_in
  jobs_in-append [] gs = refl
  jobs_in-append ((p, d) ∷ fs) gs =
      ap (◌++◌ (loaded_jobs (load_file_with_policy x root policy p d))) (jobs_in-append fs gs)
      ∙ sym (
          append_assoc (loaded_jobs (load_file_with_policy x root policy p d)) (jobs_in fs)
            (jobs_in gs))

  failures_in-append :
      (fs gs : List Found) → failures_in (fs ++ gs) ≡ failures_in fs + failures_in gs
  unfolding failures_in
  failures_in-append [] gs = omega arith
  failures_in-append ((p, d) ∷ fs) gs = omega (arith, failures_in-append fs gs)

  after-append : (w : Walked) (fs gs : List Found) → after w (fs ++ gs) ≡ after (after w fs) gs
  unfolding after
  after-append w fs gs = λ i. record {
    out =
        (ap (◌++◌ w.out) (jobs_in-append fs gs)
            ∙ sym (append_assoc w.out (jobs_in fs) (jobs_in gs)))
          i;
    yaml_files_seen =
        (let e : w.yaml_files_seen + length (fs ++ gs) ≡ w.yaml_files_seen + length fs + length gs =
              omega (arith, length-append fs gs) in
            e)
          i;
    files_failed =
        (let e : w.files_failed + failures_in (fs ++ gs)
                ≡ w.files_failed + failures_in fs + failures_in gs =
              omega (arith, failures_in-append fs gs) in
            e)
          i;
  }

  visit_gate :
      (p : FilePath) (d : FileData) (w w' : Walked)
      → visit_file x root policy p d w ≡ ok w'
      → All GatePasses (if is_yaml p then (p, d) ∷ [] else [])
  unfolding visit_file
  visit_gate p d w w' e = elim (Bool-cases (is_yaml p)) [
    | inl yaml ↦ rw yaml (ground arith)
    | inr other ↦ rw other tt
  ]

  after-nil : (w : Walked) → w ≡ after w []
  unfolding after jobs_in failures_in
  after-nil w = λ i. record {
    out = sym (append-nil w.out) i;
    yaml_files_seen = (let e : w.yaml_files_seen ≡ w.yaml_files_seen + 0 = omega arith in e) i;
    files_failed = (let e : w.files_failed ≡ w.files_failed + 0 = omega arith in e) i;
  }

  gathered :
      (w : Walked) (r : Result (List LoadedJob) CronManagerError)
      → after_file x root policy w r ≡ record {
        out = w.out ++ (loaded_jobs r ++ []);
        yaml_files_seen = w.yaml_files_seen + 1;
        files_failed = w.files_failed + (failure r + 0);
      }
  gathered w (ok jobs) = ground (arith, append-nil jobs)
  gathered w (err e) = ground (arith, append-nil w.out)

  one_file :
      (p : FilePath) (d : FileData) (w : Walked)
      → after_file x root policy w (load_file_with_policy x root policy p d) ≡ after w ((p, d) ∷ [])
  unfolding after jobs_in failures_in
  one_file p d w = gathered w (load_file_with_policy x root policy p d)

  visit_after :
      (p : FilePath) (d : FileData) (w : Walked)
      → All GatePasses (if is_yaml p then (p, d) ∷ [] else [])
      → visit_file x root policy p d w ≡ ok (after w (if is_yaml p then (p, d) ∷ [] else []))
  unfolding visit_file after jobs_in failures_in
  visit_after p d w g = elim (Bool-cases (is_yaml p)) [
    | inl yaml ↦
        let pass : fixture_gate x root policy p ≡ ok tt = (rw yaml at g).0 in
        rw (yaml, pass) (ap ok (one_file p d w))
    | inr other ↦ rw other (ap ok (after-nil w))
  ]

  mutual
    unfolding walk walk_entry yaml_files yaml_files_of IsReadable NodeIsReadable

    -- A walk that succeeds has met no file that the gate refuses.
    walk_gate :
        (here : FilePath) (ns : Nodes) (w w' : Walked)
        → walk x root policy here ns w ≡ ok w'
        → All GatePasses (yaml_files here ns)
    walk_gate here nil w w' e = tt
    walk_gate here (cons n ns) w w' e =
        let (v, first, rest) = >>=-eq-ok (walk_entry x root policy here n w) _ e in
        All-append GatePasses (yaml_files_of here n) (yaml_files here ns)
          (walk_gate_of here n w v first) (walk_gate here ns v w' rest)

    walk_gate_of :
        (here : FilePath) (n : Node) (w w' : Walked)
        → walk_entry x root policy here n w ≡ ok w'
        → All GatePasses (yaml_files_of here n)
    walk_gate_of here (file name d) w w' e = visit_gate (here ++ name ∷ []) d w w' e
    walk_gate_of here (dir name ns) w w' e = walk_gate (here ++ name ∷ []) ns w w' e
    walk_gate_of here (unreadable name) w w' e = tt

  All-left : (fs gs : List Found) → All GatePasses (fs ++ gs) → All GatePasses fs
  All-left [] gs a = tt
  All-left (f ∷ fs) gs a = (a.0, All-left fs gs a.1)

  All-right : (fs gs : List Found) → All GatePasses (fs ++ gs) → All GatePasses gs
  All-right [] gs a = a
  All-right (f ∷ fs) gs a = All-right fs gs a.1

  mutual
    unfolding walk walk_entry yaml_files yaml_files_of IsReadable NodeIsReadable

    walk-after :
        (here : FilePath) (ns : Nodes) (w : Walked)
        → IsReadable ns
        → All GatePasses (yaml_files here ns)
        → walk x root policy here ns w ≡ ok (after w (yaml_files here ns))
    walk-after here nil w r g = ap ok (after-nil w)
    walk-after here (cons n ns) w r g =
        rw (walk_after_of here n w r.0 (All-left (yaml_files_of here n) (yaml_files here ns) g)) (
          walk-after here ns (after w (yaml_files_of here n)) r.1
            (All-right (yaml_files_of here n) (yaml_files here ns) g)
          ∙ ap ok (sym (after-append w (yaml_files_of here n) (yaml_files here ns))))

    walk_after_of :
        (here : FilePath) (n : Node) (w : Walked)
        → NodeIsReadable n
        → All GatePasses (yaml_files_of here n)
        → walk_entry x root policy here n w ≡ ok (after w (yaml_files_of here n))
    walk_after_of here (file name d) w r g = visit_after (here ++ name ∷ []) d w g
    walk_after_of here (dir name ns) w r g = walk-after (here ++ name ∷ []) ns w r g
    walk_after_of here (unreadable name) w r g = absurd r

  -- Where the directories can be read and no file is refused as a dev fixture, the load succeeds
  -- and gives the jobs of the YAML files that load, file by file in the order of the walk: a file
  -- that fails is skipped and takes no other file's jobs with it.
  pub load_skips_failures :
      (name : Text) (ns : Nodes)
      → IsReadable ns
      → All GatePasses (yaml_files [] ns)
      → load_all_with_policy x root policy (some (dir name ns)) ≡ ok (jobs_in (yaml_files [] ns))
  unfolding load_all_with_policy after
  load_skips_failures name ns r g = rw (walk-after [] ns start r g) refl

  gate_refuses :
      (p : FilePath)
      → policy.dev_fixture_action ≡ refuse
      → fixture_gate x root policy p ≡ ok tt
      → dev_fixture_pattern (display x root policy p) ≡ none
  unfolding fixture_gate
  gate_refuses p a e = ground arith

  All-refused :
      (fs : List Found)
      → policy.dev_fixture_action ≡ refuse
      → All GatePasses fs
      → All (λ f. dev_fixture_pattern (display x root policy f.0) ≡ none) fs
  All-refused [] a g = tt
  All-refused (f ∷ fs) a g = (gate_refuses f.0 a g.0, All-refused fs a g.1)

  -- Under the policy `Refuse` a load that succeeds has met no YAML file, at any depth, whose path
  -- matches a dev-fixture pattern.
  pub load_refuses_fixtures :
      (name : Text) (ns : Nodes) (jobs : List LoadedJob)
      → policy.dev_fixture_action ≡ refuse
      → load_all_with_policy x root policy (some (dir name ns)) ≡ ok jobs
      → All (λ f. dev_fixture_pattern (display x root policy f.0) ≡ none) (yaml_files [] ns)
  unfolding load_all_with_policy
  load_refuses_fixtures name ns jobs a e =
      let (w, walked, rest) = >>=-eq-ok (walk x root policy [] ns start) _ e in
      All-refused (yaml_files [] ns) a (walk_gate [] ns start w walked)
