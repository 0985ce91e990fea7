-- ===== src/Executor/Shell/Laws.antt =====
-- The environment that a child sees, and the bound on what is kept of its output.
use mathlib.Core.List.{append_assoc, append-nil}
use mathlib.Core.Path.{subst}
use cron_manager.Base.{
  ℕ, zero, suc, ◌+◌, ◌-◌, ◌≤◌, ◌<◌, ◌≡◌, refl, sym, ◌∙◌, Bool, false, Option, none, some,
  Option-cases, Bool-cases, inl, inr, List, [], ◌∷◌, ◌++◌, arith, any, length, length-append, ltb,
  leb, ◌⊎◌, if◌then◌else◌,
}
use cron_manager.Base.Eq.{list_beq, list_eq, list_beq_iff}
use cron_manager.Base.Map
use cron_manager.Base.Map.{Map, get-insert}
use cron_manager.Base.Text.{Text}
use cron_manager.Executor.Http.Body.{concat}
use cron_manager.Executor.Shell.{
  ShellExecutor, baseline_vars, override_vars, child_env, read_from, take, cut_mark,
}

abbrev pub or_else {ℓ} : {A : Type ℓ} → Option A → Option A → Option A
or_else (some a) o = some a
or_else none o = o

abbrev pub is_allowed : Text → List Text → Bool
is_allowed k allowed = any (λ a. list_beq a k) allowed

-- The value that the overrides give a key: the last one counts.
abbrev pub last_of : Text → List (Text × Text) → Option Text
last_of k [] = none
last_of k ((j, v) ∷ rest) = or_else (last_of k rest) (if list_beq j k then some v else none)

get-baseline_vars :
    (baseline : Map Text Text) (names : List Text) (vars : Map Text Text) (k : Text)
    → Map.get k (baseline_vars baseline names vars) ≡ (
        if is_allowed k names
        then or_else (Map.get k baseline) (Map.get k vars)
        else Map.get k vars)
unfolding baseline_vars
get-baseline_vars baseline [] vars k = refl
get-baseline_vars baseline (n ∷ names) vars k = elim (Option-cases (Map.get n baseline)) [
  | inl missing ↦ ground (arith, list_beq_iff n k, get-baseline_vars baseline names vars k)
  | inr (v, found) ↦ ground (
    arith,
    list_beq_iff n k,
    get-baseline_vars baseline names (Map.insert n v vars) k,
    get-insert n k v vars,
  )
]

get-override_vars :
    (allowed : List Text) (overrides : List (Text × Text)) (vars : Map Text Text) (k : Text)
    → Map.get k (override_vars allowed overrides vars) ≡ (
        if is_allowed k allowed
        then or_else (last_of k overrides) (Map.get k vars)
        else Map.get k vars)
unfolding override_vars
get-override_vars allowed [] vars k = ground arith
get-override_vars allowed ((j, v) ∷ rest) vars k = ground (
  arith,
  list_beq_iff j k,
  get-override_vars allowed rest (Map.insert j v vars) k,
  get-override_vars allowed rest vars k,
  get-insert j k v vars,
)

get-empty : (k : Text) → Map.get {V = Text} k [] ≡ none
unfolding Map.get
get-empty k = refl

-- A child sees a variable only if the job allows it, and then the last override of it, or where
-- there is none the value of the baseline.
pub get-child_env :
    (self : ShellExecutor) (allowed : List Text) (overrides : List (Text × Text)) (k : Text)
    → Map.get k (child_env self allowed overrides) ≡ (
        if is_allowed k allowed
        then or_else (last_of k overrides) (Map.get k self.baseline_env)
        else none)
unfolding child_env
get-child_env self allowed overrides k = ground (
  arith,
  get-override_vars allowed overrides (baseline_vars self.baseline_env allowed []) k,
  get-baseline_vars self.baseline_env allowed [] k,
  get-empty k,
)

length-take-le : (n : ℕ) (xs : List ℕ) → length (take n xs) ≤ n
length-take-le zero xs = omega arith
length-take-le (suc n) [] = omega arith
length-take-le (suc n) (x ∷ xs) = omega (arith, length-take-le n xs)

read_from_bounded :
    (limit : ℕ) (buf : List ℕ) (cs : List (List ℕ))
    → length buf ≤ limit
    → length (read_from limit buf cs) ≤ limit + length cut_mark
unfolding read_from
read_from_bounded limit buf [] h = omega arith
read_from_bounded limit buf (c ∷ cs) h = elim (Bool-cases (ltb limit (length buf + length c))) [
  | inl full ↦ rw full (
      omega (
        arith,
        length-append buf (take (limit - length buf) c ++ cut_mark),
        length-append (take (limit - length buf) c) cut_mark,
        length-take-le (limit - length buf) c,
      ))
  | inr room ↦ rw room (read_from_bounded limit (buf ++ c) cs (ground (arith, length-append buf c)))
]

read_from_whole :
    (limit : ℕ) (buf : List ℕ) (cs : List (List ℕ))
    → length (buf ++ concat cs) ≤ limit
    → read_from limit buf cs ≡ buf ++ concat cs
unfolding read_from
read_from_whole limit buf [] h = sym (append-nil buf)
read_from_whole limit buf (c ∷ cs) h =
    let room : ltb limit (length buf + length c) ≡ false =
      ground (arith, length-append buf (c ++ concat cs), length-append c (concat cs)) in
    rw room (
      read_from_whole limit (buf ++ c) cs
        (subst (λ t. length t ≤ limit) (sym (append_assoc buf c (concat cs))) h)
      ∙ append_assoc buf c (concat cs))

-- Whatever a child writes, what is kept of it is bounded by the cap and the mark of the cut, and
-- an output within the cap is kept whole.
pub read_from_lem :
    (limit : ℕ) (cs : List (List ℕ))
    → (length (read_from limit [] cs) ≤ limit + length cut_mark)
      × ((read_from limit [] cs ≡ concat cs) ⊎ (limit < length (concat cs)))
read_from_lem limit cs = (
  read_from_bounded limit [] cs (omega arith),
  elim (Bool-cases (leb (length (concat cs)) limit)) [
    | inl fits ↦ inl (read_from_whole limit [] cs (ground (arith, fits)))
    | inr over ↦ inr (ground (arith, over))
  ],
)
