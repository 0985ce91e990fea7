-- ===== src/Scheduler/Tasks/Owners.antt =====
-- Which tasks own an entry of `running`, and counting them.
use cron_manager.Base.{
  ℕ, zero, suc, eqb, refl, ◌++◌, length, ◌+◌, ◌≤◌, ◌≡◌, Bool, true, false, some, List, [], ◌∷◌,
  ◌++◌, if◌then◌else◌, arith, get_elem?, set, count,
}
use mathlib.Core.Option.{some-injective}
use cron_manager.Base.Eq.{◌==◌}
use cron_manager.Dsl.{JobKey, key_eq}
use cron_manager.Scheduler.{
  Task, calling, starting, looping, sleeping, ready, begun, dispatching, recorded, replied,
  returned, panicked,
}

-- A task owns the entry of `running` from `begin_running` to the removal.
abbrev pub owns : JobKey → Task → Bool
owns k (begun r) = r.key == k
owns k (dispatching r c) = r.key == k
owns k (recorded r) = r.key == k
owns k (calling _ _) = false
owns k (starting _) = false
owns k (looping _) = false
owns k (sleeping _ _) = false
owns k (ready _) = false
owns k (replied _) = false
owns k returned = false
owns k panicked = false

abbrev pub has_panicked : Task → Bool
has_panicked panicked = true
has_panicked (begun r) = false
has_panicked (dispatching r c) = false
has_panicked (recorded r) = false
has_panicked (calling _ _) = false
has_panicked (starting _) = false
has_panicked (looping _) = false
has_panicked (sleeping _ _) = false
has_panicked (ready _) = false
has_panicked (replied _) = false
has_panicked returned = false

abbrev pub one : Bool → ℕ
one b = if b then 1 else 0

pub count-set :
    (p : Task → Bool) (xs : List Task) (i : ℕ) (x y : Task)
    → get_elem? xs i ≡ some x
    → count p (set xs i y) + one (p x) ≡ count p xs + one (p y)
count-set p [] i x y h = cc
count-set p (z ∷ xs) zero x y h = ground (arith, some-injective _ _ h)
count-set p (z ∷ xs) (suc i) x y h = omega (arith, count-set p xs i x y h)

pub count-get_elem? :
    (p : Task → Bool) (xs : List Task) (i : ℕ) (x : Task)
    → get_elem? xs i ≡ some x
    → one (p x) ≤ count p xs
count-get_elem? p [] i x h = cc
count-get_elem? p (z ∷ xs) zero x h = ground (arith, some-injective _ _ h)
count-get_elem? p (z ∷ xs) (suc i) x h = omega (arith, count-get_elem? p xs i x h)

pub get_elem?-append :
    (xs ys : List Task) (i : ℕ) (x : Task)
    → get_elem? xs i ≡ some x
    → get_elem? (xs ++ ys) i ≡ some x
get_elem?-append [] ys i x h = cc
get_elem?-append (z ∷ xs) ys zero x h = h
get_elem?-append (z ∷ xs) ys (suc i) x h = get_elem?-append xs ys i x h

pub set_self :
    (xs : List Task) (i : ℕ) (x y : Task)
    → get_elem? xs i ≡ some x
    → get_elem? (set xs i y) i ≡ some y
set_self [] i x y h = cc
set_self (z ∷ xs) zero x y h = refl
set_self (z ∷ xs) (suc i) x y h = set_self xs i x y h

pub set_other :
    (xs : List Task) (i j : ℕ) (y : Task)
    → eqb i j ≡ false
    → get_elem? (set xs i y) j ≡ get_elem? xs j
set_other [] i j y h = refl
set_other (z ∷ xs) zero zero y h = cc
set_other (z ∷ xs) zero (suc j) y h = refl
set_other (z ∷ xs) (suc i) zero y h = refl
set_other (z ∷ xs) (suc i) (suc j) y h = set_other xs i j y (ground (arith, h))

pub get_elem?-end : (xs : List Task) (x : Task) → get_elem? (xs ++ (x ∷ [])) (length xs) ≡ some x
get_elem?-end [] x = refl
get_elem?-end (z ∷ xs) x = get_elem?-end xs x

pub get_elem?-bound :
    (xs : List Task) (i : ℕ) (x : Task) → get_elem? xs i ≡ some x → eqb i (length xs) ≡ false
get_elem?-bound [] i x h = cc
get_elem?-bound (z ∷ xs) zero x h = ground arith
get_elem?-bound (z ∷ xs) (suc i) x h = ground (arith, get_elem?-bound xs i x h)
