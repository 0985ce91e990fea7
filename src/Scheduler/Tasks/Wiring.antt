-- ===== src/Scheduler/Tasks/Wiring.antt =====
-- Which cancel handle a run of src/scheduler.rs listens to, and whom `stop` reaches.
pub mod Steps
pub mod Stop
use mathlib.Core.Option.{some-injective, none-ne-some}
use cron_manager.Base.{
  ℕ, zero, suc, ◌+◌, ◌≤◌, ◌<◌, ◌≡◌, ◌≢◌, refl, sym, ap, subst, ◌∙◌, ◌⊎◌, inl, inr, Bool, Bool-cases,
  true, false, Option, none, some, List, [], ◌∷◌, ◌++◌, arith, length, get_elem?, set, eqb, eqb_iff,
  count, if◌then◌else◌,
}
use cron_manager.Base.Eq.{◌==◌, ==_iff, ==_self}
use cron_manager.Base.Map.{
  Map, get, contains_key, insert, remove, get-insert, get-remove, contains_key-get,
}
use cron_manager.Dsl.{JobKey, key_eq}
use cron_manager.Scheduler.{
  RunningInstance, Run, Task, calling, starting, looping, sleeping, ready, begun, dispatching,
  recorded, replied, returned, panicked, SchedulerInner,
}
use cron_manager.Scheduler.Tasks.Owners.{owns, one, set_self, set_other, count-get_elem?}

abbrev pub Running : Type 0
Running = Map JobKey RunningInstance

-- A dispatch listens to the handle of the entry of its key.
abbrev pub Listens : Running → Task → Type 0
Listens m (dispatching r c) =
    (inst : RunningInstance) × (get r.key m ≡ some inst) × (inst.cancel ≡ c)
Listens m (calling _ _) = Unit
Listens m (starting _) = Unit
Listens m (looping _) = Unit
Listens m (sleeping _ _) = Unit
Listens m (ready _) = Unit
Listens m (begun _) = Unit
Listens m (recorded _) = Unit
Listens m (replied _) = Unit
Listens m returned = Unit
Listens m panicked = Unit

abbrev pub Fresh : Running → ℕ → Type 0
Fresh m n = (k : JobKey) (inst : RunningInstance) → get k m ≡ some inst → inst.cancel < n

abbrev pub Distinct : Running → Type 0
Distinct m =
    (j k : JobKey) (a b : RunningInstance)
    → get j m ≡ some a
    → get k m ≡ some b
    → a.cancel ≡ b.cancel
    → j ≡ k

pub record IsWired (s : SchedulerInner) : Type 0 where
  pub listens : (i : ℕ) (t : Task) → get_elem? s.tasks i ≡ some t → Listens s.running t
  pub fresh : Fresh s.running s.notifies
  pub distinct : Distinct s.running

-- What a step of the task `i` leaves, with the task as it then stands.
pub record Wires (i : ℕ) (u : Task) (tasks : List Task) (m : Running) (n : ℕ) : Type 0 where
  pub others : (j : ℕ) (v : Task) → eqb i j ≡ false → get_elem? tasks j ≡ some v → Listens m v
  pub self : Listens m u
  pub fresh : Fresh m n
  pub distinct : Distinct m

pub get_elem?-split :
    (xs ys : List Task) (j : ℕ) (w : Task)
    → get_elem? (xs ++ ys) j ≡ some w
    → (get_elem? xs j ≡ some w) ⊎ ((k : ℕ) × (get_elem? ys k ≡ some w))
get_elem?-split [] ys j w h = inr (j, h)
get_elem?-split (x ∷ xs) ys zero w h = inl h
get_elem?-split (x ∷ xs) ys (suc j) w h = get_elem?-split xs ys j w h

pub put_back-IsWired :
    (s : SchedulerInner) (i : ℕ) (t u : Task)
    → get_elem? s.tasks i ≡ some t
    → Wires i u s.tasks s.running s.notifies
    → IsWired (record s { tasks = set s.tasks i u })
put_back-IsWired s i t u at_i w = record {
  listens = λ j v h. elim (Bool-cases (eqb i j)) [
    | inl same ↦
        subst (Listens s.running)
          (some-injective u v (
            sym (set_self s.tasks i t u at_i)
            ∙ ap (get_elem? (set s.tasks i u)) ((eqb_iff i j).0 same)
            ∙ h))
          w.self
    | inr other ↦ w.others j v other (sym (set_other s.tasks i j u other) ∙ h)
  ];
  fresh = w.fresh;
  distinct = w.distinct;
}

-- Two tasks that own a key are counted twice.
pub count-two :
    (p : Task → Bool) (xs : List Task) (i j : ℕ) (a b : Task)
    → get_elem? xs i ≡ some a
    → get_elem? xs j ≡ some b
    → eqb i j ≡ false
    → p a ≡ true
    → p b ≡ true
    → 2 ≤ count p xs
count-two p [] i j a b hi hj d pa pb = cc
count-two p (x ∷ xs) zero zero a b hi hj d pa pb = cc
count-two p (x ∷ xs) zero (suc j) a b hi hj d pa pb =
    ground (arith, some-injective x a hi, pa, pb, count-get_elem? p xs j b hj)
count-two p (x ∷ xs) (suc i) zero a b hi hj d pa pb =
    ground (arith, some-injective x b hj, pa, pb, count-get_elem? p xs i a hi)
count-two p (x ∷ xs) (suc i) (suc j) a b hi hj d pa pb =
    omega (arith, count-two p xs i j a b hi hj (ground (arith, d)) pa pb)

-- What a lookup in the map with a new entry finds.
get_inserted :
    (m : Running) (key k : JobKey) (inst a : RunningInstance)
    → get k (insert key inst m) ≡ some a
    → ((key ≡ k) × (inst ≡ a)) ⊎ (get k m ≡ some a)
get_inserted m key k inst a there = elim (Bool-cases (key == k)) [
  | inl same ↦ inl (
    (==_iff key k).0 same,
    some-injective inst a (sym (get-insert key k inst m ∙ rw same refl) ∙ there),
  )
  | inr other ↦ inr (sym (get-insert key k inst m ∙ rw other refl) ∙ there)
]

-- A new entry whose handle is the next number.
pub insert-Fresh :
    (m : Running) (n : ℕ) (key : JobKey) (inst : RunningInstance)
    → inst.cancel ≡ n
    → Fresh m n
    → Fresh (insert key inst m) (n + 1)
insert-Fresh m n key inst h f k a there = elim (get_inserted m key k inst a there) [
  | inl (same, is_new) ↦ omega (arith, h, ap (λ i. i.cancel) is_new)
  | inr old ↦ omega (arith, f k a old)
]

pub insert-Distinct :
    (m : Running) (n : ℕ) (key : JobKey) (inst : RunningInstance)
    → inst.cancel ≡ n
    → Fresh m n
    → Distinct m
    → Distinct (insert key inst m)
insert-Distinct m n key inst h f d j k a b at_j at_k same =
    both (get_inserted m key j inst a at_j) (get_inserted m key k inst b at_k)
  where
    both :
        ((key ≡ j) × (inst ≡ a)) ⊎ (get j m ≡ some a)
        → ((key ≡ k) × (inst ≡ b)) ⊎ (get k m ≡ some b)
        → j ≡ k
    both (inl (is_j, new_a)) (inl (is_k, new_b)) = sym is_j ∙ is_k
    both (inl (is_j, new_a)) (inr old) =
        absurd (omega (arith, h, same, f k b old, ap (λ i. i.cancel) new_a))
    both (inr old) (inl (is_k, new_b)) =
        absurd (omega (arith, h, same, f j a old, ap (λ i. i.cancel) new_b))
    both (inr old_a) (inr old_b) = d j k a b old_a old_b same

-- What a lookup finds after a removal was there before.
pub get_kept :
    (m : Running) (key k : JobKey) (a : RunningInstance)
    → get k (remove key m) ≡ some a
    → get k m ≡ some a
get_kept m key k a there = ground (arith, there, get-remove key k m)
