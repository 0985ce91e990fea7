-- ===== src/Router/Reload/Throttle.antt =====
-- What the reload gate lets through.
use cron_manager.Base.{
  ℕ, ◌+◌, ◌-◌, ◌^◌, ◌≤◌, ◌<◌, ◌≡◌, ap, ◌∙◌, some, arith, List, [], ◌∷◌, length, keep, false,
  Bool-cases, inl, inr, sym, subst, All,
}
use cron_manager.Base.Eq.{◌==◌, ==_self, ==_iff, list_eq, nat_eq}
use cron_manager.Base.Map.{Map, get, insert, get-insert}
use cron_manager.Base.Results.{ok, err}
use cron_manager.Base.Text.{Text}
use cron_manager.Router.Reload.Bound.{length-insert, length-evict_stale}
use cron_manager.Router.Reload.{
  elapsed, admit, commit, evict_stale, is_fresh, make_room, saturating_mul, evict_stale_multiplier,
  max_entries,
}

get-commit :
    (now : ℕ) (group : Text) (secs : ℕ) (m : Map Text ℕ)
    → get group (commit now group secs m) ≡ some now
get-commit now group secs m = get-insert group group now room ∙ ground (arith, ==_self group)
  where
    room : Map Text ℕ
    room = make_room group (evict_stale (saturating_mul secs evict_stale_multiplier) now m)

admit_early :
    (now t : ℕ) (group : Text) (secs : ℕ) (m : Map Text ℕ)
    → get group m ≡ some t
    → elapsed now t < secs
    → admit now group secs m ≡ (err (secs - elapsed now t), m)
unfolding admit
admit_early now t group secs m h early = ground arith

admit_let_in :
    (now : ℕ) (group : Text) (secs : ℕ) (m : Map Text ℕ)
    → 1 ≤ secs
    → (admit now group secs m).0 ≡ ok tt
    → (admit now group secs m).1 ≡ commit now group secs m
unfolding admit
admit_let_in now group secs m pos let_in = ground arith

-- What a call leaves of an entry that is younger than the interval, when there is room for one more.
get-keep :
    (stale now t : ℕ) (group : Text) (m : Map Text ℕ)
    → get group m ≡ some t
    → elapsed now t < stale
    → get group (keep (is_fresh stale now) m) ≡ some t
unfolding get
get-keep stale now t group [] h young = cc
get-keep stale now t group ((j, u) ∷ m) h young = ground (arith, get-keep stale now t group m)

get-evict_stale :
    (stale now t : ℕ) (group : Text) (m : Map Text ℕ)
    → get group m ≡ some t
    → elapsed now t < stale
    → get group (evict_stale stale now m) ≡ some t
unfolding evict_stale
get-evict_stale stale now t group m h young = ground (arith, get-keep stale now t group m)

roomy : (group : Text) (m : Map Text ℕ) → length m < max_entries → make_room group m ≡ m
unfolding make_room
roomy group m h = ground arith

-- The calls of a list, each with its time and group, one after the other.
unfoldable pub admit_all : ℕ → List (ℕ × Text) → Map Text ℕ → Map Text ℕ
admit_all secs [] m = m
admit_all secs ((now, group) ∷ calls) m = admit_all secs calls (admit now group secs m).1

module _ (group : Text) (secs t : ℕ) (pos : 1 ≤ secs) (machine : secs < 2 ^ 64) where
  commit_keeps :
      (now : ℕ) (other : Text) (m : Map Text ℕ)
      → get group m ≡ some t
      → elapsed now t < secs
      → length m < max_entries
      → (other == group) ≡ false
      → (get group (commit now other secs m) ≡ some t)
        × (length (commit now other secs m) ≤ length m + 1)
  commit_keeps now other m h young room different =
      let fewer = length-evict_stale stale now m in
      let same : make_room other stayed ≡ stayed = roomy other stayed (omega arith) in
      let kept = get-evict_stale stale now t group m h (omega arith) in
      (
        ap (λ n. get group (insert other now n)) same
            ∙ get-insert other group now stayed
            ∙ rw different kept,
        subst (λ n. length (insert other now n) ≤ length m + 1) (sym same)
            (ground (arith, length-insert other now stayed, fewer)),
      )
    where
      stale : ℕ
      stale = saturating_mul secs evict_stale_multiplier

      stayed : Map Text ℕ
      stayed = evict_stale stale now m

  admit_keeps :
      (now : ℕ) (other : Text) (m : Map Text ℕ)
      → get group m ≡ some t
      → elapsed now t < secs
      → length m < max_entries
      → (get group (admit now other secs m).1 ≡ some t)
        × (length (admit now other secs m).1 ≤ length m + 1)
  unfolding admit
  admit_keeps now other m h young room = elim (Bool-cases (other == group)) [
    | inl same ↦
        let unchanged = ap (λ a. a.1) (admit_early now t group secs m h young) in
        let is_group = (==_iff other group).0 same in
        subst
          (λ g.
            (get group (admit now g secs m).1 ≡ some t)
            × (length (admit now g secs m).1 ≤ length m + 1))
          (sym is_group)
          (subst (λ n. (get group n ≡ some t) × (length n ≤ length m + 1)) (sym unchanged)
            (h, omega arith))
    | inr different ↦ ground (arith, commit_keeps now other m h young room different)
  ]

  admit_all-keeps :
      (calls : List (ℕ × Text)) (m : Map Text ℕ)
      → get group m ≡ some t
      → All (λ call. elapsed call.0 t < secs) calls
      → length m + length calls ≤ max_entries
      → get group (admit_all secs calls m) ≡ some t
  unfolding admit_all
  admit_all-keeps [] m h young room = h
  admit_all-keeps ((now, other) ∷ calls) m h (y, ys) room =
      let (kept, grown) = admit_keeps now other m h y (omega arith) in
      admit_all-keeps calls (admit now other secs m).1 kept ys (omega arith)

-- With a positive interval, a `u64`, suppose that `admit` lets a group through, and that calls for
-- any groups follow, all in less than the interval after it, and no more of them than the map has
-- room for entries. Then a call for the group in less than the interval is refused, is told to wait
-- for the rest of the interval, at least one second and at most all of it, and changes nothing.
pub admit_twice :
    (now later : ℕ) (group : Text) (secs : ℕ) (m : Map Text ℕ) (calls : List (ℕ × Text))
    → 1 ≤ secs
    → secs < 2 ^ 64
    → (admit now group secs m).0 ≡ ok tt
    → All (λ call. elapsed call.0 now < secs) calls
    → length (admit now group secs m).1 + length calls ≤ max_entries
    → elapsed later now < secs
    → (admit later group secs (admit_all secs calls (admit now group secs m).1)
        ≡ (err (secs - elapsed later now), admit_all secs calls (admit now group secs m).1))
      × (1 ≤ secs - elapsed later now)
      × (secs - elapsed later now ≤ secs)
admit_twice now later group secs m calls pos machine let_in between room early = (
  admit_early later now group secs (admit_all secs calls (admit now group secs m).1)
      (admit_all-keeps group secs now pos machine calls (admit now group secs m).1
        (ap (get group) (admit_let_in now group secs m pos let_in) ∙ get-commit now group secs m)
        between room)
      early,
  omega arith,
  omega arith,
)
