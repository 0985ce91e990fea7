-- ===== src/Router/Reload/Bound.antt =====
-- The size of the map of the reload gate.
use cron_manager.Base.{ℕ, ◌+◌, ◌≤◌, ◌≡◌, Bool, true, [], ◌∷◌, if◌then◌else◌, arith, length, keep}
use cron_manager.Base.Eq.{==_self, list_eq, nat_eq}
use cron_manager.Base.Map.{Map, contains_key, insert, remove}
use cron_manager.Base.Text.{Text}
use cron_manager.Router.Reload.{
  is_fresh, oldest, remove_oldest, evict_stale, make_room, admit, max_entries, saturating_mul,
  evict_stale_multiplier,
}

length-keep : (p : Text × ℕ → Bool) (m : Map Text ℕ) → length (keep p m) ≤ length m
length-keep p [] = omega arith
length-keep p (e ∷ m) = ground (arith, length-keep p m)

pub length-insert :
    (k : Text) (v : ℕ) (m : Map Text ℕ)
    → length (insert k v m) ≡ length m + (if contains_key k m then 0 else 1)
unfolding insert contains_key
length-insert k v [] = omega arith
length-insert k v ((j, w) ∷ m) = ground (arith, length-insert k v m)

length-remove : (k : Text) (m : Map Text ℕ) → length (remove k m) ≤ length m
unfolding remove
length-remove k [] = omega arith
length-remove k ((j, w) ∷ m) = ground (arith, length-remove k m)

length-remove_present :
    (k : Text) (m : Map Text ℕ) → contains_key k m ≡ true → length (remove k m) + 1 ≤ length m
unfolding remove contains_key
length-remove_present k [] h = cc
length-remove_present k ((j, w) ∷ m) h =
    ground (arith, length-remove_present k m, length-remove k m)

contains_key-oldest :
    (k : Text) (t : ℕ) (m : Map Text ℕ) → contains_key (oldest k t m) ((k, t) ∷ m) ≡ true
unfolding oldest contains_key
contains_key-oldest k t [] = ground (arith, ==_self k)
contains_key-oldest k t ((j, u) ∷ m) =
    ground (arith, contains_key-oldest j u m, contains_key-oldest k t m)

length-remove_oldest : (m : Map Text ℕ) → 1 ≤ length m → length (remove_oldest m) + 1 ≤ length m
unfolding remove_oldest
length-remove_oldest [] h = omega arith
length-remove_oldest ((k, t) ∷ m) h =
    length-remove_present (oldest k t m) ((k, t) ∷ m) (contains_key-oldest k t m)

pub length-evict_stale :
    (stale now : ℕ) (m : Map Text ℕ) → length (evict_stale stale now m) ≤ length m
unfolding evict_stale
length-evict_stale stale now m = ground (arith, length-keep (is_fresh stale now) m)

length-make_room :
    (group : Text) (now : ℕ) (m : Map Text ℕ)
    → length m ≤ max_entries
    → length (insert group now (make_room group m)) ≤ max_entries
unfolding make_room
length-make_room group now m h = ground (
  arith,
  length-insert group now m,
  length-insert group now (remove_oldest m),
  length-remove_oldest m,
)

-- A call of `admit` on a map of at most 1024 entries, at any time and for any group and interval,
-- leaves a map of at most 1024 entries.
pub length-admit :
    (now : ℕ) (group : Text) (secs : ℕ) (m : Map Text ℕ)
    → length m ≤ max_entries
    → length (admit now group secs m).1 ≤ max_entries
unfolding admit
length-admit now group secs m h =
    ground
      (arith, length-make_room group now stayed (omega (arith, length-evict_stale stale now m)))
  where
    stale : ℕ
    stale = saturating_mul secs evict_stale_multiplier

    stayed : Map Text ℕ
    stayed = evict_stale stale now m
