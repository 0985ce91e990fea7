-- ===== src/Router/Reload.antt =====
-- src/router.rs: `ReloadGate`. Its map is the state; an instant is a count of nanoseconds. A
-- `HashMap` has no order: of entries equally old, the model takes the first.
pub mod Bound
pub mod Throttle
use cron_manager.Base.{
  ℕ, ◌+◌, ◌-◌, ◌*◌, ◌/◌, ◌^◌, min, Bool, true, false, ◌&&◌, not, Option, none, some, List, [], ◌∷◌,
  if◌then◌else◌, ltb, leb, length, keep,
}
use cron_manager.Base.Eq.{Eq, list_eq, nat_eq}
use cron_manager.Base.Map.{Map, get, contains_key, insert, remove}
use cron_manager.Base.Results.{Result, ok, err}
use cron_manager.Base.Text.{Text}

abbrev pub evict_stale_multiplier : ℕ
evict_stale_multiplier = 10

abbrev pub max_entries : ℕ
max_entries = 1024

-- `now.duration_since(t).as_secs()`, which is 0 for a later `t`.
abbrev pub elapsed : ℕ → ℕ → ℕ
elapsed now t = (now - t) / 1000000000

-- `u64::saturating_mul`.
abbrev pub saturating_mul : ℕ → ℕ → ℕ
saturating_mul a b = min (a * b) (2 ^ 64 - 1)

-- The entry that is oldest, of an entry and those after it.
unfoldable pub oldest : Text → ℕ → Map Text ℕ → Text
oldest k t [] = k
oldest k t ((j, u) ∷ m) =
    let newer = oldest j u m in let kept = oldest k t m in if ltb u t then newer else kept

unfoldable pub remove_oldest : Map Text ℕ → Map Text ℕ
unfolding oldest
remove_oldest [] = []
remove_oldest ((k, t) ∷ m) = remove (oldest k t m) ((k, t) ∷ m)

abbrev pub is_fresh : ℕ → ℕ → Text × ℕ → Bool
is_fresh stale_after now e = ltb (elapsed now e.1) stale_after

unfoldable pub evict_stale : ℕ → ℕ → Map Text ℕ → Map Text ℕ
evict_stale stale_after now m = if ltb 0 stale_after then keep (is_fresh stale_after now) m else m

unfoldable pub make_room : Text → Map Text ℕ → Map Text ℕ
unfolding remove_oldest
make_room group m =
    if leb max_entries (length m) && not (contains_key group m) then remove_oldest m else m

-- The write path.
abbrev pub commit : ℕ → Text → ℕ → Map Text ℕ → Map Text ℕ
commit now group secs m =
    insert group now
      (make_room group (evict_stale (saturating_mul secs evict_stale_multiplier) now m))

abbrev pub too_early : ℕ → ℕ → Option ℕ → Bool
too_early now secs none = false
too_early now secs (some t) = ltb (elapsed now t) secs

abbrev pub wait_of : ℕ → ℕ → Option ℕ → ℕ
wait_of now secs none = 0
wait_of now secs (some t) = secs - elapsed now t

-- `admit`, with the map it leaves.
unfoldable pub admit : ℕ → Text → ℕ → Map Text ℕ → Result {0, 0} Unit ℕ × Map Text ℕ
unfolding evict_stale make_room
admit now group secs m =
    if leb secs 0
    then (ok tt, m)
    else if too_early now secs (get group m)
    then (err (wait_of now secs (get group m)), m)
    else (ok tt, commit now group secs m)
