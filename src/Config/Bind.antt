-- ===== src/Config/Bind.antt =====
-- src/config.rs: is the listen address a loopback address?
use cron_manager.Base.{Bool, false, ◌||◌, Option, none, some, [], ◌∷◌, is_empty, if◌then◌else◌, eqb}
use cron_manager.Base.Eq.{list_beq}
use cron_manager.Base.Text.{Text, codes, split_parts, rsplit_once}
use cron_manager.Security.Ip.{IpAddr, is_loopback}

unfoldable pub bind_host : Text → Text
unfolding split_parts rsplit_once
bind_host [] = []
bind_host (c ∷ s) =
    if eqb c b'['
    then (split_parts (λ d. eqb d b']') s).0
    else elim (rsplit_once b':' (c ∷ s)) [ some (h, p) ↦ h | none ↦ c ∷ s ]

module _ (parse_ip : Text → Option IpAddr) where
  unfoldable pub bind_is_loopback : Text → Bool
  unfolding bind_host is_loopback
  bind_is_loopback bind =
      let host = bind_host bind in
      if is_empty host || list_beq host (codes "*") then false else elim (parse_ip host) [
        | some ip ↦ is_loopback ip
        | none ↦ list_beq host (codes "localhost")
      ]
