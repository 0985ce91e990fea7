-- ===== src/Security/Ip.antt =====
-- src/security.rs: the classification of addresses for the SSRF checks, with the predicates of
-- `std::net` that it calls.
pub mod Blocks
pub mod Laws
use Prim.Native.Nat.{bit_and}
use cron_manager.Base.{
  ℕ, ◌+◌, ◌*◌, ◌/◌, ◌%◌, Bool, true, false, ◌&&◌, ◌||◌, Option, none, some, eqb, leb, if◌then◌else◌,
  List, [], ◌∷◌,
}
use cron_manager.Base.Eq.{list_beq}

-- `Ipv4Addr`: its four octets.
pub record Ipv4Addr : Type 0 where
  pub o0 : ℕ
  pub o1 : ℕ
  pub o2 : ℕ
  pub o3 : ℕ

-- `Ipv6Addr`: its eight segments of 16 bits.
pub record Ipv6Addr : Type 0 where
  pub s0 : ℕ
  pub s1 : ℕ
  pub s2 : ℕ
  pub s3 : ℕ
  pub s4 : ℕ
  pub s5 : ℕ
  pub s6 : ℕ
  pub s7 : ℕ

pub data IpAddr : Type 0 where
  v4 : Ipv4Addr → IpAddr
  v6 : Ipv6Addr → IpAddr

abbrev pub v4_octets : Ipv4Addr → List ℕ
v4_octets a = a.o0 ∷ a.o1 ∷ a.o2 ∷ a.o3 ∷ []

abbrev pub v6_segments : Ipv6Addr → List ℕ
v6_segments a = a.s0 ∷ a.s1 ∷ a.s2 ∷ a.s3 ∷ a.s4 ∷ a.s5 ∷ a.s6 ∷ a.s7 ∷ []

-- `std::net::Ipv4Addr`.
abbrev v4_is_loopback : Ipv4Addr → Bool
v4_is_loopback a = eqb a.o0 127

abbrev v4_is_link_local : Ipv4Addr → Bool
v4_is_link_local a = eqb a.o0 169 && eqb a.o1 254

abbrev v4_is_private : Ipv4Addr → Bool
v4_is_private a =
    eqb a.o0 10 || (eqb a.o0 172 && leb 16 a.o1 && leb a.o1 31) || (eqb a.o0 192 && eqb a.o1 168)

abbrev v4_is_unspecified : Ipv4Addr → Bool
v4_is_unspecified a = eqb a.o0 0 && eqb a.o1 0 && eqb a.o2 0 && eqb a.o3 0

abbrev v4_is_multicast : Ipv4Addr → Bool
v4_is_multicast a = leb 224 a.o0 && leb a.o0 239

abbrev v4_is_broadcast : Ipv4Addr → Bool
v4_is_broadcast a = eqb a.o0 255 && eqb a.o1 255 && eqb a.o2 255 && eqb a.o3 255

-- `std::net::Ipv6Addr`.
abbrev v6_is_loopback : Ipv6Addr → Bool
v6_is_loopback a = list_beq (v6_segments a) (0 ∷ 0 ∷ 0 ∷ 0 ∷ 0 ∷ 0 ∷ 0 ∷ 1 ∷ [])

abbrev v6_is_unspecified : Ipv6Addr → Bool
v6_is_unspecified a = list_beq (v6_segments a) (0 ∷ 0 ∷ 0 ∷ 0 ∷ 0 ∷ 0 ∷ 0 ∷ 0 ∷ [])

abbrev v6_is_multicast : Ipv6Addr → Bool
v6_is_multicast a = eqb (bit_and a.s0 0xff00) 0xff00

-- `to_ipv4_mapped`: `::ffff:a.b.c.d`.
abbrev pub to_ipv4_mapped : Ipv6Addr → Option Ipv4Addr
to_ipv4_mapped a =
    if eqb a.s0 0 && eqb a.s1 0 && eqb a.s2 0 && eqb a.s3 0 && eqb a.s4 0 && eqb a.s5 0xffff
    then some (record { o0 = a.s6 / 256; o1 = a.s6 % 256; o2 = a.s7 / 256; o3 = a.s7 % 256 })
    else none

unfoldable pub is_loopback : IpAddr → Bool
is_loopback (v4 a) = v4_is_loopback a
is_loopback (v6 a) = v6_is_loopback a

-- The `IpAddr::V4` arm of `is_private_or_local`.
unfoldable pub v4_is_private_or_local : Ipv4Addr → Bool
v4_is_private_or_local a =
    if v4_is_loopback a || v4_is_link_local a || v4_is_private a || v4_is_unspecified a
    then true
    else if eqb a.o0 100 && leb 64 a.o1 && leb a.o1 127
    then true
    else if v4_is_multicast a || v4_is_broadcast a
    then true
    else false

unfoldable pub is_private_or_local : IpAddr → Bool
unfolding v4_is_private_or_local
is_private_or_local (v4 a) = v4_is_private_or_local a
is_private_or_local (v6 a) =
    if v6_is_loopback a || v6_is_unspecified a || v6_is_multicast a
    then true
    else elim (to_ipv4_mapped a) [
      | some b ↦ v4_is_private_or_local b
      | none ↦
          if eqb (bit_and a.s0 0xffc0) 0xfe80
          then true
          else if eqb (bit_and a.s0 0xfe00) 0xfc00
          then true
          else false
    ]

-- The `IpAddr::V4` arm of `is_always_blocked`.
unfoldable pub v4_is_always_blocked : Ipv4Addr → Bool
v4_is_always_blocked a =
    v4_is_link_local a || v4_is_unspecified a || v4_is_multicast a || v4_is_broadcast a

unfoldable pub is_always_blocked : IpAddr → Bool
unfolding v4_is_always_blocked
is_always_blocked (v4 a) = v4_is_always_blocked a
is_always_blocked (v6 a) = elim (to_ipv4_mapped a) [
  | some b ↦ v4_is_always_blocked b
  | none ↦
      v6_is_unspecified a
      || v6_is_multicast a
      || eqb (bit_and a.s0 0xffc0) 0xfe80
      || list_beq (v6_segments a) (0xfd00 ∷ 0x0ec2 ∷ 0 ∷ 0 ∷ 0 ∷ 0 ∷ 0 ∷ 0x0254 ∷ [])
]
