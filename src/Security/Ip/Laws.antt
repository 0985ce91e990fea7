-- ===== src/Security/Ip/Laws.antt =====
-- The tests of the code against the blocks, for addresses of both families.
use Prim.Native.Nat.{bit_and}
use mathlib.Core.Option.{none, some, some-injective}
use cron_manager.Base.{if◌then◌else◌, ◌≤◌, Bool-cases, subst, inl, inr}
use cron_manager.Base.{
  ℕ, zero, suc, ◌/◌, ◌<◌, ◌≡◌, refl, Bool, true, false, any, eqb, arith, ltb, leb, ◌||◌, ◌&&◌, ◌%◌,
  ap,
}
use cron_manager.Security.Ip.{
  Ipv4Addr, Ipv6Addr, IpAddr, v4, v6, to_ipv4_mapped, v4_is_private_or_local, v4_is_always_blocked,
  is_private_or_local, is_always_blocked,
}
use cron_manager.Security.Ip.Blocks.{
  V4IsValid, v4_number, in_cidr, non_routable, never_allowed, cidr, mapped, IpIsValid,
}

module _ (a : Ipv4Addr) (v : V4IsValid a) where
  in_8 : (k : ℕ) → in_cidr (v4_number a) (cidr k 0 0 0 8) ≡ eqb a.o0 k
  in_8 k = ground arith

  in_16 : (k l : ℕ) → l < 256 → in_cidr (v4_number a) (cidr k l 0 0 16) ≡ (eqb a.o0 k && eqb a.o1 l)
  in_16 k l h = ground arith

  in_32 :
      (k l m n : ℕ)
      → l < 256
      → m < 256
      → n < 256
      → in_cidr (v4_number a) (cidr k l m n 32)
        ≡ (eqb a.o0 k && eqb a.o1 l && eqb a.o2 m && eqb a.o3 n)
  in_32 k l m n p q r = ground arith

  in_172 : in_cidr (v4_number a) (cidr 172 16 0 0 12) ≡ (eqb a.o0 172 && leb 16 a.o1 && leb a.o1 31)
  in_172 = ground arith

  in_100 :
      in_cidr (v4_number a) (cidr 100 64 0 0 10) ≡ (eqb a.o0 100 && leb 64 a.o1 && leb a.o1 127)
  in_100 = ground arith

  in_224 : in_cidr (v4_number a) (cidr 224 0 0 0 4) ≡ (leb 224 a.o0 && leb a.o0 239)
  in_224 = ground arith

  v4_is_private_or_local-blocks :
      v4_is_private_or_local a ≡ any (in_cidr (v4_number a)) non_routable
  unfolding v4_is_private_or_local
  v4_is_private_or_local-blocks = ground (
    arith,
    in_8 127,
    in_16 169 254,
    in_8 10,
    in_172,
    in_16 192 168,
    in_32 0 0 0 0,
    in_100,
    in_224,
    in_32 255 255 255 255,
  )

  v4_is_always_blocked-blocks : v4_is_always_blocked a ≡ any (in_cidr (v4_number a)) never_allowed
  unfolding v4_is_always_blocked
  v4_is_always_blocked-blocks =
      ground (arith, in_16 169 254, in_32 0 0 0 0, in_224, in_32 255 255 255 255)

-- Whether a test passes at every number from `x` down to 0.
passes_to : (ℕ → Bool) → ℕ → Bool
passes_to test zero = test 0
passes_to test (suc x) = if test (suc x) then passes_to test x else false

passes_to_lem :
    (test : ℕ → Bool) (x : ℕ) → passes_to test x ≡ true → (y : ℕ) → y ≤ x → test y ≡ true
unfolding passes_to
passes_to_lem test zero passed y below = subst (λ z. test z ≡ true) (omega arith) passed
passes_to_lem test (suc x) passed y below = elim (Bool-cases (leb y x)) [
  | inl lower ↦ passes_to_lem test x (ground arith) y (ground (arith, lower))
  | inr top ↦ subst (λ z. test z ≡ true) {x = suc x} (ground (arith, top)) (ground arith)
]

-- An IPv4 address is refused by default exactly when it lies in one of the blocks loopback,
-- link-local, the three private ranges, 0.0.0.0, carrier-grade NAT, multicast and broadcast; for
-- a listed host the blocks are link-local, 0.0.0.0, multicast and broadcast.
pub v4-blocks :
    (a : Ipv4Addr)
    → V4IsValid a
    → (is_private_or_local (v4 a) ≡ any (in_cidr (v4_number a)) non_routable)
      × (is_always_blocked (v4 a) ≡ any (in_cidr (v4_number a)) never_allowed)
unfolding is_private_or_local is_always_blocked
v4-blocks a v = (v4_is_private_or_local-blocks a v, v4_is_always_blocked-blocks a v)

abbrev bool_eq : Bool → Bool → Bool
bool_eq true b = b
bool_eq false true = false
bool_eq false false = true

-- A mask of leading bits selects a range of segments.
abbrev mask_agrees : ℕ → Bool
mask_agrees x =
    bool_eq (eqb (bit_and x 0xffc0) 0xfe80) (leb 0xfe80 x && ltb x 0xfec0)
    && bool_eq (eqb (bit_and x 0xfe00) 0xfc00) (leb 0xfc00 x && ltb x 0xfe00)
    && bool_eq (eqb (bit_and x 0xff00) 0xff00) (leb 0xff00 x)

mask_table : passes_to mask_agrees 65535 ≡ true
unfolding passes_to
mask_table = refl

masks : (x : ℕ) → x < 65536 → mask_agrees x ≡ true
masks x h = passes_to_lem mask_agrees 65535 mask_table x (omega arith)

fe80_range : (x : ℕ) → x < 65536 → eqb (bit_and x 0xffc0) 0xfe80 ≡ (leb 0xfe80 x && ltb x 0xfec0)
fe80_range x h = ground (arith, masks x h)

fc00_range : (x : ℕ) → x < 65536 → eqb (bit_and x 0xfe00) 0xfc00 ≡ (leb 0xfc00 x && ltb x 0xfe00)
fc00_range x h = ground (arith, masks x h)

ff00_range : (x : ℕ) → x < 65536 → eqb (bit_and x 0xff00) 0xff00 ≡ leb 0xff00 x
ff00_range x h = ground (arith, masks x h)

v4_always-private : (a : Ipv4Addr) → v4_is_always_blocked a ≡ true → v4_is_private_or_local a ≡ true
unfolding v4_is_always_blocked v4_is_private_or_local
v4_always-private a h = ground arith

-- What stays refused for a listed host is also refused for any other: listing a host never
-- closes an address.
pub always_blocked-private :
    (ip : IpAddr) → IpIsValid ip → is_always_blocked ip ≡ true → is_private_or_local ip ≡ true
unfolding is_always_blocked is_private_or_local
always_blocked-private (v4 a) v h = v4_always-private a h
always_blocked-private (v6 a) v h = ground (
  arith,
  fe80_range a.s0 v,
  fc00_range a.s0 v,
  ff00_range a.s0 v,
  v4_always-private (record { o0 = a.s6 / 256; o1 = a.s6 % 256; o2 = a.s7 / 256; o3 = a.s7 % 256 }),
)

to_ipv4_mapped-mapped : (a : Ipv4Addr) → V4IsValid a → to_ipv4_mapped (mapped a) ≡ some a
to_ipv4_mapped-mapped a v = ground arith

-- An IPv4 address written as `::ffff:a.b.c.d` is judged as the address itself, by both tests.
pub mapped-v4 :
    (a : Ipv4Addr)
    → V4IsValid a
    → (is_private_or_local (v6 (mapped a)) ≡ is_private_or_local (v4 a))
      × (is_always_blocked (v6 (mapped a)) ≡ is_always_blocked (v4 a))
unfolding is_private_or_local is_always_blocked
mapped-v4 a v =
    let e = some-injective _ _ (to_ipv4_mapped-mapped a v) in
    (ap v4_is_private_or_local e, ap v4_is_always_blocked e)

-- An IPv6 address that maps no IPv4 address is refused by default exactly when it is `::`, `::1`,
-- or lies in fc00::/7, fe80::/10 or ff00::/8.
pub v6_ranges :
    (a : Ipv6Addr)
    → a.s0 < 65536
    → to_ipv4_mapped a ≡ none
    → is_private_or_local (v6 a) ≡ (
        (eqb a.s0 0
          && eqb a.s1 0
          && eqb a.s2 0
          && eqb a.s3 0
          && eqb a.s4 0
          && eqb a.s5 0
          && eqb a.s6 0
          && leb a.s7 1)
        || (leb 0xfc00 a.s0 && ltb a.s0 0xfe00)
        || (leb 0xfe80 a.s0 && ltb a.s0 0xfec0)
        || leb 0xff00 a.s0)
unfolding is_private_or_local
v6_ranges a h n = ground (arith, fe80_range a.s0 h, fc00_range a.s0 h, ff00_range a.s0 h)
