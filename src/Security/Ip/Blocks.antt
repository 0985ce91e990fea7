-- ===== src/Security/Ip/Blocks.antt =====
-- The address blocks as CIDR ranges, independently of the tests in the code.
use cron_manager.Base.{ℕ, ◌+◌, ◌-◌, ◌*◌, ◌/◌, ◌^◌, ◌<◌, Bool, List, [], ◌∷◌, eqb}
use cron_manager.Security.Ip.{Ipv4Addr, Ipv6Addr, IpAddr, v4, v6}

-- The address as a number of 32 bits.
abbrev pub v4_number : Ipv4Addr → ℕ
v4_number a = a.o0 * 2 ^ 24 + a.o1 * 2 ^ 16 + a.o2 * 2 ^ 8 + a.o3

pub record V4IsValid (a : Ipv4Addr) : Type 0 where
  pub b0 : a.o0 < 256
  pub b1 : a.o1 < 256
  pub b2 : a.o2 < 256
  pub b3 : a.o3 < 256

pub record Cidr : Type 0 where
  pub net : ℕ
  pub host_bits : ℕ

-- `a.b.c.d/len`.
abbrev pub cidr : ℕ → ℕ → ℕ → ℕ → ℕ → Cidr
cidr a b c d len = record { net = a * 2 ^ 24 + b * 2 ^ 16 + c * 2 ^ 8 + d; host_bits = 32 - len }

abbrev pub in_cidr : ℕ → Cidr → Bool
in_cidr n k = eqb (n / 2 ^ k.host_bits) (k.net / 2 ^ k.host_bits)

abbrev pub non_routable : List Cidr
non_routable =
    cidr 127 0 0 0 8
    ∷ cidr 169 254 0 0 16
    ∷ cidr 10 0 0 0 8
    ∷ cidr 172 16 0 0 12
    ∷ cidr 192 168 0 0 16
    ∷ cidr 0 0 0 0 32
    ∷ cidr 100 64 0 0 10
    ∷ cidr 224 0 0 0 4
    ∷ cidr 255 255 255 255 32
    ∷ []

abbrev pub never_allowed : List Cidr
never_allowed =
    cidr 169 254 0 0 16 ∷ cidr 0 0 0 0 32 ∷ cidr 224 0 0 0 4 ∷ cidr 255 255 255 255 32 ∷ []

-- The IPv4-mapped address `::ffff:a.b.c.d`.
abbrev pub mapped : Ipv4Addr → Ipv6Addr
mapped a = record {
  s0 = 0;
  s1 = 0;
  s2 = 0;
  s3 = 0;
  s4 = 0;
  s5 = 0xffff;
  s6 = a.o0 * 256 + a.o1;
  s7 = a.o2 * 256 + a.o3;
}

-- The segments that the masks read are 16 bits wide.
abbrev pub IpIsValid : IpAddr → Type 0
IpIsValid (v4 a) = V4IsValid a
IpIsValid (v6 a) = a.s0 < 65536
