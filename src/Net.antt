-- ===== src/Net.antt =====
-- What the program uses of the standard library's `net` and `time`: addresses by their big-endian
-- value, and durations in nanoseconds.
use amnesia_bgp.Base.{ℕ, ◌*◌, ◌+◌, ◌/◌, List, [], ◌∷◌}

-- An IPv4 address by its 32-bit value, so that `<` on addresses is `<` on numbers.
abbrev pub Ipv4Addr : Type 0
Ipv4Addr = ℕ

-- An IPv6 address by its 128-bit value.
abbrev pub Ipv6Addr : Type 0
Ipv6Addr = ℕ

pub data IpAddr : Type 0 where
  v4 : Ipv4Addr → IpAddr
  v6 : Ipv6Addr → IpAddr

pub record SocketAddr : Type 0 where
  pub ip : IpAddr
  pub port : ℕ

-- The value of bytes, the most significant first, behind those already read.
abbrev pub from_be_bytes : ℕ → List ℕ → ℕ
from_be_bytes acc [] = acc
from_be_bytes acc (b ∷ bs) = from_be_bytes (acc * 256 + b) bs

abbrev pub Duration : Type 0
Duration = ℕ

abbrev pub from_secs : ℕ → Duration
from_secs s = s * 1000000000

-- `Duration / u32`, which drops what is below a nanosecond.
abbrev pub div_duration : Duration → ℕ → Duration
div_duration d k = d / k
