-- ===== src/Ssrf.antt =====
-- The guard against server-side request forgery: src/security/ssrf.rs. The address classes are those
-- of `std::net`. Octets and segments are numbers below 256 and 65536, which `IsValid` states.
pub mod Ranges
pub mod Exceptions
pub mod Dns
mod Tests
use Prim.Native.Nat.{bit_and}
use earl.Prelude.{
  ℕ, ◌*◌, ◌+◌, ◌/◌, ◌%◌, ◌<◌, Bool, true, false, not, ◌&&◌, ◌||◌, Option, none, some, leb, within,
  ◌==◌, if◌then◌else◌, Result, ok, err,
}

pub record Ipv4Addr : Type 0 where
  pub a : ℕ
  pub b : ℕ
  pub c : ℕ
  pub d : ℕ

pub record Ipv6Addr : Type 0 where
  pub s0 : ℕ
  pub s1 : ℕ
  pub s2 : ℕ
  pub s3 : ℕ
  pub s4 : ℕ
  pub s5 : ℕ
  pub s6 : ℕ
  pub s7 : ℕ

pub data IpAddr : Type 0 where
  v4 : Ipv4Addr → IpAddr
  v6 : Ipv6Addr → IpAddr

abbrev pub octets_eq : Ipv4Addr → ℕ → ℕ → ℕ → ℕ → Bool
octets_eq ip a b c d = ip.a == a && ip.b == b && ip.c == c && ip.d == d

abbrev pub is_private : Ipv4Addr → Bool
is_private ip = ip.a == 10 || ip.a == 172 && within 16 31 ip.b || ip.a == 192 && ip.b == 168

abbrev pub is_loopback : Ipv4Addr → Bool
is_loopback ip = ip.a == 127

abbrev pub is_link_local : Ipv4Addr → Bool
is_link_local ip = ip.a == 169 && ip.b == 254

abbrev pub is_multicast : Ipv4Addr → Bool
is_multicast ip = within 224 239 ip.a

abbrev pub is_broadcast : Ipv4Addr → Bool
is_broadcast ip = octets_eq ip 255 255 255 255

abbrev pub is_unspecified : Ipv4Addr → Bool
is_unspecified ip = octets_eq ip 0 0 0 0

abbrev pub is_documentation : Ipv4Addr → Bool
is_documentation ip =
    ip.a == 192 && ip.b == 0 && ip.c == 2
    || ip.a == 198 && ip.b == 51 && ip.c == 100
    || ip.a == 203 && ip.b == 0 && ip.c == 113

unfoldable pub is_ipv4_shared_space : Ipv4Addr → Bool
is_ipv4_shared_space ip = ip.a == 100 && bit_and ip.b 0b1100_0000 == 0b0100_0000

unfoldable pub is_ipv4_reserved_range : Ipv4Addr → Bool
is_ipv4_reserved_range ip = leb 240 ip.a

unfoldable pub is_ipv4_benchmarking : Ipv4Addr → Bool
is_ipv4_benchmarking ip = ip.a == 198 && (ip.b == 18 || ip.b == 19)

unfoldable pub is_ipv4_ietf_protocol_assignments : Ipv4Addr → Bool
is_ipv4_ietf_protocol_assignments ip = ip.a == 192 && ip.b == 0 && ip.c == 0

-- The arm of `is_blocked_ip` for `IpAddr::V4`.
unfoldable pub is_blocked_ipv4 : Ipv4Addr → Bool → Bool
unfolding is_ipv4_shared_space is_ipv4_reserved_range is_ipv4_benchmarking
    is_ipv4_ietf_protocol_assignments
is_blocked_ipv4 ip allow_private_ips =
    not allow_private_ips && (is_private ip || is_loopback ip)
    || is_link_local ip
    || is_multicast ip
    || is_broadcast ip
    || is_unspecified ip
    || is_ipv4_reserved_range ip
    || is_documentation ip
    || is_ipv4_shared_space ip
    || is_ipv4_benchmarking ip
    || is_ipv4_ietf_protocol_assignments ip
    || octets_eq ip 169 254 169 254
    || octets_eq ip 100 100 100 200

abbrev pub segments_eq : Ipv6Addr → ℕ → ℕ → ℕ → ℕ → ℕ → ℕ → ℕ → ℕ → Bool
segments_eq ip s0 s1 s2 s3 s4 s5 s6 s7 =
    ip.s0 == s0
    && ip.s1 == s1
    && ip.s2 == s2
    && ip.s3 == s3
    && ip.s4 == s4
    && ip.s5 == s5
    && ip.s6 == s6
    && ip.s7 == s7

abbrev pub is_mapped : Ipv6Addr → Bool
is_mapped ip = ip.s0 == 0 && ip.s1 == 0 && ip.s2 == 0 && ip.s3 == 0 && ip.s4 == 0 && ip.s5 == 0xFFFF

-- The IPv4 address in the last 32 bits.
abbrev pub embedded : Ipv6Addr → Ipv4Addr
embedded ip = record { a = ip.s6 / 256; b = ip.s6 % 256; c = ip.s7 / 256; d = ip.s7 % 256 }

abbrev pub to_ipv4_mapped : Ipv6Addr → Option Ipv4Addr
to_ipv4_mapped ip = if is_mapped ip then some (embedded ip) else none

abbrev pub is_v6_loopback : Ipv6Addr → Bool
is_v6_loopback ip = segments_eq ip 0 0 0 0 0 0 0 1

abbrev pub is_v6_unspecified : Ipv6Addr → Bool
is_v6_unspecified ip = segments_eq ip 0 0 0 0 0 0 0 0

abbrev pub is_unique_local : Ipv6Addr → Bool
is_unique_local ip = bit_and ip.s0 0xFE00 == 0xFC00

abbrev pub is_v6_multicast : Ipv6Addr → Bool
is_v6_multicast ip = ip.s0 / 256 == 0xFF

abbrev pub is_unicast_link_local : Ipv6Addr → Bool
is_unicast_link_local ip = bit_and ip.s0 0xFFC0 == 0xFE80

unfoldable pub is_ipv6_documentation : Ipv6Addr → Bool
is_ipv6_documentation ip = ip.s0 == 0x2001 && ip.s1 == 0x0DB8

unfoldable pub is_ipv6_site_local : Ipv6Addr → Bool
is_ipv6_site_local ip = bit_and ip.s0 0xFFC0 == 0xFEC0

unfoldable pub is_ipv6_metadata : Ipv6Addr → Bool
is_ipv6_metadata ip =
    segments_eq ip 0xFD00 0xEC2 0 0 0 0 0 0x254 || segments_eq ip 0 0 0 0 0 0xFFFF 0xA9FE 0xA9FE

-- The arm for `IpAddr::V6` behind its early return.
unfoldable pub is_blocked_native_ipv6 : Ipv6Addr → Bool → Bool
unfolding is_ipv6_documentation is_ipv6_site_local is_ipv6_metadata
is_blocked_native_ipv6 ip allow_private_ips =
    not allow_private_ips && (is_v6_loopback ip || is_unique_local ip || is_ipv6_site_local ip)
    || is_v6_unspecified ip
    || is_v6_multicast ip
    || is_unicast_link_local ip
    || is_ipv6_documentation ip
    || is_ipv6_metadata ip

unfoldable pub is_blocked_ip : IpAddr → Bool → Bool
unfolding is_blocked_ipv4 is_blocked_native_ipv6
is_blocked_ip (v4 ip) allow_private_ips = is_blocked_ipv4 ip allow_private_ips
is_blocked_ip (v6 ip) allow_private_ips = elim (to_ipv4_mapped ip) [
  | some mapped ↦ is_blocked_ipv4 mapped allow_private_ips
  | none ↦ is_blocked_native_ipv6 ip allow_private_ips
]

pub data SsrfError : Type 0 where
  blocked : IpAddr → SsrfError

unfoldable pub ensure_safe_ip : IpAddr → Bool → Result SsrfError (Unit {0})
unfolding is_blocked_ip
ensure_safe_ip ip allow_private_ips =
    if is_blocked_ip ip allow_private_ips then err (blocked ip) else ok tt

-- What the types `u8` and `u16` give.
pub record IsValid (ip : Ipv4Addr) : Type 0 where
  pub a : ip.a < 256
  pub b : ip.b < 256
  pub c : ip.c < 256
  pub d : ip.d < 256
