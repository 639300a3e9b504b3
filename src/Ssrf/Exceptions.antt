-- ===== src/Ssrf/Exceptions.antt =====
-- What the flag `allow_private_ips` of src/security/ssrf.rs can change, and what it cannot.
use earl.Prelude.{
  ◌<◌, ◌≡◌, refl, ◌⊎◌, ◌∙◌, Bool, true, false, ◌||◌, none, some, arith, if◌then◌else◌, inl, inr,
  err,
}
use earl.Ssrf.{
  Ipv4Addr, Ipv6Addr, IpAddr, v4, v6, IsValid, is_blocked_ipv4, is_blocked_native_ipv6,
  is_blocked_ip, is_mapped, embedded, is_private, is_loopback, octets_eq, segments_eq, blocked,
  is_v6_loopback, is_unique_local, is_ipv6_site_local, ensure_safe_ip,
}

-- The addresses that the flag may unblock, of either family; a mapped address counts as the
-- IPv4 address that it embeds.
abbrev pub is_exempt : IpAddr → Bool
is_exempt (v4 ip) = is_private ip || is_loopback ip
is_exempt (v6 ip) =
    if is_mapped ip
    then is_private (embedded ip) || is_loopback (embedded ip)
    else is_v6_loopback ip || is_unique_local ip || is_ipv6_site_local ip

-- Regrouping the chains of tests of the two families.
front_v4 :
    (p a b c d e f g h i j k : Bool)
    → (p || a || b || c || d || e || f || g || h || i || j || k)
      ≡ (p || (a || b || c || d || e || f || g || h || i || j || k))
front_v4 true a b c d e f g h i j k = refl
front_v4 false a b c d e f g h i j k = refl

front_v6 : (p a b c d e : Bool) → (p || a || b || c || d || e) ≡ (p || (a || b || c || d || e))
front_v6 true a b c d e = refl
front_v6 false a b c d e = refl

v4_flag :
    (ip : Ipv4Addr)
    → is_blocked_ipv4 ip false ≡ (is_private ip || is_loopback ip || is_blocked_ipv4 ip true)
unfolding is_blocked_ipv4
v4_flag ip = front_v4 (is_private ip || is_loopback ip) _ _ _ _ _ _ _ _ _ _ _

v6_flag :
    (ip : Ipv6Addr)
    → is_blocked_native_ipv6 ip false ≡ (
        is_v6_loopback ip
        || is_unique_local ip
        || is_ipv6_site_local ip
        || is_blocked_native_ipv6 ip true)
unfolding is_blocked_native_ipv6
v6_flag ip = front_v6 (is_v6_loopback ip || is_unique_local ip || is_ipv6_site_local ip) _ _ _ _ _

verdict : Bool → Ipv6Addr → Bool → Bool
verdict mapped ip flag = elim (if mapped then some (embedded ip) else none) [
  | some v ↦ is_blocked_ipv4 v flag
  | none ↦ is_blocked_native_ipv6 ip flag
]

verdict_flag :
    (mapped : Bool) (ip : Ipv6Addr)
    → verdict mapped ip false ≡ (
        (if mapped
          then is_private (embedded ip) || is_loopback (embedded ip)
          else is_v6_loopback ip || is_unique_local ip || is_ipv6_site_local ip)
        || verdict mapped ip true)
unfolding verdict
verdict_flag true ip = v4_flag (embedded ip)
verdict_flag false ip = v6_flag ip

-- Without the flag the guard blocks what it blocks with the flag, and the exempt addresses.
pub is_blocked_ip-false :
    (ip : IpAddr) → is_blocked_ip ip false ≡ (is_exempt ip || is_blocked_ip ip true)
unfolding is_blocked_ip verdict
is_blocked_ip-false (v4 ip) = v4_flag ip
is_blocked_ip-false (v6 ip) = verdict_flag (is_mapped ip) ip

-- An address that embeds an IPv4 address has the verdict of that address, with or without the flag.
pub is_blocked_ip-mapped :
    (ip : Ipv6Addr) (flag : Bool)
    → is_mapped ip ≡ true
    → is_blocked_ip (v6 ip) flag ≡ is_blocked_ip (v4 (embedded ip)) flag
unfolding is_blocked_ip
is_blocked_ip-mapped ip flag m = ground arith

embedded-IsValid : (ip : Ipv6Addr) → ip.s6 < 65536 → ip.s7 < 65536 → IsValid (embedded ip)
embedded-IsValid ip h k = omega arith

-- The addresses where cloud providers serve instance metadata: the IPv4 link-local network and
-- 100.100.100.200, in either family, and fd00:ec2::254.
abbrev pub IsMetadataV4 : Ipv4Addr → Type 0
IsMetadataV4 ip = ((ip.a ≡ 169) × (ip.b ≡ 254)) ⊎ (octets_eq ip 100 100 100 200 ≡ true)

abbrev pub IsMetadata : IpAddr → Type 0
IsMetadata (v4 ip) = IsMetadataV4 ip
IsMetadata (v6 ip) =
    ((is_mapped ip ≡ true) × IsMetadataV4 (embedded ip))
    ⊎ (segments_eq ip 0xFD00 0xEC2 0 0 0 0 0 0x254 ≡ true)

metadata_v4_blocked :
    (ip : Ipv4Addr) (flag : Bool) → IsMetadataV4 ip → is_blocked_ipv4 ip flag ≡ true
unfolding is_blocked_ipv4
metadata_v4_blocked ip flag m = ground arith

metadata_v6_blocked :
    (ip : Ipv6Addr) (flag : Bool)
    → segments_eq ip 0xFD00 0xEC2 0 0 0 0 0 0x254 ≡ true
    → is_blocked_ip (v6 ip) flag ≡ true
unfolding is_blocked_ip
metadata_v6_blocked ip flag m = ground arith

metadata_blocked : (ip : IpAddr) (flag : Bool) → IsMetadata ip → is_blocked_ip ip flag ≡ true
metadata_blocked (v4 ip) flag m = unfold is_blocked_ip in metadata_v4_blocked ip flag m
metadata_blocked (v6 ip) flag (inl (mapped, m)) =
    is_blocked_ip-mapped ip flag mapped
    ∙ unfold is_blocked_ip in metadata_v4_blocked (embedded ip) flag m
metadata_blocked (v6 ip) flag (inr m) = metadata_v6_blocked ip flag m

-- The metadata addresses are refused in either family, with or without the flag.
pub ensure_safe_ip-metadata :
    (ip : IpAddr) (flag : Bool) → IsMetadata ip → ensure_safe_ip ip flag ≡ err (blocked ip)
unfolding ensure_safe_ip
ensure_safe_ip-metadata ip flag m = rw (metadata_blocked ip flag m)
