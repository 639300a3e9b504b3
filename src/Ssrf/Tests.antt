-- ===== src/Ssrf/Tests.antt =====
-- Addresses of src/security/ssrf.rs and instances of the theorems.
use earl.Prelude.{
  ℕ, ◌↔◌, Option, some, List, [], ◌∷◌, All, is_empty, ok, true, false, not, ◌&&◌, ◌||◌, ◌≡◌, refl,
  inl, arith, err,
}
use earl.Ssrf.{
  Ipv4Addr, Ipv6Addr, IpAddr, v4, v6, IsValid, is_blocked_ipv4, is_blocked_ip, ensure_safe_ip,
  blocked,
}
use earl.Text.{Text, codes}
use earl.Ssrf.Dns.{DnsError, resolve_and_validate_host, Passes, resolve_and_validate_host_iff}
use earl.Ssrf.Ranges.{private_blocks, hazardous_blocks, in_blocks, is_blocked_ipv4_lem}
use earl.Ssrf.Exceptions.{is_exempt, is_blocked_ip-false, ensure_safe_ip-metadata}

abbrev ipv4 : ℕ → ℕ → ℕ → ℕ → Ipv4Addr
ipv4 a b c d = record { a = a; b = b; c = c; d = d }

abbrev mapped : ℕ → ℕ → Ipv6Addr
mapped hi lo = record { s0 = 0; s1 = 0; s2 = 0; s3 = 0; s4 = 0; s5 = 0xFFFF; s6 = hi; s7 = lo }

-- Public addresses pass, private ones with the flag only; 172.32.0.1 and 100.128.0.1 lie just
-- outside their ranges.
verdicts :
    (is_blocked_ip (v4 (ipv4 8 8 8 8)) false ≡ false)
    × (is_blocked_ip (v4 (ipv4 10 1 2 3)) false ≡ true)
    × (is_blocked_ip (v4 (ipv4 10 1 2 3)) true ≡ false)
    × (is_blocked_ip (v4 (ipv4 172 32 0 1)) false ≡ false)
    × (is_blocked_ip (v4 (ipv4 100 127 0 1)) true ≡ true)
    × (is_blocked_ip (v4 (ipv4 100 128 0 1)) false ≡ false)
    × (is_blocked_ip (v6 (mapped 0xA9FE 0xA9FE)) true ≡ true)
    × (is_blocked_ip (v6 (mapped 0x0A00 1)) true ≡ false)
unfolding is_blocked_ip
verdicts = (refl, refl, refl, refl, refl, refl, refl, refl)

valid : IsValid (ipv4 172 20 0 1)
valid = omega arith

is_blocked_ipv4_lem_example : is_blocked_ipv4 (ipv4 172 20 0 1) false ≡ (
    not false && in_blocks private_blocks (ipv4 172 20 0 1)
    || in_blocks hazardous_blocks (ipv4 172 20 0 1))
is_blocked_ipv4_lem_example = is_blocked_ipv4_lem (ipv4 172 20 0 1) valid false

is_blocked_ip-false_example :
    is_blocked_ip (v6 (mapped 0x0A00 1)) false
    ≡ (is_exempt (v6 (mapped 0x0A00 1)) || is_blocked_ip (v6 (mapped 0x0A00 1)) true)
is_blocked_ip-false_example = is_blocked_ip-false (v6 (mapped 0x0A00 1))

ensure_safe_ip-metadata_example :
    ensure_safe_ip (v6 (mapped 0xA9FE 0xA9FE)) true ≡ err (blocked (v6 (mapped 0xA9FE 0xA9FE)))
ensure_safe_ip-metadata_example =
    ensure_safe_ip-metadata (v6 (mapped 0xA9FE 0xA9FE)) true (inl (refl, inl (refl, refl)))

-- A host with a public address in front of a private one.
abbrev lookup_ip : Text → Option (List IpAddr)
lookup_ip host = some (v4 (ipv4 8 8 8 8) ∷ v4 (ipv4 10 1 2 3) ∷ [])

dns_tests :
    (resolve_and_validate_host (some lookup_ip) (codes "example.com") false
      ≡ err (DnsError.unsafe_address (blocked (v4 (ipv4 10 1 2 3)))))
    × (resolve_and_validate_host (some lookup_ip) (codes "example.com") true
        ≡ ok (v4 (ipv4 8 8 8 8) ∷ v4 (ipv4 10 1 2 3) ∷ []))
unfolding resolve_and_validate_host
dns_tests = (refl, refl)

resolve_and_validate_host_iff_example :
    (resolve_and_validate_host (some lookup_ip) (codes "example.com") true
      ≡ ok (v4 (ipv4 8 8 8 8) ∷ []))
    ↔ ((lookup_ip (codes "example.com") ≡ some (v4 (ipv4 8 8 8 8) ∷ []))
        × (is_empty (v4 (ipv4 8 8 8 8) ∷ []) ≡ false)
        × All (Passes true) (v4 (ipv4 8 8 8 8) ∷ []))
resolve_and_validate_host_iff_example =
    resolve_and_validate_host_iff lookup_ip (codes "example.com") true (v4 (ipv4 8 8 8 8) ∷ [])
