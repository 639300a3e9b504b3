-- ===== src/Ssrf/Ranges.antt =====
-- The verdict of src/security/ssrf.rs on IPv4 addresses as a table of address ranges.
use Prim.Native.Nat.{bit_and}
use earl.Prelude.{
  ◌∙◌, ℕ, zero, suc, ◌+◌, ◌-◌, ◌*◌, ◌^◌, ◌<◌, ◌≡◌, refl, Bool, true, false, not, ◌&&◌, ◌||◌, List,
  [], ◌∷◌, arith, within, ◌==◌,
}
use earl.Ssrf.{
  is_blocked_ipv4, is_link_local, is_multicast, is_broadcast, is_unspecified,
  is_ipv4_reserved_range, is_ipv4_benchmarking, octets_eq, is_ipv4_ietf_protocol_assignments,
  Ipv4Addr, IsValid, is_private, is_loopback, is_ipv4_shared_space,
}

-- The address as one number of 32 bits.
abbrev pub address : Ipv4Addr → ℕ
address ip = ip.a * 16777216 + ip.b * 65536 + ip.c * 256 + ip.d

-- A block of addresses in the notation a.b.c.d/bits.
pub record Cidr : Type 0 where
  pub base : Ipv4Addr
  pub bits : ℕ

abbrev pub cidr : ℕ → ℕ → ℕ → ℕ → ℕ → Cidr
cidr a b c d bits = record { base = record { a = a; b = b; c = c; d = d }; bits = bits }

abbrev pub covers : ℕ → Cidr → Bool
covers n block = within (address block.base) (address block.base + 2 ^ (32 - block.bits) - 1) n

-- The private and loopback networks, and what no flag unblocks.
abbrev pub private_blocks : List Cidr
private_blocks = cidr 10 0 0 0 8 ∷ cidr 172 16 0 0 12 ∷ cidr 192 168 0 0 16 ∷ cidr 127 0 0 0 8 ∷ []

abbrev pub hazardous_blocks : List Cidr
hazardous_blocks =
    cidr 169 254 0 0 16
    ∷ cidr 224 0 0 0 4
    ∷ cidr 0 0 0 0 32
    ∷ cidr 240 0 0 0 4
    ∷ cidr 192 0 2 0 24
    ∷ cidr 198 51 100 0 24
    ∷ cidr 203 0 113 0 24
    ∷ cidr 100 64 0 0 10
    ∷ cidr 198 18 0 0 15
    ∷ cidr 192 0 0 0 24
    ∷ []

abbrev pub in_blocks : List Cidr → Ipv4Addr → Bool
in_blocks [] ip = false
in_blocks (block ∷ blocks) ip = covers (address ip) block || in_blocks blocks ip

-- Whether a test passes for every octet below a bound, and then for each single one.
passes : (ℕ → Bool) → ℕ → Bool
passes test zero = true
passes test (suc bound) = passes test bound && test bound

passes_at :
    (test : ℕ → Bool) (bound octet : ℕ)
    → octet < bound
    → passes test bound ≡ true
    → test octet ≡ true
unfolding passes
passes_at test zero octet below every = elim below [ ]
passes_at test (suc bound) octet below every = ground (arith, passes_at test bound octet)

abbrev same : Bool → Bool → Bool
same true b = b
same false b = not b

-- The mask of the source selects the octets from 64 to 127.
masked_octet : ℕ → Bool
masked_octet octet = same (bit_and octet 0xC0 == 0x40) (within 64 127 octet)

shared_table : passes masked_octet 256 ≡ true
unfolding passes masked_octet
shared_table = refl

shared_octet : (octet : ℕ) → octet < 256 → (bit_and octet 0xC0 == 0x40) ≡ within 64 127 octet
unfolding masked_octet
shared_octet octet below =
    let agree = passes_at masked_octet 256 octet below shared_table in ground arith

-- The tests of the source in its order, against the blocks in theirs. Three tests are covered by
-- another one: `bc` by `rs`, `m1` by `ll` and `m2` by `sh`.
regroup :
    (x ll mc bc us rs d1 d2 d3 sh bm ie m1 m2 : Bool)
    → (bc ≡ true → rs ≡ true)
    → (m1 ≡ true → ll ≡ true)
    → (m2 ≡ true → sh ≡ true)
    → (x || ll || mc || bc || us || rs || (d1 || d2 || d3) || sh || bm || ie || m1 || m2)
      ≡ (x || (ll || (mc || (us || (rs || (d1 || (d2 || (d3 || (sh || (bm || (ie || false)))))))))))
regroup true ll mc bc us rs d1 d2 d3 sh bm ie m1 m2 p q r = refl
regroup false true mc bc us rs d1 d2 d3 sh bm ie m1 m2 p q r = refl
regroup false false true bc us rs d1 d2 d3 sh bm ie m1 m2 p q r = refl
regroup false false false bc true rs d1 d2 d3 sh bm ie m1 m2 p q r = ground arith
regroup false false false bc false true d1 d2 d3 sh bm ie m1 m2 p q r = ground arith
regroup false false false true false false d1 d2 d3 sh bm ie m1 m2 p q r = cc (p refl)
regroup false false false false false false d1 d2 d3 sh bm ie true m2 p q r = cc (q refl)
regroup false false false false false false d1 d2 d3 true bm ie false m2 p q r = ground arith
regroup false false false false false false d1 d2 d3 false bm ie false true p q r = cc (r refl)
regroup false false false false false false d1 d2 d3 false bm ie false false p q r = ground arith

module _ (ip : Ipv4Addr) (v : IsValid ip) where
  private_lem : is_private ip || is_loopback ip ≡ in_blocks private_blocks ip
  private_lem = ground arith

  link_local_lem : is_link_local ip ≡ covers (address ip) (cidr 169 254 0 0 16)
  link_local_lem = ground arith

  multicast_lem : is_multicast ip ≡ covers (address ip) (cidr 224 0 0 0 4)
  multicast_lem = ground arith

  unspecified_lem : is_unspecified ip ≡ covers (address ip) (cidr 0 0 0 0 32)
  unspecified_lem = ground arith

  reserved_lem : is_ipv4_reserved_range ip ≡ covers (address ip) (cidr 240 0 0 0 4)
  unfolding is_ipv4_reserved_range
  reserved_lem = ground arith

  -- The three networks of the documentation class are of one shape.
  net24_lem :
      (a b c : ℕ)
      → b < 256
      → c < 256
      → (ip.a == a && ip.b == b && ip.c == c) ≡ covers (address ip) (cidr a b c 0 24)
  net24_lem a b c hb hc = ground arith

  shared_lem : is_ipv4_shared_space ip ≡ covers (address ip) (cidr 100 64 0 0 10)
  unfolding is_ipv4_shared_space
  shared_lem = ground (arith, shared_octet ip.b v.b)

  benchmarking_lem : is_ipv4_benchmarking ip ≡ covers (address ip) (cidr 198 18 0 0 15)
  unfolding is_ipv4_benchmarking
  benchmarking_lem = ground arith

  ietf_lem : is_ipv4_ietf_protocol_assignments ip ≡ covers (address ip) (cidr 192 0 0 0 24)
  unfolding is_ipv4_ietf_protocol_assignments
  ietf_lem = ground arith

  -- The tests for three single addresses are covered by those of their networks.
  broadcast_reserved : is_broadcast ip ≡ true → is_ipv4_reserved_range ip ≡ true
  unfolding is_ipv4_reserved_range
  broadcast_reserved h = ground arith

  metadata_link_local : octets_eq ip 169 254 169 254 ≡ true → is_link_local ip ≡ true
  metadata_link_local h = ground arith

  metadata_shared : octets_eq ip 100 100 100 200 ≡ true → is_ipv4_shared_space ip ≡ true
  unfolding is_ipv4_shared_space
  metadata_shared h = ground (arith, shared_octet ip.b v.b)

  -- The guard on IPv4 is membership in a list of networks: without the flag the private and
  -- loopback networks are blocked, and in any case the hazardous ones are.
  pub is_blocked_ipv4_lem :
      (allow_private_ips : Bool)
      → is_blocked_ipv4 ip allow_private_ips
        ≡ (not allow_private_ips && in_blocks private_blocks ip || in_blocks hazardous_blocks ip)
  unfolding is_blocked_ipv4
  is_blocked_ipv4_lem flag =
      regroup (not flag && (is_private ip || is_loopback ip)) (is_link_local ip) (is_multicast ip)
        (is_broadcast ip) (is_unspecified ip) (is_ipv4_reserved_range ip)
        (ip.a == 192 && ip.b == 0 && ip.c == 2) (ip.a == 198 && ip.b == 51 && ip.c == 100)
        (ip.a == 203 && ip.b == 0 && ip.c == 113) (is_ipv4_shared_space ip)
        (is_ipv4_benchmarking ip) (is_ipv4_ietf_protocol_assignments ip)
        (octets_eq ip 169 254 169 254) (octets_eq ip 100 100 100 200) broadcast_reserved
        metadata_link_local metadata_shared
      ∙ λ i.
          not flag && private_lem i
          || (link_local_lem i
              || (multicast_lem i
                  || (unspecified_lem i
                      || (reserved_lem i
                          || (net24_lem 192 0 2 (omega arith) (omega arith) i
                              || (net24_lem 198 51 100 (omega arith) (omega arith) i
                                  || (net24_lem 203 0 113 (omega arith) (omega arith) i
                                      || (shared_lem i
                                          || (benchmarking_lem i || (ietf_lem i || false))))))))))
