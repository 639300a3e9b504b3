-- ===== src/Ssrf/Dns.antt =====
-- The resolution of a host with the guard on each address: src/security/dns.rs. The resolver is a
-- parameter: `none` where it cannot be set up, and a lookup that may fail.
use earl.Prelude.{
  or_fail, or_fail-eq_ok, Bool, false, ◌≡◌, refl, ◌↔◌, sym, ◌∙◌, ap, inl, inr, Bool-cases, Option,
  none, some, List, [], ◌∷◌, ◌++◌, All, arith, is_empty, if◌then◌else◌, Result, ok, err, ◌>>=◌,
  ◌>>◌, bind-eq_ok, ok-injective, subst,
}
use mathlib.Core.List.{append-nil, append_assoc}
use earl.Text.{Text}
use earl.Ssrf.{IpAddr, SsrfError, is_blocked_ip, ensure_safe_ip}

pub data DnsError : Type 0 where
  resolver_setup_failed : DnsError
  failed_resolution no_addresses : (host : Text) → DnsError
  unsafe_address : SsrfError → DnsError

abbrev or_unsafe : Result SsrfError (Unit {0}) → Result DnsError (Unit {0})
or_unsafe (ok u) = ok u
or_unsafe (err e) = err (unsafe_address e)

-- The loop over the response, with its variable `ips`.
unfoldable pub push_safe : List IpAddr → Bool → List IpAddr → Result DnsError (List IpAddr)
unfolding ensure_safe_ip
push_safe [] allow_private_ips ips = ok ips
push_safe (ip ∷ response) allow_private_ips ips =
    or_unsafe (ensure_safe_ip ip allow_private_ips)
    >> push_safe response allow_private_ips (ips ++ ip ∷ [])

abbrev reject_empty : Text → List IpAddr → Result DnsError (List IpAddr)
reject_empty host ips = if is_empty ips then err (no_addresses host) else ok ips

unfoldable pub resolve_and_validate_host :
    Option (Text → Option (List IpAddr)) → Text → Bool → Result DnsError (List IpAddr)
unfolding push_safe
resolve_and_validate_host resolver host allow_private_ips = do
  lookup_ip ← or_fail resolver resolver_setup_failed
  response ← or_fail (lookup_ip host) (failed_resolution host)
  ips ← push_safe response allow_private_ips []
  reject_empty host ips

abbrev pub Passes : Bool → IpAddr → Type 0
Passes allow_private_ips ip = is_blocked_ip ip allow_private_ips ≡ false

reject_empty-ok :
    (host : Text) (pushed ips : List IpAddr)
    → reject_empty host pushed ≡ ok ips
    → (pushed ≡ ips) × (is_empty ips ≡ false)
reject_empty-ok host [] ips h = cc
reject_empty-ok host (ip ∷ more) ips h = (ok-injective h, ap is_empty (sym (ok-injective h)))

push_safe-All :
    (response ips found : List IpAddr) (flag : Bool)
    → push_safe response flag ips ≡ ok found
    → (ips ++ response ≡ found) × All (Passes flag) response
unfolding push_safe
push_safe-All [] ips found flag h = (append-nil ips ∙ ok-injective h, tt)
push_safe-All (ip ∷ response) ips found flag h = elim (Bool-cases (is_blocked_ip ip flag)) [
  | inl blocked_ip ↦ absurd (ground (arith, ensure_safe_ip))
  | inr passes ↦
      (let rest : push_safe response flag (ips ++ ip ∷ []) ≡ ok found = ground arith in
        let (whole, safe) = push_safe-All response (ips ++ ip ∷ []) found flag rest in
        (sym (append_assoc ips (ip ∷ []) response) ∙ whole, (passes, safe)))
]

All-push_safe :
    (response ips : List IpAddr) (flag : Bool)
    → All (Passes flag) response
    → push_safe response flag ips ≡ ok (ips ++ response)
unfolding push_safe ensure_safe_ip
All-push_safe [] ips flag h = ap (λ found. ok found) (sym (append-nil ips))
All-push_safe (ip ∷ response) ips flag (p, h) = rw p (
    All-push_safe response (ips ++ ip ∷ []) flag h
    ∙ ap (λ found. ok found) (append_assoc ips (ip ∷ []) response))

-- A host is accepted with its addresses exactly when the lookup gives them, there is at least one,
-- and none of them is blocked: one blocked address is enough to refuse the host.
pub resolve_and_validate_host_iff :
    (lookup_ip : Text → Option (List IpAddr)) (host : Text) (flag : Bool) (ips : List IpAddr)
    → (resolve_and_validate_host (some lookup_ip) host flag ≡ ok ips)
      ↔ ((lookup_ip host ≡ some ips) × (is_empty ips ≡ false) × All (Passes flag) ips)
unfolding resolve_and_validate_host
resolve_and_validate_host_iff lookup_ip host flag ips = (
  λ h.
      (let (response, found, h1) =
          bind-eq_ok (or_fail (lookup_ip host) (failed_resolution host)) _ h in
        let (pushed, collected, h2) = bind-eq_ok (push_safe response flag []) _ h1 in
        let (whole, safe) = push_safe-All response [] pushed flag collected in
        let (same, filled) = reject_empty-ok host pushed ips h2 in
        (
          or_fail-eq_ok (lookup_ip host) _ found ∙ ap (λ l. some l) (whole ∙ same),
          filled,
          subst (All (Passes flag)) (whole ∙ same) safe,
        )),
  λ (found, filled, safe). rw (found, All-push_safe ips [] flag safe, filled) refl,
)

pub resolve_and_validate_host-Passes :
    (resolver : Option (Text → Option (List IpAddr))) (host : Text) (flag : Bool)
    (ips : List IpAddr)
    → resolve_and_validate_host resolver host flag ≡ ok ips
    → All (Passes flag) ips
unfolding resolve_and_validate_host
resolve_and_validate_host-Passes none host flag ips h = absurd (ground arith)
resolve_and_validate_host-Passes (some lookup_ip) host flag ips h =
    ((resolve_and_validate_host_iff lookup_ip host flag ips).0 h).2
