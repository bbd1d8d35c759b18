-- ===== src/Network/Masking.antt =====
-- Masking a prefix again changes nothing, and what `ParseValue` gives is a value of its kind.
use crowdshield.Prelude.{none, is_empty, ◌||◌, not, Option, some, Text, leb, ltb, refl, ap}
use native.Mathlib.Nat.{mul-div_cancel, pow-suc}
use crowdshield.Network.Address.{
  v6, v4, Addr, Prefix, prefix_eq, addr_eq, masked, is_valid, bits, bit_len, top,
}
use crowdshield.Network.Safety.{Kind, kind_fits}
use crowdshield.Network.Normalize.{
  is_padded, plain_addr, of_host, of_range, is_4in6, Netip, parse_value, normalize_prefix,
  normalize_address, unmapped_prefix, plain_prefix, prefix_from, unmap,
}
use crowdshield.Prelude.{
  inr, inl, Bool-cases, zero, ◌/◌, ◌-◌, ap, suc, ◌^◌, arith, ◌<◌, true, ◌*◌, ℕ, ◌≡◌,
}
use mathlib.Core.Path.{subst}
use mathlib.Core.Option.{some-injective}
use crowdshield.Prelude.Spaces.{has_byte}

pub addr_eq→eq : (a b : Addr) → addr_eq a b ≡ true → a ≡ b
addr_eq→eq a b h = ground (arith, h)

pub prefix_eq→eq : (p o : Prefix) → prefix_eq p o ≡ true → p ≡ o
prefix_eq→eq p o h = ground (arith, h, addr_eq→eq p.ip o.ip)

pub prefix_eq_refl : (p : Prefix) → prefix_eq p p ≡ true
prefix_eq_refl p = ground arith

pow_pos : (k : ℕ) → 0 < 2 ^ k
pow_pos zero = omega arith
pow_pos (suc k) = rw (pow-suc) (omega (arith, pow_pos k))

-- The first n of w bits of a number whose other bits are 0.
top_again : (w n x : ℕ) → top w n (top w n x * 2 ^ (w - n)) ≡ top w n x
unfolding top
top_again w n x = mul-div_cancel (x / 2 ^ (w - n)) (pow_pos (w - n))

pub masked-masked : (p : Prefix) → masked (masked p) ≡ masked p
unfolding masked
masked-masked p = elim (Bool-cases (is_valid p)) [
  | inl y ↦ of_addr p.ip y
  | inr n ↦ rw (n, masked) refl
]
  where
    of_addr :
        (a : Addr)
        → is_valid p ≡ true
        → masked (masked (record { ip = a; bits_plus_one = p.bits_plus_one }))
          ≡ masked (record { ip = a; bits_plus_one = p.bits_plus_one })
    of_addr Addr.invalid y = rw (y, masked) (rw (y, masked) refl)
    of_addr (v4 n) y =
        rw (y, masked)
          (rw (y, masked)
            (ap (λ t. record { ip = v4 (t * 2 ^ (32 - bits p)); bits_plus_one = p.bits_plus_one })
              (top_again 32 (bits p) n)))
    of_addr (v6 n) y =
        rw (y, masked)
          (rw (y, masked)
            (ap (λ t. record { ip = v6 (t * 2 ^ (128 - bits p)); bits_plus_one = p.bits_plus_one })
              (top_again 128 (bits p) n)))

masked-is_valid : (p : Prefix) → is_valid p ≡ true → is_valid (masked p) ≡ true
unfolding masked
masked-is_valid p h = rw (h, masked) h

pub masked-kind_fits : (p : Prefix) → is_valid p ≡ true → kind_fits (masked p) Kind.range ≡ true
unfolding kind_fits
masked-kind_fits p h = ground (
  arith,
  masked-is_valid p h,
  ap (prefix_eq (masked p)) (masked-masked p),
  prefix_eq_refl (masked p),
)

host_fits :
    (a : Addr) → ltb 0 (bit_len a) ≡ true → kind_fits (prefix_from a (bit_len a)) Kind.ip ≡ true
unfolding kind_fits masked top prefix_from
host_fits Addr.invalid h = absurd (ground (arith, h))
host_fits (v4 n) h = ground arith
host_fits (v6 n) h = ground arith

unmap_known : (a : Addr) → ltb 0 (bit_len a) ≡ true → ltb 0 (bit_len (unmap a)) ≡ true
unmap_known Addr.invalid h = h
unmap_known (v4 n) h = h
unmap_known (v6 n) h = ground arith

unmapped_valid :
    (a : Addr) (n : ℕ)
    → is_4in6 a ≡ true
    → leb n 128 ≡ true
    → is_valid (prefix_from (unmap a) (n - 96)) ≡ true
unfolding prefix_from
unmapped_valid Addr.invalid n h k = absurd (ground (arith, h))
unmapped_valid (v4 a) n h k = absurd (ground (arith, h))
unmapped_valid (v6 a) n h k = ground arith

of_v6 : (a : Addr) → is_4in6 a ≡ true → bit_len a ≡ 128
of_v6 Addr.invalid h = absurd (ground (arith, h))
of_v6 (v4 a) h = absurd (ground (arith, h))
of_v6 (v6 a) h = refl

unmapped_prefix-fits :
    (p q : Prefix)
    → is_valid p ≡ true
    → leb (bits p) (bit_len p.ip) ≡ true
    → unmapped_prefix p ≡ some q
    → kind_fits q Kind.range ≡ true
unfolding unmapped_prefix
unmapped_prefix-fits p q v l h = elim (Bool-cases (is_4in6 p.ip)) [
  | inl y ↦ elim (Bool-cases (ltb (bits p) 96)) [
    | inl c ↦ absurd (ground (arith, rw (y, unmapped_prefix, c) at h))
    | inr c ↦
        subst (λ r. kind_fits r Kind.range ≡ true)
          (some-injective (masked (prefix_from (unmap p.ip) (bits p - 96))) q
            (rw (y, unmapped_prefix, c) at h))
          (masked-kind_fits (prefix_from (unmap p.ip) (bits p - 96))
            (unmapped_valid p.ip (bits p) y (ground (arith, l, of_v6 p.ip y))))
  ]
  | inr n ↦
      subst (λ r. kind_fits r Kind.range ≡ true)
        (some-injective (masked p) q (rw (n, unmapped_prefix) at h)) (masked-kind_fits p v)
]

-- Parsers that return known addresses, and prefixes that are not longer than their addresses.
module _ (netip : Netip)
    (known : (raw zone : Text) (a : Addr)
      → netip.parse_addr raw ≡ some (a, zone)
      → ltb 0 (bit_len a) ≡ true)
    (proper : (raw zone : Text) (p : Prefix)
      → netip.parse_prefix raw ≡ some (p, zone)
      → leb (bits p) (bit_len p.ip) ≡ true) where
  pub normalize_prefix-fits :
      (raw : Text) (q : Prefix)
      → normalize_prefix netip raw ≡ some q
      → kind_fits q Kind.range ≡ true
  unfolding normalize_prefix plain_prefix
  normalize_prefix-fits raw q h = elim (Bool-cases (is_padded raw)) [
    | inl y ↦ absurd (ground (arith, rw (y, normalize_prefix) at h))
    | inr n ↦ of_parsed (netip.parse_prefix raw) refl (rw (n, normalize_prefix) at h)
  ]
    where
      of_parsed :
          (x : Option (Prefix × Text))
          → netip.parse_prefix raw ≡ x
          → plain_prefix x ≡ some q
          → kind_fits q Kind.range ≡ true
      of_parsed none e k = absurd (ground (arith, k))
      of_parsed (some (p, zone)) e k = elim (Bool-cases (not (is_valid p) || not (is_empty zone))) [
        | inl y ↦ absurd (ground (arith, rw (y, plain_prefix) at k))
        | inr n ↦
            unmapped_prefix-fits p q (ground (arith, n)) (proper raw zone p e)
              (rw (n, plain_prefix) at k)
      ]

  -- A value that `ParseValue` reads passes `ValidateKind` for its kind.
  pub parse_value-fits :
      (raw : Text) (p : Prefix) (k : Kind)
      → parse_value netip raw ≡ some (p, k)
      → kind_fits p k ≡ true
  unfolding parse_value normalize_address
  parse_value-fits raw p k h = elim (Bool-cases (has_byte b'/' raw)) [
    | inl y ↦ ranged (normalize_prefix netip raw) refl (rw (y, parse_value) at h)
    | inr n ↦ elim (Bool-cases (is_padded raw)) [
      | inl y ↦ absurd (ground (arith, rw (n, parse_value, y) at h))
      | inr m ↦ hosted (netip.parse_addr raw) refl (rw (n, parse_value, m) at h)
    ]
  ]
    where
      ranged :
          (x : Option Prefix)
          → normalize_prefix netip raw ≡ x
          → of_range x ≡ some (p, k)
          → kind_fits p k ≡ true
      ranged none e g = absurd (ground (arith, g))
      ranged (some q) e g =
          let s = some-injective (q, Kind.range) (p, k) g in
          subst (λ (t : Prefix × Kind). kind_fits t.0 t.1 ≡ true) s (normalize_prefix-fits raw q e)

      hosted :
          (x : Option (Addr × Text))
          → netip.parse_addr raw ≡ x
          → of_host (plain_addr x) ≡ some (p, k)
          → kind_fits p k ≡ true
      hosted none e g = absurd (ground (arith, g))
      hosted (some (a, zone)) e g = elim (Bool-cases (not (is_empty zone))) [
        | inl y ↦ absurd (ground (arith, rw y at g))
        | inr m ↦
            subst (λ (t : Prefix × Kind). kind_fits t.0 t.1 ≡ true)
              (some-injective (prefix_from (unmap a) (bit_len (unmap a)), Kind.ip) (p, k)
                (rw m at g))
              (host_fits (unmap a) (unmap_known a (known raw zone a e)))
      ]
