-- ===== src/Network/Safety.antt =====
-- internal/network/safety.go and the kinds of internal/network/normalize.go.
use crowdshield.Prelude.{
  ℕ, ◌+◌, ◌*◌, ◌^◌, Bool, true, false, List, [], ◌∷◌, ◌==◌, ◌&&◌, ◌||◌, not, exists, if◌then◌else◌,
}
use crowdshield.Network.Address.{
  v4, v6, Prefix, bit_len, is_valid, bits, prefix_eq, masked, overlaps, is_global_unicast,
}

pub data Kind : Type 0 where
  invalid ip range : Kind

pub data SafetyReason : Type 0 where
  none invalid special : SafetyReason

-- a.b.c.d/n
abbrev pub quad : ℕ → ℕ → ℕ → ℕ → ℕ → Prefix
quad a b c d n = record { ip = v4 (((a * 256 + b) * 256 + c) * 256 + d); bits_plus_one = n + 1 }

-- An IPv6 prefix by its first three groups of 16 bits, and by its value.
abbrev pub groups : ℕ → ℕ → ℕ → ℕ → Prefix
groups a b c n = record {
  ip = v6 (((a * 2 ^ 16 + b) * 2 ^ 16 + c) * 2 ^ 80);
  bits_plus_one = n + 1;
}

abbrev pub number : ℕ → ℕ → Prefix
number v n = record { ip = v6 v; bits_plus_one = n + 1 }

unfoldable pub safety_prefixes : List Prefix
safety_prefixes =
    quad 0 0 0 0 8
    ∷ quad 10 0 0 0 8
    ∷ quad 100 64 0 0 10
    ∷ quad 127 0 0 0 8
    ∷ quad 169 254 0 0 16
    ∷ quad 172 16 0 0 12
    ∷ quad 192 0 0 0 24
    ∷ quad 192 0 2 0 24
    ∷ quad 192 31 196 0 24
    ∷ quad 192 52 193 0 24
    ∷ quad 192 88 99 0 24
    ∷ quad 192 168 0 0 16
    ∷ quad 192 175 48 0 24
    ∷ quad 198 18 0 0 15
    ∷ quad 198 51 100 0 24
    ∷ quad 203 0 113 0 24
    ∷ quad 224 0 0 0 4
    ∷ quad 240 0 0 0 4
    ∷ number 0 128
    ∷ number 1 128
    ∷ number (0xffff * 2 ^ 32) 96
    ∷ groups 0x64 0xff9b 0 96
    ∷ groups 0x64 0xff9b 1 48
    ∷ groups 0x100 0 0 64
    ∷ groups 0x2001 0 0 23
    ∷ groups 0x2001 0xdb8 0 32
    ∷ groups 0x2002 0 0 16
    ∷ groups 0x2620 0x4f 0x8000 48
    ∷ groups 0x3fff 0 0 20
    ∷ groups 0x5f00 0 0 16
    ∷ groups 0xfc00 0 0 7
    ∷ groups 0xfe80 0 0 10
    ∷ groups 0xff00 0 0 8
    ∷ []

unfoldable pub is_safe_prefix : Prefix → Bool × SafetyReason
unfolding safety_prefixes
is_safe_prefix p =
    if not (is_valid p) || not (prefix_eq p (masked p)) || not (is_global_unicast p.ip)
    then (false, SafetyReason.invalid)
    else if exists (overlaps p) safety_prefixes
    then (false, SafetyReason.special)
    else (true, SafetyReason.none)

-- `ValidateKind(...) == nil`
unfoldable pub kind_fits : Prefix → Kind → Bool
kind_fits p Kind.invalid = false
kind_fits p Kind.ip = is_valid p && prefix_eq p (masked p) && bits p == bit_len p.ip
kind_fits p Kind.range = is_valid p && prefix_eq p (masked p)
