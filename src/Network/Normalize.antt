-- ===== src/Network/Normalize.antt =====
-- internal/network/normalize.go: `NormalizeAddress`, `NormalizePrefix` and `ParseValue`. The parsers of
-- net/netip are an argument: each gives the value with its zone, or none for an error.
use crowdshield.Prelude.Spaces.{trim_space, has_byte}
use crowdshield.Network.Address.{v4, v6, Addr, Prefix, is_valid, bits, bit_len, masked, unmap_value}
use crowdshield.Network.Safety.{Kind}
use crowdshield.Prelude.{
  false, ◌==◌, text_eq, ◌-◌, suc, ◌^◌, leb, ltb, none, ◌||◌, not, if◌then◌else◌, some, ◌/◌,
  is_empty, ℕ, Option, Text, Bool,
}

pub record Netip : Type 0 where
  pub parse_addr : Text → Option (Addr × Text)
  pub parse_prefix : Text → Option (Prefix × Text)

-- `Unmap`
abbrev pub unmap : Addr → Addr
unmap (v6 n) = unmap_value n
unmap a = a

-- `Is4In6`
abbrev pub is_4in6 : Addr → Bool
is_4in6 (v6 n) = n / 2 ^ 32 == 0xffff
is_4in6 _ = false

-- `PrefixFrom`, where the bits are not negative.
unfoldable pub prefix_from : Addr → ℕ → Prefix
prefix_from Addr.invalid n = record { ip = Addr.invalid; bits_plus_one = 0 }
prefix_from (v4 a) n = record { ip = v4 a; bits_plus_one = if leb n 32 then suc n else 0 }
prefix_from (v6 a) n = record { ip = v6 a; bits_plus_one = if leb n 128 then suc n else 0 }

-- The test that both parsers start with.
abbrev pub is_padded : Text → Bool
is_padded raw = is_empty raw || not (text_eq raw (trim_space raw))

abbrev pub plain_addr : Option (Addr × Text) → Option Addr
plain_addr none = none
plain_addr (some (addr, zone)) = if not (is_empty zone) then none else some (unmap addr)

-- None is `ErrInvalidNetwork`.
unfoldable pub normalize_address : Netip → Text → Option Addr
unfolding trim_space
normalize_address netip raw = if is_padded raw then none else plain_addr (netip.parse_addr raw)

-- The end of `NormalizePrefix`: an IPv4 prefix that is written as an IPv6 one becomes one.
unfoldable pub unmapped_prefix : Prefix → Option Prefix
unfolding masked prefix_from
unmapped_prefix p =
    if is_4in6 p.ip
    then (if ltb (bits p) 96 then none else some (masked (prefix_from (unmap p.ip) (bits p - 96))))
    else some (masked p)

unfoldable pub plain_prefix : Option (Prefix × Text) → Option Prefix
unfolding unmapped_prefix
plain_prefix none = none
plain_prefix (some (p, zone)) =
    if not (is_valid p) || not (is_empty zone) then none else unmapped_prefix p

unfoldable pub normalize_prefix : Netip → Text → Option Prefix
unfolding trim_space plain_prefix
normalize_prefix netip raw = if is_padded raw then none else plain_prefix (netip.parse_prefix raw)

abbrev pub of_range : Option Prefix → Option (Prefix × Kind)
of_range none = none
of_range (some p) = some (p, Kind.range)

abbrev pub of_host : Option Addr → Option (Prefix × Kind)
of_host none = none
of_host (some a) = some (prefix_from a (bit_len a), Kind.ip)

unfoldable pub parse_value : Netip → Text → Option (Prefix × Kind)
unfolding normalize_prefix normalize_address prefix_from
parse_value netip raw =
    if has_byte b'/' raw
    then of_range (normalize_prefix netip raw)
    else of_host (normalize_address netip raw)
