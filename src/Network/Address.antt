-- ===== src/Network/Address.antt =====
-- What internal/network uses of Go's net/netip: addresses and prefixes without zones, by value.
use crowdshield.Prelude.{
  ℕ, ◌+◌, ◌-◌, ◌*◌, ◌/◌, ◌^◌, Bool, true, false, ◌==◌, ltb, ◌&&◌, ◌||◌, not, if◌then◌else◌,
}
use Prim.Native.Nat.{min, compare, Ordering}

-- `invalid` is the zero `netip.Addr`; a v4 address is below 2 ^ 32, a v6 address below 2 ^ 128.
pub data Addr : Type 0 where
  invalid : Addr
  v4 v6 : ℕ → Addr

-- Like `netip.Prefix`: `bits_plus_one` is 0 for an invalid prefix.
pub record Prefix : Type 0 where
  pub ip : Addr
  pub bits_plus_one : ℕ

abbrev pub is4 : Addr → Bool
is4 (v4 n) = true
is4 _ = false

abbrev pub bit_len : Addr → ℕ
bit_len Addr.invalid = 0
bit_len (v4 n) = 32
bit_len (v6 n) = 128

abbrev pub value : Addr → ℕ
value Addr.invalid = 0
value (v4 n) = n
value (v6 n) = n

abbrev pub addr_eq : Addr → Addr → Bool
addr_eq a b = bit_len a == bit_len b && value a == value b

abbrev pub is_valid : Prefix → Bool
is_valid p = ltb 0 p.bits_plus_one

-- `Bits` of a valid prefix.
abbrev pub bits : Prefix → ℕ
bits p = p.bits_plus_one - 1

abbrev pub prefix_eq : Prefix → Prefix → Bool
prefix_eq p o = addr_eq p.ip o.ip && p.bits_plus_one == o.bits_plus_one

-- The network part: the first n of w bits.
unfoldable pub top : ℕ → ℕ → ℕ → ℕ
top w n x = x / 2 ^ (w - n)

abbrev pub with_value : Addr → ℕ → Addr
with_value Addr.invalid n = Addr.invalid
with_value (v4 m) n = v4 n
with_value (v6 m) n = v6 n

-- `Masked`: the host bits set to zero, and the zero prefix for an invalid one.
unfoldable pub masked : Prefix → Prefix
unfolding top
masked p =
    if is_valid p
    then record p {
      ip = with_value p.ip (top (bit_len p.ip) (bits p) (value p.ip) * 2 ^ (bit_len p.ip - bits p));
    }
    else record { ip = Addr.invalid; bits_plus_one = 0 }

unfoldable pub contains : Prefix → Addr → Bool
contains p a =
    is_valid p
    && not (bit_len p.ip == 0)
    && bit_len p.ip == bit_len a
    && top (bit_len p.ip) (bits p) (value a) == top (bit_len p.ip) (bits p) (value p.ip)

unfoldable pub overlaps : Prefix → Prefix → Bool
overlaps p o =
    is_valid p
    && is_valid o
    && (prefix_eq p o
        || (bit_len p.ip == bit_len o.ip
            && top (bit_len p.ip) (min (bits p) (bits o)) (value p.ip)
              == top (bit_len p.ip) (min (bits p) (bits o)) (value o.ip)))

-- `IsGlobalUnicast`: not unspecified, broadcast, loopback, multicast or link-local. The last three
-- look through an IPv4-mapped address.
abbrev pub unmap_value : ℕ → Addr
unmap_value n = if n / 2 ^ 32 == 0xffff then v4 (n - 0xffff * 2 ^ 32) else v6 n

abbrev pub local_or_multicast : Addr → Bool
local_or_multicast Addr.invalid = false
local_or_multicast (v4 n) = n / 2 ^ 24 == 127 || n / 2 ^ 28 == 0xe || n / 2 ^ 16 == 169 * 256 + 254
local_or_multicast (v6 n) = n == 1 || n / 2 ^ 120 == 0xff || n / 2 ^ 118 == 0x3fa

unfoldable pub is_global_unicast : Addr → Bool
is_global_unicast Addr.invalid = false
is_global_unicast (v4 n) = not (n == 0 || n == 2 ^ 32 - 1) && not (local_or_multicast (v4 n))
is_global_unicast (v6 n) = not (n == 0) && not (local_or_multicast (unmap_value n))

abbrev pub then_by : Ordering → Ordering → Ordering
then_by Ordering.eq o = o
then_by Ordering.lt o = Ordering.lt
then_by Ordering.gt o = Ordering.gt

-- `Addr.Compare`: the bit length first, then the value.
abbrev pub compare_addr : Addr → Addr → Ordering
compare_addr a b = then_by (compare (bit_len a) (bit_len b)) (compare (value a) (value b))
