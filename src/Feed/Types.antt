-- ===== src/Feed/Types.antt =====
-- internal/feed/types.go and errors.go, and what the package takes from Go's standard library.
use crowdshield.Prelude.Int.{ℤ}
use crowdshield.App.Report.{ErrorClass}
use crowdshield.State.Records.{Entry}
use crowdshield.Network.Normalize.{Netip}
use crowdshield.Prelude.{Option, if◌then◌else◌, List, Bool, ℕ, Text}
use crowdshield.Network.Address.{Prefix}

-- A float64 is its bit pattern.
abbrev pub Float64 : Type 0
Float64 = ℕ

-- The machine's operations on float64: a conversion, a quotient, `<=` and `<`.
pub record Floats : Type 0 where
  pub of_int : ℤ → Float64
  pub quotient : Float64 → Float64 → Float64
  pub le : Float64 → Float64 → Bool
  pub lt : Float64 → Float64 → Bool
  pub is_nan : Float64 → Bool
  pub is_inf : Float64 → Bool

-- `spamhausMetadata`, without the type.
pub record RawMetadata : Type 0 where
  pub timestamp : ℤ
  pub copyright : Text
  pub terms : Text
  pub records : ℤ

-- encoding/json into the three types of the Spamhaus parser, net/url, net/netip, crypto/sha256 with
-- encoding/hex, and the floats. None is an error.
pub record Std : Type 0 where
  pub netip : Netip
  pub prefix_string : Prefix → Text
  pub record_type : Text → Option Text
  pub raw_metadata : Text → Option RawMetadata
  pub record_cidr : Text → Option Text
  -- The scheme and the host name of a URL.
  pub parse_url : Text → Option (Text × Text)
  pub sha256_hex : Text → Text
  pub floats : Floats

pub data Format : Type 0 where
  spamhaus_drop_jsonl firehol_netset plain : Format
  other : ℕ → Format

pub data Family : Type 0 where
  any ipv4 ipv6 : Family
  other : ℕ → Family

pub record Limits : Type 0 where
  pub family : Family
  pub max_line_bytes : ℤ
  pub max_malformed_lines : ℤ
  pub max_malformed_ratio : Float64
  pub require_final_newline : Bool

-- `generated_at` is 0 for no time.
pub record Metadata : Type 0 where
  pub generated_at : ℕ
  pub declared_records : ℤ
  pub copyright : Text
  pub terms_url : Text

pub record Result : Type 0 where
  pub entries : List Entry
  pub total_records : ℕ
  pub malformed : ℕ
  pub metadata : Metadata

pub record ValidationPolicy : Type 0 where
  pub expected_min_entries : ℤ
  pub expected_max_entries : ℤ
  pub max_growth_ratio : Float64
  pub max_shrink_ratio : Float64
  pub previous_accepted_entries : ℤ
  pub now : ℕ
  pub max_metadata_age : ℤ
  pub max_future_skew : ℤ

pub record Snapshot : Type 0 where
  pub entries : List Entry
  pub version : Text
  pub raw_entries : ℕ
  pub rejected_safety : ℕ
  pub duplicates : ℕ
  pub metadata : Metadata

-- What a function of the package returns.
pub data Checked (A : Type 0) : Type 0 where
  ok : A → Checked A
  err : ErrorClass → Checked A

module _ {A B : Type 0} where
  infixl 5 ◌>>=◌
  abbrev pub ◌>>=◌ : Checked A → (A → Checked B) → Checked B
  ◌>>=◌ (Checked.ok a) f = f a
  ◌>>=◌ (Checked.err c) f = Checked.err c

-- `if test { return feedError(c, nil) }`, before the rest.
abbrev pub refuse_if : {A : Type 0} → Bool → ErrorClass → Checked A → Checked A
refuse_if test c rest = if test then Checked.err c else rest
