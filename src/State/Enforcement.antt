-- ===== src/State/Enforcement.antt =====
-- internal/state/enforcement_repository.go: what `ApplyEnforcementPlan` asks of an object.
-- `stateFeedName` is the pattern of `feedNamePattern` in internal/ops/event.go.
use crowdshield.Network.Desired.{is_ip_scope, kind_rank, Object, Contributor, Suppression}
use crowdshield.Network.Safety.{is_safe_prefix, Kind}
use crowdshield.Prelude.{
  length, exists, every, ◌||◌, ◌==◌, if◌then◌else◌, ◌&&◌, true, not, false, Bool,
}
use crowdshield.Prelude.Int.{pos, eq_ℤ, ltb_ℤ}
use crowdshield.Network.Address.{bit_len, bits, prefix_eq, masked}
use crowdshield.Ops.FeedName.{match_feed_name}

abbrev pub is_unsuppressed : Suppression → Bool
is_unsuppressed Suppression.suppressed_none = true
is_unsuppressed _ = false

abbrev pub same_bool : Bool → Bool → Bool
same_bool true b = b
same_bool false b = not b

abbrev pub is_known_kind : Kind → Bool
is_known_kind Kind.invalid = false
is_known_kind _ = true

-- What the loop over the contributors lets pass.
unfoldable pub source_fits : Contributor → Bool
source_fits source =
    ltb_ℤ (pos 0) source.feed_id && match_feed_name source.feed_name && is_known_kind source.kind

-- What sets `primaryFound`.
abbrev pub is_primary : Contributor → Contributor → Bool
is_primary primary source =
    eq_ℤ source.feed_id primary.feed_id && kind_rank source.kind == kind_rank primary.kind

-- `ScopeRange` is the only other scope.
unfoldable pub validate_enforcement_object : Object → Bool
unfolding source_fits
validate_enforcement_object object =
    let prefix = masked object.prefix in
    if not (is_safe_prefix prefix).0
      || not (prefix_eq prefix object.prefix)
      || length object.contributors == 0
    then false
    else if is_ip_scope object.scope && not (bits prefix == bit_len prefix.ip)
    then false
    else if not (same_bool object.desired (is_unsuppressed object.suppression))
    then false
    else every source_fits object.contributors
      && exists (is_primary object.primary) object.contributors
