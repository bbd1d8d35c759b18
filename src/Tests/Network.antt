-- ===== src/Tests/Network.antt =====
-- internal/network at concrete inputs.
use crowdshield.Prelude.{refl, length, [], ◌+◌, ◌≡◌, ◌∷◌, bytes, List, All}
use crowdshield.Prelude.Int.{pos}
use crowdshield.Network.Address.{masked, is_global_unicast, overlaps, contains, Prefix}
use crowdshield.Network.Safety.{is_safe_prefix, kind_fits, Kind, quad}
use crowdshield.Network.Desired.{compare_object, build_desired, Candidate}
use crowdshield.Network.Counts.{build_desired-counts}
use crowdshield.Network.Guarantees.{build_desired-IsSound, IsSound}

abbrev host : Candidate
host = record {
  prefix = quad 8 8 8 8 32;
  kind = Kind.ip;
  feed_id = pos 1;
  feed_name = bytes "a";
  feed_order = pos 0;
}

abbrev range : Candidate
range = record host { prefix = quad 8 8 8 0 24; kind = Kind.range; feed_id = pos 2 }

abbrev private_host : Candidate
private_host = record host { prefix = quad 10 0 0 1 32 }

abbrev allowed_host : Candidate
allowed_host = record host { prefix = quad 9 9 9 9 32 }

abbrev candidates : List Candidate
candidates = host ∷ range ∷ private_host ∷ host ∷ allowed_host ∷ []

abbrev allowlist : List Prefix
allowlist = quad 9 9 9 0 24 ∷ []

-- Of five candidates one is a duplicate and one unsafe, the host is covered by the range, and one
-- host is on the allowlist.
candidates-summary : (build_desired candidates allowlist).1 ≡ record {
  input = 5;
  objects = 3;
  desired = 1;
  exact_duplicates = 1;
  rejected_safety = 1;
  allowlisted = 1;
  covered_hosts = 1;
}
unfolding build_desired is_safe_prefix masked is_global_unicast overlaps kind_fits compare_object
    contains
candidates-summary = refl

build_desired-counts_example :
    let s = (build_desired candidates allowlist).1 in
    (s.input ≡ s.rejected_safety + s.exact_duplicates + s.objects)
    × (s.objects ≡ s.desired + s.allowlisted + s.covered_hosts)
    × (s.objects ≡ length (build_desired candidates allowlist).0)
build_desired-counts_example = build_desired-counts candidates allowlist

build_desired-IsSound_example : All (IsSound allowlist) (build_desired candidates allowlist).0
build_desired-IsSound_example = build_desired-IsSound candidates allowlist
