-- ===== src/Network/Covering.antt =====
-- Which hosts are suppressed because a range covers them.
use crowdshield.Prelude.{◌≡◌, true, false, Bool, List, Option, none, some, exists}
use crowdshield.Network.Address.{Prefix}
use crowdshield.Network.Desired.{Object, Scope, Suppression, covers}

abbrev is_none : Option Prefix → Bool
is_none none = true
is_none (some p) = false

-- A desired host is covered by no object of the list, and a covered host by one.
pub record IsCovered (all : List Object) (o : Object) : Type 0 where
  pub free : o.scope ≡ Scope.ip → o.desired ≡ true → exists (covers o) all ≡ false
  pub held : o.suppression ≡ Suppression.suppressed_covered → exists (covers o) all ≡ true

-- Two lists cover the same hosts.
abbrev SameCover : List Object → List Object → Type 0
SameCover xs ys = (h : Object) → exists (covers h) xs ≡ exists (covers h) ys
