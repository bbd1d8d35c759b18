-- ===== src/Network/Guarantees.antt =====
-- What holds of every object that `BuildDesired` returns.
use crowdshield.Prelude.{
  inr, inl, ◌≡◌, true, false, List, [], ◌∷◌, ◌++◌, map, arith, Bool-cases, All, All-append,
}
use crowdshield.Network.Address.{prefix_eq, Prefix, masked}
use crowdshield.Network.Safety.{is_safe_prefix}
use crowdshield.Network.Desired.{
  contributor_of, add_contributor, Candidate, Contributor, Builder, Collected, accepted, collect,
  collect_one, add_candidate, Object, Scope, Suppression, object_of, sort_by, cover_one, cover_loop,
  build_desired, compare_object, overlaps_allowlist,
}
use crowdshield.Network.Counts.{All-sort_by}

-- A builder's prefix is safe.
abbrev SafeBuilder : Builder → Type 0
SafeBuilder b = (is_safe_prefix b.prefix).0 ≡ true

add_contributor-SafeBuilder :
    (c : Contributor) (b : Builder) → SafeBuilder b → SafeBuilder (add_contributor c b)
unfolding add_contributor
add_contributor-SafeBuilder c b h = ground arith

add_candidate-SafeBuilder :
    (p : Prefix) (c : Contributor) (bs : List Builder)
    → (is_safe_prefix p).0 ≡ true
    → All SafeBuilder bs
    → All SafeBuilder (add_candidate p c bs).0
unfolding add_candidate
add_candidate-SafeBuilder p c [] s h = (s, tt)
add_candidate-SafeBuilder p c (b ∷ bs) s h = elim (Bool-cases (prefix_eq b.prefix p)) [
  | inl e ↦ simp (e) (add_contributor-SafeBuilder c b h.0, h.1)
  | inr e ↦ simp (e) (h.0, add_candidate-SafeBuilder p c bs s h.1)
]

collect_one-SafeBuilder :
    (c : Candidate) (s : Collected)
    → All SafeBuilder s.builders
    → All SafeBuilder (collect_one c s).builders
unfolding collect_one
collect_one-SafeBuilder c s h = elim (Bool-cases (accepted c)) [
  | inl y ↦ simp (y) (
      add_candidate-SafeBuilder (masked c.prefix) (contributor_of c) s.builders
        (unfold accepted in ground arith) h)
  | inr n ↦ simp (n) h
]

collect-SafeBuilder :
    (cs : List Candidate) (s : Collected)
    → All SafeBuilder s.builders
    → All SafeBuilder (collect cs s).builders
unfolding collect
collect-SafeBuilder [] s h = h
collect-SafeBuilder (c ∷ cs) s h =
    collect-SafeBuilder cs (collect_one c s) (collect_one-SafeBuilder c s h)

-- What a finished object promises.
pub record IsSound (allowlist : List Prefix) (o : Object) : Type 0 where
  pub safe : (is_safe_prefix o.prefix).0 ≡ true
  pub allowed : o.desired ≡ true → overlaps_allowlist o.prefix allowlist ≡ false
  pub listed :
      o.suppression ≡ Suppression.suppressed_allowlist
      → overlaps_allowlist o.prefix allowlist ≡ true
  pub marked : o.desired ≡ true → o.suppression ≡ Suppression.suppressed_none
  pub unmarked : o.suppression ≡ Suppression.suppressed_none → o.desired ≡ true
  pub hosts_covered : o.suppression ≡ Suppression.suppressed_covered → o.scope ≡ Scope.ip

object_of-IsSound :
    (allowlist : List Prefix) (b : Builder)
    → SafeBuilder b
    → IsSound allowlist (object_of allowlist b)
unfolding object_of
object_of-IsSound allowlist b s = ground arith

cover_one-IsSound :
    (allowlist : List Prefix) (o : Object) (all : List Object)
    → IsSound allowlist o
    → IsSound allowlist (cover_one o all)
unfolding cover_one
cover_one-IsSound allowlist o all s = ground arith

cover_loop-IsSound :
    (allowlist : List Prefix) (done rest : List Object)
    → All (IsSound allowlist) done
    → All (IsSound allowlist) rest
    → All (IsSound allowlist) (cover_loop done rest)
unfolding cover_loop
cover_loop-IsSound allowlist done [] d r = d
cover_loop-IsSound allowlist done (o ∷ rest) d r =
    let o' = cover_one o (done ++ o ∷ rest) in
    cover_loop-IsSound allowlist (done ++ o' ∷ []) rest
      (All-append (IsSound allowlist) done (o' ∷ []) d
        (cover_one-IsSound allowlist o (done ++ o ∷ rest) r.0, tt))
      r.1

objects-IsSound :
    (allowlist : List Prefix) (bs : List Builder)
    → All SafeBuilder bs
    → All (IsSound allowlist) (map (object_of allowlist) bs)
objects-IsSound allowlist [] h = tt
objects-IsSound allowlist (b ∷ bs) h =
    (object_of-IsSound allowlist b h.0, objects-IsSound allowlist bs h.1)

-- Every object has a safe prefix (valid, masked, global and outside all special networks), is
-- desired exactly when nothing suppresses it, overlaps no allowlist entry if it is desired and one
-- if the allowlist suppresses it, and has host scope if a range suppresses it.
pub build_desired-IsSound :
    (cs : List Candidate) (allowlist : List Prefix)
    → All (IsSound allowlist) (build_desired cs allowlist).0
unfolding build_desired
build_desired-IsSound cs allowlist =
    let start : Collected = record { builders = []; rejected = 0; duplicates = 0 } in
    let bs = (collect cs start).builders in
    let objects = map (object_of allowlist) bs in
    cover_loop-IsSound allowlist [] (sort_by compare_object objects) tt (
      All-sort_by (IsSound allowlist) compare_object objects
        (objects-IsSound allowlist bs (collect-SafeBuilder cs start tt)))
