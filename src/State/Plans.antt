-- ===== src/State/Plans.antt =====
-- The objects of `BuildDesired` and what `ApplyEnforcementPlan` asks of an object.
use crowdshield.Network.Desired.{
  is_ip_scope, head_or, is_ip_kind, same_key, Object, Contributor, Candidate, Builder, Collected,
  accepted, collect, collect_one, add_candidate, add_contributor, object_of, cover_one, cover_loop,
  build_desired, sort_by, insert_by, compare_object, compare_contributor, contributor_of,
}
use crowdshield.Network.Counts.{All-sort_by}
use crowdshield.Network.Masking.{prefix_eq→eq}
use crowdshield.Network.Desired.{covering, suppress}
use crowdshield.State.Enforcement.{
  is_unsuppressed, same_bool, is_primary, is_known_kind, validate_enforcement_object, source_fits,
}
use crowdshield.Network.Address.{bit_len, bits, Prefix, prefix_eq, masked}
use crowdshield.Ops.FeedName.{match_feed_name}
use crowdshield.Prelude.{
  none, ◌&&◌, some, Option, ◌++◌, length, map, All-append, sym, ◌==◌, inr, [], refl, every, arith,
  false, inl, ◌∷◌, true, exists, All, List, ◌≡◌, Bool-cases,
}
use crowdshield.Network.Safety.{Kind, kind_fits, is_safe_prefix}
use mathlib.Core.Path.{subst}
use crowdshield.Prelude.Int.{eq_ℤ_refl}

-- A contributor beside the prefix it names.
abbrev Fits : Prefix → Contributor → Type 0
Fits p c = (kind_fits p c.kind ≡ true) × (source_fits c ≡ true)

prefix_eq_sym : (p o : Prefix) → prefix_eq p o ≡ true → prefix_eq o p ≡ true
prefix_eq_sym p o h = ground (arith, h)

known_kind : (p : Prefix) (k : Kind) → kind_fits p k ≡ true → is_known_kind k ≡ true
unfolding kind_fits
known_kind p Kind.invalid h = ground (arith, h)
known_kind p Kind.ip h = refl
known_kind p Kind.range h = refl

accepted-Fits :
    (c : Candidate)
    → match_feed_name c.feed_name ≡ true
    → accepted c ≡ true
    → Fits (masked c.prefix) (contributor_of c)
unfolding accepted source_fits
accepted-Fits c m h =
    let k : kind_fits (masked c.prefix) c.kind ≡ true = ground (arith, h) in
    (k, ground (arith, h, m, known_kind (masked c.prefix) c.kind k))

-- A builder with a safe prefix and contributors that fit it.
record IsFit (b : Builder) : Type 0 where
  safe : (is_safe_prefix b.prefix).0 ≡ true
  sources : All (Fits b.prefix) (b.first ∷ b.others)

add_contributor-IsFit :
    (c : Contributor) (b : Builder) → Fits b.prefix c → IsFit b → IsFit (add_contributor c b)
unfolding add_contributor
add_contributor-IsFit c b f h = elim (Bool-cases (exists (same_key c) (b.first ∷ b.others))) [
  | inl y ↦ rw (y, add_contributor) h
  | inr n ↦
      rw (n, add_contributor)
        (record {
          safe = h.safe;
          sources = All-append (Fits b.prefix) (b.first ∷ b.others) (c ∷ []) h.sources (f, tt);
        })
]

add_candidate-IsFit :
    (p : Prefix) (c : Contributor) (bs : List Builder)
    → (is_safe_prefix p).0 ≡ true
    → Fits p c
    → All IsFit bs
    → All IsFit (add_candidate p c bs).0
unfolding add_candidate
add_candidate-IsFit p c [] s f h = (record { safe = s; sources = (f, tt) }, tt)
add_candidate-IsFit p c (b ∷ bs) s f h = elim (Bool-cases (prefix_eq b.prefix p)) [
  | inl e ↦
      rw (e, add_candidate)
        (
          add_contributor-IsFit c b (subst (λ q. Fits q c) (sym (prefix_eq→eq b.prefix p e)) f) h.0,
          h.1,
        )
  | inr e ↦ rw (e, add_candidate) (h.0, add_candidate-IsFit p c bs s f h.1)
]

collect_one-IsFit :
    (c : Candidate) (s : Collected)
    → match_feed_name c.feed_name ≡ true
    → All IsFit s.builders
    → All IsFit (collect_one c s).builders
unfolding collect_one
collect_one-IsFit c s m h = elim (Bool-cases (accepted c)) [
  | inl y ↦
      rw (y, collect_one)
        (add_candidate-IsFit (masked c.prefix) (contributor_of c) s.builders
          (unfold accepted in ground arith) (accepted-Fits c m y) h)
  | inr n ↦ rw (n, collect_one) h
]

abbrev pub Named : Candidate → Type 0
Named c = match_feed_name c.feed_name ≡ true

collect-IsFit :
    (cs : List Candidate) (s : Collected)
    → All Named cs
    → All IsFit s.builders
    → All IsFit (collect cs s).builders
unfolding collect
collect-IsFit [] s m h = h
collect-IsFit (c ∷ cs) s m h = collect-IsFit cs (collect_one c s) m.1 (collect_one-IsFit c s m.0 h)

-- Sources of a list of contributors.
every-source_fits :
    (p : Prefix) (cs : List Contributor) → All (Fits p) cs → every source_fits cs ≡ true
every-source_fits p [] h = refl
every-source_fits p (c ∷ cs) h = ground (arith, h.0.1, every-source_fits p cs h.1)

host_bits :
    (p : Prefix) (cs : List Contributor)
    → All (Fits p) cs
    → exists (λ (c : Contributor). is_ip_kind c.kind) cs ≡ true
    → (bits p == bit_len p.ip) ≡ true
host_bits p [] h e = ground (arith, e)
host_bits p (c ∷ cs) h e = elim (Bool-cases (is_ip_kind c.kind)) [
  | inl y ↦ of_kind c.kind y h.0.0
  | inr n ↦ host_bits p cs h.1 (rw n at e)
]
  where
    of_kind :
        (k : Kind) → is_ip_kind k ≡ true → kind_fits p k ≡ true → (bits p == bit_len p.ip) ≡ true
    of_kind Kind.invalid y f = absurd (ground (arith, y))
    of_kind Kind.ip y f = unfold kind_fits in ground (arith, f)
    of_kind Kind.range y f = absurd (ground (arith, y))

sort_by-filled :
    (c : Contributor) (cs : List Contributor)
    → (length (sort_by compare_contributor (c ∷ cs)) == 0) ≡ false
unfolding sort_by
sort_by-filled c cs = filled (sort_by compare_contributor cs)
  where
    filled : (ys : List Contributor) → (length (insert_by compare_contributor c ys) == 0) ≡ false
    filled [] = refl
    filled (y ∷ ys) = unfold insert_by in ground arith

primary_found :
    (d : Contributor) (cs : List Contributor)
    → (length cs == 0) ≡ false
    → exists (is_primary (head_or d cs)) cs ≡ true
primary_found d [] h = ground (arith, h)
primary_found d (c ∷ cs) h = ground (arith, eq_ℤ_refl c.feed_id)

-- What makes an object pass.
record IsAcceptable (o : Object) : Type 0 where
  safe : (is_safe_prefix o.prefix).0 ≡ true
  sources : All (Fits o.prefix) o.contributors
  filled : (length o.contributors == 0) ≡ false
  host : is_ip_scope o.scope ≡ true → (bits o.prefix == bit_len o.prefix.ip) ≡ true
  marked : same_bool o.desired (is_unsuppressed o.suppression) ≡ true
  primary : exists (is_primary o.primary) o.contributors ≡ true

pub safe_masked : (p : Prefix) → (is_safe_prefix p).0 ≡ true → masked p ≡ p
unfolding is_safe_prefix
safe_masked p h = sym (prefix_eq→eq p (masked p) (ground (arith, h)))

prefix_eq_refl : (p : Prefix) → prefix_eq p p ≡ true
prefix_eq_refl p = ground arith

validated : (o : Object) → IsAcceptable o → validate_enforcement_object o ≡ true
unfolding validate_enforcement_object
validated o a =
    rw (safe_masked o.prefix a.safe, validate_enforcement_object)
      (ground (
        arith,
        a.safe,
        prefix_eq_refl o.prefix,
        a.filled,
        a.host,
        a.marked,
        a.primary,
        every-source_fits o.prefix o.contributors a.sources,
      ))

object_of-IsAcceptable :
    (allowlist : List Prefix) (b : Builder) → IsFit b → IsAcceptable (object_of allowlist b)
unfolding object_of
object_of-IsAcceptable allowlist b h =
    let sorted = sort_by compare_contributor (b.first ∷ b.others) in
    let fit : All (Fits b.prefix) sorted =
      All-sort_by (Fits b.prefix) compare_contributor (b.first ∷ b.others) h.sources in
    let filled : (length sorted == 0) ≡ false = sort_by-filled b.first b.others in
    record {
      safe = h.safe;
      sources = fit;
      filled = filled;
      host = λ s. host_bits b.prefix sorted fit (ground (arith, s));
      marked = ground arith;
      primary = primary_found b.first sorted filled;
    }

cover_one-IsAcceptable :
    (o : Object) (all : List Object) → IsAcceptable o → IsAcceptable (cover_one o all)
unfolding cover_one
cover_one-IsAcceptable o all a = elim (Bool-cases (o.desired && is_ip_scope o.scope)) [
  | inl y ↦ rw (y, cover_one) (suppressed (covering o none all))
  | inr n ↦ rw (n, cover_one) a
]
  where
    suppressed : (best : Option Prefix) → IsAcceptable (suppress o best)
    suppressed none = a
    suppressed (some p) = record {
      safe = a.safe;
      sources = a.sources;
      filled = a.filled;
      host = a.host;
      marked = refl;
      primary = a.primary;
    }

cover_loop-IsAcceptable :
    (done rest : List Object)
    → All IsAcceptable done
    → All IsAcceptable rest
    → All IsAcceptable (cover_loop done rest)
unfolding cover_loop
cover_loop-IsAcceptable done [] d r = d
cover_loop-IsAcceptable done (o ∷ rest) d r =
    let o' = cover_one o (done ++ o ∷ rest) in
    cover_loop-IsAcceptable (done ++ o' ∷ []) rest
      (All-append IsAcceptable done (o' ∷ []) d
        (cover_one-IsAcceptable o (done ++ o ∷ rest) r.0, tt))
      r.1

objects-IsAcceptable :
    (allowlist : List Prefix) (bs : List Builder)
    → All IsFit bs
    → All IsAcceptable (map (object_of allowlist) bs)
objects-IsAcceptable allowlist [] h = tt
objects-IsAcceptable allowlist (b ∷ bs) h =
    (object_of-IsAcceptable allowlist b h.0, objects-IsAcceptable allowlist bs h.1)

every-validated :
    (os : List Object) → All IsAcceptable os → every validate_enforcement_object os ≡ true
every-validated [] h = refl
every-validated (o ∷ os) h = ground (arith, validated o h.0, every-validated os h.1)

-- Where every candidate's feed has a name that matches the pattern of feed names, each object that
-- `BuildDesired` returns passes `validateEnforcementObject`.
pub build_desired-validated :
    (cs : List Candidate) (allowlist : List Prefix)
    → All Named cs
    → every validate_enforcement_object (build_desired cs allowlist).0 ≡ true
unfolding build_desired
build_desired-validated cs allowlist m =
    let start : Collected = record { builders = []; rejected = 0; duplicates = 0 } in
    let bs = (collect cs start).builders in
    let objects = map (object_of allowlist) bs in
    every-validated (cover_loop [] (sort_by compare_object objects)) (
      cover_loop-IsAcceptable [] (sort_by compare_object objects) tt (
        All-sort_by IsAcceptable compare_object objects
          (objects-IsAcceptable allowlist bs (collect-IsFit cs start m tt))))
