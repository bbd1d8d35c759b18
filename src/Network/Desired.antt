-- ===== src/Network/Desired.antt =====
-- internal/network/dedupe.go: `BuildDesired`, in its stages.
use crowdshield.Prelude.{
  ℕ, suc, ◌+◌, Bool, true, false, Option, none, some, List, [], ◌∷◌, ◌++◌, map, ◌==◌, ltb, ◌&&◌,
  ◌||◌, not, exists, Text, text_eq, is_empty, length, if◌then◌else◌,
}
use crowdshield.Prelude.Int.{ℤ, pos, pos_part, neg_part, ltb_ℤ}
use Prim.Native.Nat.{compare, Ordering}
use crowdshield.Network.Address.{
  Prefix, is4, bit_len, is_valid, bits, prefix_eq, masked, contains, overlaps, then_by,
  compare_addr,
}
use crowdshield.Network.Safety.{Kind, is_safe_prefix, kind_fits}

pub data Scope : Type 0 where
  ip range : Scope

pub data Suppression : Type 0 where
  suppressed_none suppressed_allowlist suppressed_covered : Suppression

pub record Candidate : Type 0 where
  pub prefix : Prefix
  pub kind : Kind
  pub feed_id : ℤ
  pub feed_name : Text
  pub feed_order : ℤ

pub record Contributor : Type 0 where
  pub feed_id : ℤ
  pub feed_name : Text
  pub feed_order : ℤ
  pub kind : Kind

pub record Object : Type 0 where
  pub prefix : Prefix
  pub scope : Scope
  pub contributors : List Contributor
  pub primary : Contributor
  pub desired : Bool
  pub suppression : Suppression
  pub covered_by : Option Prefix

pub record Summary : Type 0 where
  pub input : ℕ
  pub objects : ℕ
  pub desired : ℕ
  pub exact_duplicates : ℕ
  pub rejected_safety : ℕ
  pub allowlisted : ℕ
  pub covered_hosts : ℕ

-- The first contributor stands apart, since a builder is never without one.
pub record Builder : Type 0 where
  pub prefix : Prefix
  pub first : Contributor
  pub others : List Contributor

abbrev pub compare_ℤ : ℤ → ℤ → Ordering
compare_ℤ a b = compare (pos_part a + neg_part b) (pos_part b + neg_part a)

-- `cmp.Compare` on strings.
abbrev pub compare_text : Text → Text → Ordering
compare_text [] [] = Ordering.eq
compare_text [] (b ∷ bs) = Ordering.lt
compare_text (a ∷ as') [] = Ordering.gt
compare_text (a ∷ as') (b ∷ bs) = then_by (compare a b) (compare_text as' bs)

abbrev pub kind_rank : Kind → ℕ
kind_rank Kind.invalid = 0
kind_rank Kind.ip = 1
kind_rank Kind.range = 2

unfoldable pub compare_contributor : Contributor → Contributor → Ordering
compare_contributor a b = then_by (compare_ℤ a.feed_order b.feed_order) (
    then_by (compare_text a.feed_name b.feed_name)
      (then_by (compare_ℤ a.feed_id b.feed_id) (compare (kind_rank a.kind) (kind_rank b.kind))))

unfoldable pub compare_object : Object → Object → Ordering
compare_object a b =
    if is4 a.prefix.ip && not (is4 b.prefix.ip)
    then Ordering.lt
    else if not (is4 a.prefix.ip) && is4 b.prefix.ip
    then Ordering.gt
    else then_by (compare_addr a.prefix.ip b.prefix.ip) (compare (bits a.prefix) (bits b.prefix))

abbrev pub is_gt : Ordering → Bool
is_gt Ordering.gt = true
is_gt _ = false

-- `slices.SortFunc`, as an insertion sort.
module _ {ℓ} {A : Type ℓ} (cmp : A → A → Ordering) where
  unfoldable pub insert_by : A → List A → List A
  insert_by x [] = x ∷ []
  insert_by x (y ∷ ys) =
      let rest = insert_by x ys in if is_gt (cmp x y) then y ∷ rest else x ∷ y ∷ ys

  unfoldable pub sort_by : List A → List A
  unfolding insert_by
  sort_by [] = []
  sort_by (x ∷ xs) = insert_by x (sort_by xs)

unfoldable pub overlaps_allowlist : Prefix → List Prefix → Bool
overlaps_allowlist p allowlist =
    exists (λ allowed. is_valid allowed && overlaps p (masked allowed)) allowlist

-- The test of the first loop, on the masked prefix.
unfoldable pub accepted : Candidate → Bool
accepted c =
    (is_safe_prefix (masked c.prefix)).0
    && kind_fits (masked c.prefix) c.kind
    && not (ltb_ℤ c.feed_id (pos 1))
    && not (is_empty c.feed_name)

abbrev pub contributor_of : Candidate → Contributor
contributor_of c = record {
  feed_id = c.feed_id;
  feed_name = c.feed_name;
  feed_order = c.feed_order;
  kind = c.kind;
}

-- Equality of `contributorKey`s.
abbrev pub same_key : Contributor → Contributor → Bool
same_key a b =
    pos_part a.feed_id == pos_part b.feed_id
    && neg_part a.feed_id == neg_part b.feed_id
    && text_eq a.feed_name b.feed_name
    && kind_rank a.kind == kind_rank b.kind

unfoldable pub add_contributor : Contributor → Builder → Builder
add_contributor c b =
    if exists (same_key c) (b.first ∷ b.others) then b else record b { others = b.others ++ c ∷ [] }

-- Into the builder of its prefix, or into a new one; and whether there was one.
unfoldable pub add_candidate : Prefix → Contributor → List Builder → List Builder × Bool
unfolding add_contributor
add_candidate p c [] = (record { prefix = p; first = c; others = [] } ∷ [], false)
add_candidate p c (b ∷ bs) =
    let rest = add_candidate p c bs in
    if prefix_eq b.prefix p then (add_contributor c b ∷ bs, true) else (b ∷ rest.0, rest.1)

pub record Collected : Type 0 where
  pub builders : List Builder
  pub rejected : ℕ
  pub duplicates : ℕ

unfoldable pub collect_one : Candidate → Collected → Collected
unfolding add_candidate accepted
collect_one c s =
    if accepted c
    then (let r = add_candidate (masked c.prefix) (contributor_of c) s.builders in
        record s { builders = r.0; duplicates = if r.1 then suc s.duplicates else s.duplicates })
    else record s { rejected = suc s.rejected }

-- The first loop.
unfoldable pub collect : List Candidate → Collected → Collected
unfolding collect_one
collect [] s = s
collect (c ∷ cs) s = collect cs (collect_one c s)

abbrev pub is_ip_kind : Kind → Bool
is_ip_kind Kind.ip = true
is_ip_kind _ = false

abbrev pub head_or : Contributor → List Contributor → Contributor
head_or d [] = d
head_or d (c ∷ cs) = c

-- The second loop's body: one object of one builder.
unfoldable pub object_of : List Prefix → Builder → Object
unfolding sort_by overlaps_allowlist
object_of allowlist b =
    let sorted = sort_by compare_contributor (b.first ∷ b.others) in
    let allowed = overlaps_allowlist b.prefix allowlist in
    record {
      prefix = b.prefix;
      scope = if exists (λ c. is_ip_kind c.kind) sorted then Scope.ip else Scope.range;
      contributors = sorted;
      primary = head_or b.first sorted;
      desired = not allowed;
      suppression =
          if allowed then Suppression.suppressed_allowlist else Suppression.suppressed_none;
      covered_by = none;
    }

abbrev pub is_ip_scope : Scope → Bool
is_ip_scope Scope.ip = true
is_ip_scope Scope.range = false

-- A desired range that contains the host; its scope differs, so it is another object.
unfoldable pub covers : Object → Object → Bool
covers host o =
    o.desired
    && not (is_ip_scope o.scope)
    && ltb (bits o.prefix) (bit_len host.prefix.ip)
    && contains o.prefix host.prefix.ip

abbrev pub is_lt : Ordering → Bool
is_lt Ordering.lt = true
is_lt _ = false

-- The inner loop: the most specific range, and the lowest address among equals.
unfoldable pub better : Option Prefix → Prefix → Bool
better none p = true
better (some c) p = ltb (bits c) (bits p) || (bits p == bits c && is_lt (compare_addr p.ip c.ip))

unfoldable pub covering : Object → Option Prefix → List Object → Option Prefix
unfolding covers better
covering host best [] = best
covering host best (o ∷ os) =
    covering host (if covers host o && better best o.prefix then some o.prefix else best) os

abbrev pub suppress : Object → Option Prefix → Object
suppress o none = o
suppress o (some p) = record o {
  desired = false;
  suppression = Suppression.suppressed_covered;
  covered_by = some p;
}

-- One round of the third loop, which sees the objects as the rounds before it left them.
unfoldable pub cover_one : Object → List Object → Object
unfolding covering
cover_one o all = if o.desired && is_ip_scope o.scope then suppress o (covering o none all) else o

unfoldable pub cover_loop : List Object → List Object → List Object
unfolding cover_one
cover_loop done [] = done
cover_loop done (o ∷ rest) = cover_loop (done ++ cover_one o (done ++ o ∷ rest) ∷ []) rest

abbrev pub count : (Object → Bool) → List Object → ℕ
count p [] = 0
count p (o ∷ os) = if p o then suc (count p os) else count p os

abbrev pub is_allowlisted : Object → Bool
is_allowlisted o = elim o.suppression [ Suppression.suppressed_allowlist ↦ true | _ ↦ false ]

abbrev pub is_covered : Object → Bool
is_covered o = elim o.suppression [ Suppression.suppressed_covered ↦ true | _ ↦ false ]

-- The counters of the loops are counts over the finished objects: each round adds to a counter
-- exactly when it writes the suppression that is counted, and no later round overwrites one.
unfoldable pub build_desired : List Candidate → List Prefix → List Object × Summary
unfolding collect object_of cover_loop sort_by
build_desired candidates allowlist =
    let start : Collected = record { builders = []; rejected = 0; duplicates = 0 } in
    let s = collect candidates start in
    let objects = map (object_of allowlist) s.builders in
    let final = cover_loop [] (sort_by compare_object objects) in
    (
      final,
      record {
        input = length candidates;
        objects = length final;
        desired = count (λ o. o.desired) final;
        exact_duplicates = s.duplicates;
        rejected_safety = s.rejected;
        allowlisted = count is_allowlisted objects;
        covered_hosts = count is_covered final;
      },
    )
