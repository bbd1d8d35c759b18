-- ===== src/Network/Counts.antt =====
-- The summary of `BuildDesired` accounts for every candidate and every object.
use crowdshield.Prelude.{
  inr, inl, All-append, ◌⊎◌, if◌then◌else◌, ℕ, suc, ◌+◌, ◌≡◌, refl, true, false, Bool, List, [],
  ◌∷◌, ◌++◌, map, arith, ap, ◌∙◌, length, length-append, Bool-cases, All,
}
use Prim.Native.Nat.{Ordering}
use crowdshield.Network.Address.{masked, Prefix}
use crowdshield.Network.Desired.{
  is_gt, contributor_of, Candidate, Contributor, Builder, Collected, collect, collect_one,
  add_candidate, Object, Suppression, object_of, insert_by, sort_by, cover_one, cover_loop, count,
  is_allowlisted, is_covered, build_desired, compare_object,
}

-- A builder more, or a duplicate more.
length-add_candidate :
    (p : Prefix) (c : Contributor) (bs : List Builder)
    → length (add_candidate p c bs).0 + (if (add_candidate p c bs).1 then 1 else 0)
      ≡ suc (length bs)
unfolding add_candidate
length-add_candidate p c [] = omega arith
length-add_candidate p c (b ∷ bs) = ground (arith, length-add_candidate p c bs)

abbrev total : Collected → ℕ
total s = length s.builders + s.duplicates + s.rejected

total-collect_one : (c : Candidate) (s : Collected) → total (collect_one c s) ≡ suc (total s)
unfolding collect_one
total-collect_one c s =
    ground (arith, length-add_candidate (masked c.prefix) (contributor_of c) s.builders)

total-collect : (cs : List Candidate) (s : Collected) → total (collect cs s) ≡ length cs + total s
unfolding collect
total-collect [] s = omega arith
total-collect (c ∷ cs) s = omega (arith, total-collect cs (collect_one c s), total-collect_one c s)

length-insert_by {ℓ} :
    {A : Type ℓ} (cmp : A → A → Ordering) (x : A) (xs : List A)
    → length (insert_by cmp x xs) ≡ suc (length xs)
unfolding insert_by
length-insert_by cmp x [] = refl
length-insert_by cmp x (y ∷ ys) = ground (arith, length-insert_by cmp x ys)

pub length-sort_by {ℓ} :
    {A : Type ℓ} (cmp : A → A → Ordering) (xs : List A) → length (sort_by cmp xs) ≡ length xs
unfolding sort_by
length-sort_by cmp [] = refl
length-sort_by cmp (x ∷ xs) =
    length-insert_by cmp x (sort_by cmp xs) ∙ ap suc (length-sort_by cmp xs)

length-map_object : (f : Builder → Object) (bs : List Builder) → length (map f bs) ≡ length bs
length-map_object f [] = refl
length-map_object f (b ∷ bs) = ap suc (length-map_object f bs)

length-cover_loop :
    (done rest : List Object) → length (cover_loop done rest) ≡ length done + length rest
unfolding cover_loop
length-cover_loop done [] = omega arith
length-cover_loop done (o ∷ rest) =
    let o' : List Object = cover_one o (done ++ o ∷ rest) ∷ [] in
    omega (arith, length-cover_loop (done ++ o') rest, length-append done o')

-- Counting goes through insertion, sorting and appending.
count-insert_by :
    (q : Object → Bool) (cmp : Object → Object → Ordering) (x : Object) (xs : List Object)
    → count q (insert_by cmp x xs) ≡ count q (x ∷ xs)
unfolding insert_by
count-insert_by q cmp x [] = refl
count-insert_by q cmp x (y ∷ ys) = ground (arith, count-insert_by q cmp x ys)

pub count-sort_by :
    (q : Object → Bool) (cmp : Object → Object → Ordering) (xs : List Object)
    → count q (sort_by cmp xs) ≡ count q xs
unfolding sort_by
count-sort_by q cmp [] = refl
count-sort_by q cmp (x ∷ xs) =
    ground (arith, count-sort_by q cmp xs, count-insert_by q cmp x (sort_by cmp xs))

count-append :
    (q : Object → Bool) (xs ys : List Object) → count q (xs ++ ys) ≡ count q xs + count q ys
count-append q [] ys = omega arith
count-append q (x ∷ xs) ys = ground (arith, count-append q xs ys)

-- An object is desired exactly when it is not suppressed.
abbrev Marked : Object → Type 0
Marked o =
    ((o.desired ≡ true) × (o.suppression ≡ Suppression.suppressed_none))
    ⊎ ((o.desired ≡ false) × (o.suppression ≡ Suppression.suppressed_allowlist))
    ⊎ ((o.desired ≡ false) × (o.suppression ≡ Suppression.suppressed_covered))

-- Before the third loop no object is covered.
abbrev pub Uncovered : Object → Type 0
Uncovered o =
    ((o.desired ≡ true) × (o.suppression ≡ Suppression.suppressed_none))
    ⊎ ((o.desired ≡ false) × (o.suppression ≡ Suppression.suppressed_allowlist))

object_of-Uncovered : (allowlist : List Prefix) (b : Builder) → Uncovered (object_of allowlist b)
unfolding object_of
object_of-Uncovered allowlist b = ground arith

cover_one-Marked :
    (o : Object) (all : List Object)
    → Uncovered o
    → Marked (cover_one o all) × (is_allowlisted (cover_one o all) ≡ is_allowlisted o)
unfolding cover_one
cover_one-Marked o all u = ground arith

module _ {ℓ κ} {A : Type ℓ} (P : A → Type κ) (cmp : A → A → Ordering) where
  All-insert_by : (x : A) (xs : List A) → P x → All P xs → All P (insert_by cmp x xs)
  unfolding insert_by
  All-insert_by x [] h k = (h, tt)
  All-insert_by x (y ∷ ys) h k = elim (Bool-cases (is_gt (cmp x y))) [
    | inl g ↦ rw (g, insert_by) (k.0, All-insert_by x ys h k.1)
    | inr g ↦ rw (g, insert_by) (h, k)
  ]

  pub All-sort_by : (xs : List A) → All P xs → All P (sort_by cmp xs)
  unfolding sort_by
  All-sort_by [] k = tt
  All-sort_by (x ∷ xs) k = All-insert_by x (sort_by cmp xs) k.0 (All-sort_by xs k.1)

pub All-Uncovered :
    (allowlist : List Prefix) (bs : List Builder) → All Uncovered (map (object_of allowlist) bs)
All-Uncovered allowlist [] = tt
All-Uncovered allowlist (b ∷ bs) = (object_of-Uncovered allowlist b, All-Uncovered allowlist bs)

cover_loop-Marked :
    (done rest : List Object)
    → All Marked done
    → All Uncovered rest
    → All Marked (cover_loop done rest)
      × (count is_allowlisted (cover_loop done rest)
          ≡ count is_allowlisted done + count is_allowlisted rest)
unfolding cover_loop
cover_loop-Marked done [] m u = (m, omega arith)
cover_loop-Marked done (o ∷ rest) m u =
    let o' = cover_one o (done ++ o ∷ rest) in
    let (om, oa) = cover_one-Marked o (done ++ o ∷ rest) u.0 in
    let ih =
      cover_loop-Marked (done ++ o' ∷ []) rest (All-append Marked done (o' ∷ []) m (om, tt)) u.1 in
    (ih.0, ground (arith, ih.1, oa, count-append is_allowlisted done (o' ∷ [])))

Marked-counts :
    (os : List Object)
    → All Marked os
    → length os ≡ count (λ o. o.desired) os + count is_allowlisted os + count is_covered os
Marked-counts [] m = omega arith
Marked-counts (o ∷ os) m = ground (arith, Marked-counts os m.1)

-- The summary accounts for everything: each candidate is rejected, a duplicate of an object or the
-- first of an object, and each object is desired, suppressed by the allowlist or covered by a range.
pub build_desired-counts :
    (cs : List Candidate) (allowlist : List Prefix)
    → let s = (build_desired cs allowlist).1 in
      (s.input ≡ s.rejected_safety + s.exact_duplicates + s.objects)
      × (s.objects ≡ s.desired + s.allowlisted + s.covered_hosts)
      × (s.objects ≡ length (build_desired cs allowlist).0)
unfolding build_desired
build_desired-counts cs allowlist =
    let start : Collected = record { builders = []; rejected = 0; duplicates = 0 } in
    let bs = (collect cs start).builders in
    let objects = map (object_of allowlist) bs in
    let sorted = sort_by compare_object objects in
    let marked =
      cover_loop-Marked [] sorted tt
        (All-sort_by Uncovered compare_object objects (All-Uncovered allowlist bs)) in
    (
      omega (
        arith,
        total-collect cs start,
        length-cover_loop [] sorted,
        length-sort_by compare_object objects,
        length-map_object (object_of allowlist) bs,
      ),
      omega (
        arith,
        Marked-counts (cover_loop [] sorted) marked.0,
        marked.1,
        count-sort_by is_allowlisted compare_object objects,
      ),
      refl,
    )
