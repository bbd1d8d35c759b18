-- ===== src/Feed/Order.antt =====
-- The order of entries, and what sorting by it gives.
use crowdshield.Prelude.{
  inr, ◌∙◌, ◌||◌, ap, sym, inl, All, Bool, refl, Bool-cases, false, [], ◌==◌, exists, ◌∷◌, arith,
  true, ◌≡◌, List,
}
use crowdshield.Feed.Validate.{compare_entry, same_entry}
use crowdshield.Network.Desired.{is_gt, insert_by, sort_by, kind_rank}
use crowdshield.State.Records.{Entry}
use Prim.Native.Nat.{Ordering}
use crowdshield.Network.Address.{addr_eq, compare_addr, is_valid, Addr}
use crowdshield.Network.Safety.{Kind}
use crowdshield.Network.Masking.{prefix_eq→eq}
use mathlib.Core.Path.{subst}
use crowdshield.Network.Counts.{All-sort_by}

-- A valid prefix, so that `bits` tells it.
abbrev pub Valid : Entry → Type 0
Valid e = is_valid e.prefix ≡ true

-- Each entry is before the next.
abbrev pub Ascending : List Entry → Type 0
Ascending [] = Unit
Ascending (e ∷ []) = Unit
Ascending (e ∷ f ∷ es) = (compare_entry e f ≡ Ordering.lt) × Ascending (f ∷ es)

abbrev pub Distinct : List Entry → Type 0
Distinct [] = Unit
Distinct (e ∷ es) = (exists (same_entry e) es ≡ false) × Distinct es

kind_rank-injective : (a b : Kind) → (kind_rank a == kind_rank b) ≡ true → a ≡ b
kind_rank-injective a b h = ground (arith, h)

pub same_entry→eq : (a b : Entry) → same_entry a b ≡ true → a ≡ b
same_entry→eq a b h =
    ground (arith, h, prefix_eq→eq a.prefix b.prefix, kind_rank-injective a.kind b.kind)

compare_addr-flip : (a b : Addr) → compare_addr a b ≡ Ordering.gt → compare_addr b a ≡ Ordering.lt
compare_addr-flip a b h = ground (arith, h)

compare_addr-eq : (a b : Addr) → compare_addr a b ≡ Ordering.eq → addr_eq a b ≡ true
compare_addr-eq a b h = ground (arith, h)

compare_entry-flip :
    (a b : Entry) → compare_entry a b ≡ Ordering.gt → compare_entry b a ≡ Ordering.lt
unfolding compare_entry
compare_entry-flip a b h = ground (arith, h)

compare_entry-eq :
    (a b : Entry) → Valid a → Valid b → compare_entry a b ≡ Ordering.eq → same_entry a b ≡ true
unfolding compare_entry
compare_entry-eq a b v w h = ground (arith, h, v, w)

compare_entry_trans :
    (a b c : Entry)
    → compare_entry a b ≡ Ordering.lt
    → compare_entry b c ≡ Ordering.lt
    → compare_entry a c ≡ Ordering.lt
unfolding compare_entry
compare_entry_trans a b c h k = ground (arith, h, k)

insert_by-exists :
    (q : Entry → Bool) (e : Entry) (es : List Entry)
    → exists q (insert_by compare_entry e es) ≡ (q e || exists q es)
unfolding insert_by
insert_by-exists q e [] = refl
insert_by-exists q e (f ∷ es) = elim (Bool-cases (is_gt (compare_entry e f))) [
  | inl y ↦ rw (y, insert_by) (ground (arith, insert_by-exists q e es))
  | inr n ↦ rw (n, insert_by) refl
]

pub sort_by-exists :
    (q : Entry → Bool) (es : List Entry) → exists q (sort_by compare_entry es) ≡ exists q es
unfolding sort_by
sort_by-exists q [] = refl
sort_by-exists q (e ∷ es) =
    insert_by-exists q e (sort_by compare_entry es) ∙ ap (λ b. q e || b) (sort_by-exists q es)

not_gt :
    (a b : Entry)
    → Valid a
    → Valid b
    → is_gt (compare_entry a b) ≡ false
    → same_entry a b ≡ false
    → compare_entry a b ≡ Ordering.lt
not_gt a b v w h n = by_order (compare_entry a b) refl h
  where
    by_order : (o : Ordering) → compare_entry a b ≡ o → is_gt o ≡ false → o ≡ Ordering.lt
    by_order Ordering.lt e g = refl
    by_order Ordering.eq e g = absurd (ground (arith, n, compare_entry-eq a b v w e))
    by_order Ordering.gt e g = absurd (ground (arith, g))

gt_of : (o : Ordering) → is_gt o ≡ true → o ≡ Ordering.gt
gt_of Ordering.lt h = absurd (ground (arith, h))
gt_of Ordering.eq h = absurd (ground (arith, h))
gt_of Ordering.gt h = refl

insert_by-Ascending :
    (e : Entry) (es : List Entry)
    → Valid e
    → All Valid es
    → exists (same_entry e) es ≡ false
    → Ascending es
    → Ascending (insert_by compare_entry e es)
unfolding insert_by
insert_by-Ascending e [] v w d a = tt
insert_by-Ascending e (f ∷ []) v w d a = elim (Bool-cases (is_gt (compare_entry e f))) [
  | inl y ↦ rw (y, insert_by) (compare_entry-flip e f (gt_of (compare_entry e f) y), tt)
  | inr n ↦ rw (n, insert_by) (not_gt e f v w.0 n (ground (arith, d)), tt)
]
insert_by-Ascending e (f ∷ g ∷ es) v w d a = elim (Bool-cases (is_gt (compare_entry e f))) [
  | inr n ↦ rw (n, insert_by) (not_gt e f v w.0 n (ground (arith, d)), a)
  | inl y ↦
      let ih : Ascending (insert_by compare_entry e (g ∷ es)) =
        insert_by-Ascending e (g ∷ es) v w.1 (ground (arith, d)) a.1 in
      let flip = compare_entry-flip e f (gt_of (compare_entry e f) y) in
      rw (y, insert_by)
        (elim (Bool-cases (is_gt (compare_entry e g))) [
          | inl z ↦ rw (z, insert_by) (a.0, rw (z, insert_by) at ih)
          | inr m ↦ rw (m, insert_by) (flip, rw (m, insert_by) at ih)
        ])
]

pub sort_by-Ascending :
    (es : List Entry) → All Valid es → Distinct es → Ascending (sort_by compare_entry es)
unfolding sort_by
sort_by-Ascending [] v d = tt
sort_by-Ascending (e ∷ es) v d =
    insert_by-Ascending e (sort_by compare_entry es) v.0 (All-sort_by Valid compare_entry es v.1)
      (sort_by-exists (same_entry e) es ∙ d.0) (sort_by-Ascending es v.1 d.1)

-- The head of an ascending list is before the rest.
pub head_first :
    (e x : Entry) (es : List Entry)
    → Ascending (e ∷ es)
    → exists (same_entry x) es ≡ true
    → compare_entry e x ≡ Ordering.lt
head_first e x [] a h = absurd (ground (arith, h))
head_first e x (f ∷ es) a h = elim (Bool-cases (same_entry x f)) [
  | inl y ↦ subst (λ z. compare_entry e z ≡ Ordering.lt) (sym (same_entry→eq x f y)) a.0
  | inr n ↦ compare_entry_trans e f x a.0 (head_first f x es a.1 (ground (arith, h, n)))
]

pub tail_Ascending : (e : Entry) (es : List Entry) → Ascending (e ∷ es) → Ascending es
tail_Ascending e [] a = tt
tail_Ascending e (f ∷ es) a = a.1

same_entry_refl : (e : Entry) → same_entry e e ≡ true
same_entry_refl e = ground arith

pub irreflexive : (e : Entry) → ¬ (compare_entry e e ≡ Ordering.lt)
unfolding compare_entry
irreflexive e h = ground (arith, h)

-- Every member of the first list is one of the second.
abbrev pub Within : List Entry → List Entry → Type 0
Within es fs = (x : Entry) → exists (same_entry x) es ≡ true → exists (same_entry x) fs ≡ true

heads_agree :
    (e f : Entry) (es fs : List Entry)
    → Ascending (e ∷ es)
    → Ascending (f ∷ fs)
    → Within (e ∷ es) (f ∷ fs)
    → Within (f ∷ fs) (e ∷ es)
    → e ≡ f
heads_agree e f es fs a b w v = elim (Bool-cases (same_entry e f)) [
  | inl y ↦ same_entry→eq e f y
  | inr n ↦ elim (Bool-cases (same_entry f e)) [
    | inl y ↦ sym (same_entry→eq f e y)
    | inr m ↦
        let later =
          head_first f e fs b (ground (arith, n, w e (ground (arith, same_entry_refl e)))) in
        let sooner =
          head_first e f es a (ground (arith, m, v f (ground (arith, same_entry_refl f)))) in
        absurd (irreflexive e (compare_entry_trans e f e sooner later))
  ]
]

tail-Within :
    (e : Entry) (es fs : List Entry) → Ascending (e ∷ es) → Within (e ∷ es) (e ∷ fs) → Within es fs
tail-Within e es fs a w x h = elim (Bool-cases (same_entry x e)) [
  | inl y ↦ absurd (
      irreflexive e (
        subst (λ z. compare_entry e z ≡ Ordering.lt) (same_entry→eq x e y) (head_first e x es a h)))
  | inr n ↦ ground (arith, n, w x (ground (arith, h)))
]

-- Ascending lists with the same members are equal.
pub Ascending-unique :
    (es fs : List Entry) → Ascending es → Ascending fs → Within es fs → Within fs es → es ≡ fs
Ascending-unique [] [] a b w v = refl
Ascending-unique [] (f ∷ fs) a b w v =
    absurd (ground (arith, v f (ground (arith, same_entry_refl f))))
Ascending-unique (e ∷ es) [] a b w v =
    absurd (ground (arith, w e (ground (arith, same_entry_refl e))))
Ascending-unique (e ∷ es) (f ∷ fs) a b w v =
    let h = heads_agree e f es fs a b w v in
    let b' = subst (λ z. Ascending (z ∷ fs)) (sym h) b in
    let w' = subst (λ z. Within (e ∷ es) (z ∷ fs)) (sym h) w in
    let v' = subst (λ z. Within (z ∷ fs) (e ∷ es)) (sym h) v in
    ap (λ l. e ∷ l)
      (Ascending-unique es fs (tail_Ascending e es a) (tail_Ascending e fs b')
        (tail-Within e es fs a w') (tail-Within e fs es b' v'))
    ∙ ap (λ z. z ∷ fs) h
