-- ===== src/App/Tally.antt =====
-- What the counters of the loop over the feeds count.
use crowdshield.Prelude.{
  length-append, ◌∙◌, ap, ◌||◌, suc, sym, arith, none, if◌then◌else◌, refl, length, [], ◌∷◌, some,
  false, ◌+◌, ◌++◌, ℕ, true, ◌≡◌, Option, Bool, List,
}
use crowdshield.App.Report.{
  operational_feed_result, ◌>>=◌, SyncFeed, unless, ErrorClass, tally_outcome, tally, bounded_int,
  Tally, add_bounded,
}
use mathlib.Core.Option.{some-injective}
use mathlib.Core.Path.{subst}
use crowdshield.Ops.Event.{FeedResult}
use crowdshield.Ops.Vocabulary.{max_count, Outcome}
use crowdshield.Prelude.Int.{+ℤ_assoc, ◌-ℤ◌, +ℤ_comm, ltb_ℤ, pos, ◌+ℤ◌, ℤ}

none-some {ℓ} : {A : Type ℓ} (a : A) → ¬ (none ≡ some a)
none-some a h = ground (arith, h)

pub >>=-some {ℓ κ} :
    {A : Type ℓ} {B : Type κ} (o : Option A) (f : A → Option B) (b : B)
    → (o >>= f) ≡ some b
    → (a : A) × (o ≡ some a) × (f a ≡ some b)
>>=-some none f b h = absurd (none-some b h)
>>=-some (some a) f b h = (a, refl, h)

pub unless-some {ℓ} :
    {B : Type ℓ} (t : Bool) (k : Option B) (b : B)
    → unless t k ≡ some b
    → (t ≡ false) × (k ≡ some b)
unless-some true k b h = absurd (none-some b h)
unless-some false k b h = (refl, h)

pub bounded_int-some : (v w : ℤ) → bounded_int v ≡ some w → v ≡ w
unfolding bounded_int
bounded_int-some v w h =
    some-injective v w (unless-some (ltb_ℤ v (pos 0) || ltb_ℤ (pos max_count) v) (some v) w h).1

pub add_bounded-some : (a b w : ℤ) → add_bounded a b ≡ some w → a +ℤ b ≡ w
unfolding add_bounded
add_bounded-some a b w h =
    let t = ltb_ℤ a (pos 0) || ltb_ℤ b (pos 0) || ltb_ℤ (pos max_count -ℤ b) a in
    some-injective (a +ℤ b) w (unless-some t (some (a +ℤ b)) w h).1

-- How many feeds have an outcome.
abbrev pub is_outcome : Outcome → Outcome → Bool
is_outcome Outcome.success Outcome.success = true
is_outcome Outcome.not_modified Outcome.not_modified = true
is_outcome Outcome.not_due Outcome.not_due = true
is_outcome Outcome.failed Outcome.failed = true
is_outcome _ _ = false

abbrev pub number_of : Outcome → List FeedResult → ℕ
number_of o [] = 0
number_of o (f ∷ fs) = if is_outcome o f.outcome then suc (number_of o fs) else number_of o fs

abbrev pub total_rejected : List FeedResult → ℤ
total_rejected [] = pos 0
total_rejected (f ∷ fs) = f.rejected +ℤ total_rejected fs

-- The counters count the feeds that are listed.
pub record IsCount (t : Tally) : Type 0 where
  pub succeeded : t.succeeded ≡ number_of Outcome.success t.feeds
  pub failed : t.failed ≡ number_of Outcome.failed t.feeds
  pub unchanged : t.unchanged ≡ number_of Outcome.not_modified t.feeds
  pub not_due : t.not_due ≡ number_of Outcome.not_due t.feeds
  pub rejected : t.rejected ≡ total_rejected t.feeds

number_of-append :
    (o : Outcome) (xs ys : List FeedResult)
    → number_of o (xs ++ ys) ≡ number_of o xs + number_of o ys
number_of-append o [] ys = omega arith
number_of-append o (x ∷ xs) ys = ground (arith, number_of-append o xs ys)

total_rejected-append :
    (xs : List FeedResult) (y : FeedResult)
    → total_rejected (xs ++ y ∷ []) ≡ total_rejected xs +ℤ y.rejected
total_rejected-append [] y = +ℤ_comm y.rejected (pos 0)
total_rejected-append (x ∷ xs) y =
    ap (λ s. x.rejected +ℤ s) (total_rejected-append xs y)
    ∙ sym (+ℤ_assoc x.rejected (total_rejected xs) y.rejected)

abbrev add_feed : FeedResult → ErrorClass → ℤ → Tally → Tally
add_feed item c rejected t = record (tally_outcome item.outcome c t) {
  feeds = t.feeds ++ item ∷ [];
  rejected = rejected;
}

add_feed-IsCount :
    (item : FeedResult) (c : ErrorClass) (rejected : ℤ) (t : Tally)
    → t.rejected +ℤ item.rejected ≡ rejected
    → IsCount t
    → IsCount (add_feed item c rejected t)
unfolding tally_outcome
add_feed-IsCount item c rejected t e i = record {
  succeeded = ground (arith, i.succeeded, number_of-append Outcome.success t.feeds (item ∷ []));
  failed = ground (arith, i.failed, number_of-append Outcome.failed t.feeds (item ∷ []));
  unchanged =
      ground (arith, i.unchanged, number_of-append Outcome.not_modified t.feeds (item ∷ []));
  not_due = ground (arith, i.not_due, number_of-append Outcome.not_due t.feeds (item ∷ []));
  rejected =
      sym e ∙ ap (λ r. r +ℤ item.rejected) i.rejected ∙ sym (total_rejected-append t.feeds item);
}

pub tally-IsCount :
    (fs : List SyncFeed) (t r : Tally)
    → IsCount t
    → tally fs t ≡ some r
    → IsCount r × (length r.feeds ≡ length t.feeds + length fs)
unfolding tally
tally-IsCount [] t r i h =
    let e = some-injective t r h in
    (subst IsCount e i, ap (λ s. length s.feeds) (sym e) ∙ omega arith)
tally-IsCount (f ∷ fs) t r i h =
    let (item, _, g) =
      >>=-some (operational_feed_result f)
        (λ item. add_bounded t.rejected item.rejected >>= λ rejected.
          tally fs (add_feed item f.error_class rejected t))
        r h in
    let (rejected, e, k) =
      >>=-some (add_bounded t.rejected item.rejected)
        (λ rejected. tally fs (add_feed item f.error_class rejected t)) r g in
    let (ih, il) =
      tally-IsCount fs (add_feed item f.error_class rejected t) r
        (add_feed-IsCount item f.error_class rejected t
          (add_bounded-some t.rejected item.rejected rejected e) i)
        k in
    (ih, omega (arith, il, length-append t.feeds (item ∷ [])))
