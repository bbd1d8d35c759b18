-- ===== src/Ops/Laws.antt =====
-- internal/ops/event.go: what a validated event and a validated result look like.
use crowdshield.Prelude.{
  ◌>>◌, >>-eq-none, ◌<◌, ◌≡◌, refl, ◌≢◌, ◌↔◌, ◌⊎◌, inl, inr, true, false, Option, none, some, [],
  ◌∷◌, arith, Text, is_empty, Bool-cases,
}
use crowdshield.Prelude.Int.{pos, ◌≤ℤ◌}
use crowdshield.Ops.Vocabulary.{
  Code, Operation, Outcome, FailureCategory, max_duration, counts_valid, valid_failure,
  valid_outcome, valid_severity, code_operation, outcome_needs_failure,
}
use crowdshield.Ops.FeedName.{valid_feed_name}
use crowdshield.Ops.Event.{
  Error, Event, FeedResult, Result, wrong_labels, wrong_numbers, check_fields, check_failure,
  check_feed, validate_event, feed_result_valid, check_feeds, validate_result, outcome_check,
}

-- What may stand in an event, said field by field.
pub record EventFits (e : Event) : Type 0 where
  pub operation_of_code : code_operation e.code ≡ some e.operation
  pub known_outcome : valid_outcome e.outcome ≡ true
  pub known_severity : valid_severity e.severity ≡ true
  pub has_time : 0 < e.at
  pub duration_low : pos 0 ≤ℤ e.duration
  pub duration_high : e.duration ≤ℤ pos max_duration
  pub attempt_low : pos 0 ≤ℤ e.attempt
  pub attempt_high : e.attempt ≤ℤ pos 10
  pub bounded_counts : counts_valid e.counts ≡ true
  pub retry_counted : e.code ≡ Code.scheduler_retry → pos 1 ≤ℤ e.attempt
  pub failure_named : outcome_needs_failure e.outcome ≡ true → valid_failure e.failure ≡ true
  pub failure_absent : outcome_needs_failure e.outcome ≡ false → e.failure ≡ FailureCategory.unset
  pub cancelled_failure : e.outcome ≡ Outcome.cancelled → e.failure ≡ FailureCategory.cancelled
  pub feed_named : e.feed ≢ [] → valid_feed_name e.feed ≡ true
  pub feed_allowed :
      e.feed ≢ [] → (e.operation ≡ Operation.feed) ⊎ (e.operation ≡ Operation.notification)
  pub feed_required : e.code ≡ Code.feed_result → e.feed ≢ []

operation_of_known :
    (o : Option Operation) (p : Operation)
    → crowdshield.Ops.Event.wrong_operation o p ≡ false
    → o ≡ some p
operation_of_known none p h = ground arith
operation_of_known (some q) p h = ground arith

Empty-cases : (s : Text) → (s ≡ []) ⊎ (is_empty s ≡ false)
Empty-cases [] = inl refl
Empty-cases (c ∷ s) = inr refl

not-Empty : (s : Text) → is_empty s ≡ false → s ≢ []
not-Empty [] h e = ground arith
not-Empty (c ∷ s) h e = ground arith

validate_event_parts :
    (e : Event)
    → (validate_event e ≡ none)
      ↔ ((check_fields e ≡ none) × (check_failure e ≡ none) × (check_feed e ≡ none))
unfolding validate_event
validate_event_parts e = (
  λ h.
      let p = (>>-eq-none (check_fields e) (check_failure e >> check_feed e)).0 h in
      let q = (>>-eq-none (check_failure e) (check_feed e)).0 p.1 in (p.0, q.0, q.1),
  λ h. ground (arith, h.0, h.1, h.2),
)

validate_event-EventFits : (e : Event) → validate_event e ≡ none → EventFits e
validate_event-EventFits e h =
    let p = (validate_event_parts e).0 h in
    unfold check_fields check_failure check_feed in
    record {
      operation_of_code =
          operation_of_known (code_operation e.code) e.operation (ground (arith, p.0));
      known_outcome = ground (arith, p.0);
      known_severity = ground (arith, p.0);
      has_time = ground (arith, p.0);
      duration_low = ground (arith, p.0);
      duration_high = ground (arith, p.0);
      attempt_low = ground (arith, p.0);
      attempt_high = ground (arith, p.0);
      bounded_counts = ground (arith, p.0);
      retry_counted = ground (arith, p.0);
      failure_named = ground (arith, p.1);
      failure_absent = ground (arith, p.1);
      cancelled_failure = λ c. unfold outcome_needs_failure in ground (arith, p.1);
      feed_named =
          λ x. elim (Empty-cases e.feed) [ inl n ↦ absurd (x n) | inr n ↦ ground (arith, p.2) ];
      feed_allowed =
          λ x. elim (Empty-cases e.feed) [ inl n ↦ absurd (x n) | inr n ↦ ground (arith, p.2) ];
      feed_required = λ c x. ground (arith, p.2);
    }

right_labels :
    (e : Event)
    → code_operation e.code ≡ some e.operation
    → valid_outcome e.outcome ≡ true
    → valid_severity e.severity ≡ true
    → 0 < e.at
    → wrong_labels e ≡ false
unfolding wrong_labels
right_labels e o u v a = rw o (ground arith)

right_numbers :
    (e : Event)
    → pos 0 ≤ℤ e.duration
    → e.duration ≤ℤ pos max_duration
    → pos 0 ≤ℤ e.attempt
    → e.attempt ≤ℤ pos 10
    → counts_valid e.counts ≡ true
    → wrong_numbers e ≡ false
unfolding wrong_numbers
right_numbers e d d' a a' c = ground arith

fields_pass :
    (e : Event)
    → wrong_labels e ≡ false
    → wrong_numbers e ≡ false
    → (e.code ≡ Code.scheduler_retry → pos 1 ≤ℤ e.attempt)
    → check_fields e ≡ none
unfolding check_fields
fields_pass e l n r = rw (l, n, check_fields) (ground (arith, r))

EventFits-check_fields : (e : Event) → EventFits e → check_fields e ≡ none
EventFits-check_fields e f =
    let labels = right_labels e f.operation_of_code f.known_outcome f.known_severity f.has_time in
    let numbers =
      right_numbers e f.duration_low f.duration_high f.attempt_low f.attempt_high
        f.bounded_counts in
    fields_pass e labels numbers f.retry_counted

EventFits-check_failure : (e : Event) → EventFits e → check_failure e ≡ none
unfolding check_failure
EventFits-check_failure e f = ground (arith, f.failure_named, f.failure_absent, f.cancelled_failure)

EventFits-check_feed : (e : Event) → EventFits e → check_feed e ≡ none
unfolding check_feed
EventFits-check_feed e f = elim (Bool-cases (is_empty e.feed)) [
  | inl n ↦ ground (arith, f.feed_required)
  | inr n ↦ ground (arith, f.feed_named (not-Empty e.feed n), f.feed_allowed (not-Empty e.feed n))
]

-- An event passes validation exactly when its fields fit: the code determines the operation, all
-- numbers are in range, a failure category is present exactly for the outcomes that need one, and a
-- feed label is a feed name, on a feed or notification event only.
pub validate_event_iff : (e : Event) → (validate_event e ≡ none) ↔ EventFits e
validate_event_iff e = (
  validate_event-EventFits e,
  λ f.
      (validate_event_parts e).1
        (EventFits-check_fields e f, EventFits-check_failure e f, EventFits-check_feed e f),
)
