-- ===== src/State/Moves.antt =====
-- How the status of an operation moves, and what a statement on the table does to it.
use crowdshield.State.Tables.{
  is_failed, is_ambiguous, is_completed, is_pending, OperationRow, status_of, update, find,
  has_token,
}
use crowdshield.Prelude.{
  ◌∙◌, ap, sym, if◌then◌else◌, false, [], inr, inl, text_eq, Bool-cases, refl, ◌∷◌, true, ◌||◌,
  none, ◌++◌, arith, Bool, List, some, ◌≡◌, Text, Option,
}
use crowdshield.State.Records.{is_verified, OperationStatus}
use mathlib.Core.Path.{subst}

-- One step of an operation's status.
pub data Moves : OperationStatus → OperationStatus → Type 0 where
  verifies : Moves OperationStatus.pending OperationStatus.verified
  verifies_late : Moves OperationStatus.ambiguous OperationStatus.verified
  doubts : Moves OperationStatus.pending OperationStatus.ambiguous
  fails : Moves OperationStatus.pending OperationStatus.failed
  fails_late : Moves OperationStatus.ambiguous OperationStatus.failed
  completes : Moves OperationStatus.verified OperationStatus.completed

pub data Reach : OperationStatus → OperationStatus → Type 0 where
  stays : {a : OperationStatus} → Reach a a
  after : {a b c : OperationStatus} → Reach a b → Moves b c → Reach a c

-- What is kept of the status of a token: an operation is not lost, and its status only moves.
abbrev pub Follows : Option OperationStatus → Option OperationStatus → Type 0
Follows none y = Unit
Follows (some a) none = ⊥
Follows (some a) (some b) = Reach a b

pub Reach-trans : {a b c : OperationStatus} → Reach a b → Reach b c → Reach a c
Reach-trans r Reach.stays = r
Reach-trans r (Reach.after q m) = Reach.after (Reach-trans r q) m

pub Follows-refl : (x : Option OperationStatus) → Follows x x
Follows-refl none = tt
Follows-refl (some a) = Reach.stays

pub Follows-trans : (x y z : Option OperationStatus) → Follows x y → Follows y z → Follows x z
Follows-trans none y z f g = tt
Follows-trans (some a) none z f g = absurd f
Follows-trans (some a) (some b) none f g = absurd g
Follows-trans (some a) (some b) (some c) f g = Reach-trans f g

-- What the guard of `CompleteOperation` admits.
pub completes-Reach :
    (s : OperationStatus)
    → (is_verified s || is_completed s) ≡ true
    → Reach s OperationStatus.completed
completes-Reach OperationStatus.unset h = absurd (ground (arith, h))
completes-Reach OperationStatus.pending h = absurd (ground (arith, h))
completes-Reach OperationStatus.verified h = Reach.after Reach.stays Moves.completes
completes-Reach OperationStatus.completed h = Reach.stays
completes-Reach OperationStatus.failed h = absurd (ground (arith, h))
completes-Reach OperationStatus.ambiguous h = absurd (ground (arith, h))

-- What the guard of `RecordVerifiedOperation` admits.
pub verifies-Reach :
    (s : OperationStatus)
    → (is_pending s || is_ambiguous s) ≡ true
    → Reach s OperationStatus.verified
verifies-Reach OperationStatus.unset h = absurd (ground (arith, h))
verifies-Reach OperationStatus.pending h = Reach.after Reach.stays Moves.verifies
verifies-Reach OperationStatus.verified h = absurd (ground (arith, h))
verifies-Reach OperationStatus.completed h = absurd (ground (arith, h))
verifies-Reach OperationStatus.failed h = absurd (ground (arith, h))
verifies-Reach OperationStatus.ambiguous h = Reach.after Reach.stays Moves.verifies_late

-- What the guard of `SetOperationStatus` admits.
pub ends-Reach :
    (s s' : OperationStatus)
    → (is_pending s || is_ambiguous s) ≡ true
    → (is_ambiguous s' || is_failed s') ≡ true
    → Reach s s'
ends-Reach s OperationStatus.unset h k = absurd (ground (arith, k))
ends-Reach s OperationStatus.pending h k = absurd (ground (arith, k))
ends-Reach s OperationStatus.verified h k = absurd (ground (arith, k))
ends-Reach s OperationStatus.completed h k = absurd (ground (arith, k))
ends-Reach OperationStatus.pending OperationStatus.failed h k = Reach.after Reach.stays Moves.fails
ends-Reach OperationStatus.pending OperationStatus.ambiguous h k =
    Reach.after Reach.stays Moves.doubts
ends-Reach OperationStatus.ambiguous OperationStatus.failed h k =
    Reach.after Reach.stays Moves.fails_late
ends-Reach OperationStatus.ambiguous OperationStatus.ambiguous h k = Reach.stays
ends-Reach OperationStatus.unset OperationStatus.failed h k = absurd (ground (arith, h))
ends-Reach OperationStatus.verified OperationStatus.failed h k = absurd (ground (arith, h))
ends-Reach OperationStatus.completed OperationStatus.failed h k = absurd (ground (arith, h))
ends-Reach OperationStatus.failed OperationStatus.failed h k = absurd (ground (arith, h))
ends-Reach OperationStatus.unset OperationStatus.ambiguous h k = absurd (ground (arith, h))
ends-Reach OperationStatus.verified OperationStatus.ambiguous h k = absurd (ground (arith, h))
ends-Reach OperationStatus.completed OperationStatus.ambiguous h k = absurd (ground (arith, h))
ends-Reach OperationStatus.failed OperationStatus.ambiguous h k = absurd (ground (arith, h))

-- A failed operation stays failed.
pub Reach-failed :
    {b : OperationStatus} → Reach OperationStatus.failed b → b ≡ OperationStatus.failed
Reach-failed r = from r refl
  where
    from :
        {a b : OperationStatus}
        → Reach a b
        → a ≡ OperationStatus.failed
        → b ≡ OperationStatus.failed
    from Reach.stays e = e
    from (Reach.after q Moves.verifies) e = absurd (ground (arith, from q e))
    from (Reach.after q Moves.verifies_late) e = absurd (ground (arith, from q e))
    from (Reach.after q Moves.doubts) e = absurd (ground (arith, from q e))
    from (Reach.after q Moves.fails) e = refl
    from (Reach.after q Moves.fails_late) e = refl
    from (Reach.after q Moves.completes) e = absurd (ground (arith, from q e))

status_of_hit :
    (token : Text) (o : OperationRow) (ops : List OperationRow)
    → text_eq o.token token ≡ true
    → status_of token (o ∷ ops) ≡ some o.status
unfolding status_of find
status_of_hit token o ops y = rw (y, status_of) refl

pub status_of_miss :
    (token : Text) (o : OperationRow) (ops : List OperationRow)
    → text_eq o.token token ≡ false
    → status_of token (o ∷ ops) ≡ status_of token ops
unfolding status_of find
status_of_miss token o ops n = rw (n, status_of) refl

follow_by : {x x' y y' : Option OperationStatus} → x ≡ x' → y ≡ y' → Follows x' y' → Follows x y
follow_by {x' = x'} {y = y} e e' f =
    subst (λ x. Follows x y) (sym e) (subst (λ y. Follows x' y) (sym e') f)

-- The two ways in which a table starts alike for a token.
meets :
    (token : Text) (o o' : OperationRow) (ops ops' : List OperationRow)
    → o'.token ≡ o.token
    → (text_eq o.token token ≡ true → Reach o.status o'.status)
    → (text_eq o.token token ≡ false → Follows (status_of token ops) (status_of token ops'))
    → Follows (status_of token (o ∷ ops)) (status_of token (o' ∷ ops'))
meets token o o' ops ops' same hit miss = elim (Bool-cases (text_eq o.token token)) [
  | inl y ↦
      follow_by (status_of_hit token o ops y)
        (status_of_hit token o' ops' (ap (λ t. text_eq t token) same ∙ y)) (hit y)
  | inr n ↦
      follow_by (status_of_miss token o ops n)
        (status_of_miss token o' ops' (ap (λ t. text_eq t token) same ∙ n)) (miss n)
]

-- An update whose rows keep their token.
module _ (q : OperationRow → Bool) (f : OperationRow → OperationRow)
    (keeps : (o : OperationRow) → (f o).token ≡ o.token) where
  touched-token : (o : OperationRow) → (if q o then f o else o).token ≡ o.token
  touched-token o = elim (Bool-cases (q o)) [ inl c ↦ rw c (keeps o) | inr c ↦ rw c refl ]

  touched-Reach :
      (o : OperationRow)
      → (q o ≡ true → Reach o.status (f o).status)
      → Reach o.status (if q o then f o else o).status
  touched-Reach o legal = elim (Bool-cases (q o)) [
    | inl c ↦ rw c (legal c)
    | inr c ↦ rw c Reach.stays
  ]

  pub update-Follows :
      (token : Text) (ops : List OperationRow)
      → ((o : OperationRow)
          → find (has_token token) ops ≡ some o
          → q o ≡ true
          → Reach o.status (f o).status)
      → Follows (status_of token ops) (status_of token (update q f ops))
  unfolding update find
  update-Follows token [] legal = Follows-refl (status_of token [])
  update-Follows token (o ∷ ops) legal =
      meets token o (if q o then f o else o) ops (update q f ops) (touched-token o)
        (λ y. touched-Reach o (λ c. legal o (rw y refl) c))
        (λ n. update-Follows token ops (λ o' h c. legal o' (rw n h) c))

pub insert-Follows :
    (token : Text) (ops new : List OperationRow)
    → Follows (status_of token ops) (status_of token (ops ++ new))
unfolding status_of find
insert-Follows token [] new = tt
insert-Follows token (o ∷ ops) new =
    meets token o o ops (ops ++ new) refl (λ y. Reach.stays) (λ n. insert-Follows token ops new)
