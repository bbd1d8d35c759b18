-- ===== src/State/RunLives.antt =====
-- Calls of the store that begin, complete and recover runs and that set the kept times, one after the
-- other, without PruneHistory.
use crowdshield.Prelude.{
  sym, leb, ◌==◌, none, ◌&&◌, ltb, is_empty, ◌||◌, Option, not, if◌then◌else◌, ◌∙◌, inr, arith, inl,
  Bool-cases, ◌≤◌, false, some, true, ◌≡◌, Text, Bool, ℕ, List, refl, ap, [], ◌∷◌,
}
use crowdshield.State.Runs.{
  moved_to, key_rank, safe_sync_result, FeedRunRow, valid_runtime_key, valid_sync_mode, RunStatus,
  status_for_result, bad_time, put_timestamp, SyncMode, RunTables, RunRow, RuntimeRow,
  RuntimeTimestampKey, begin_sync_run, set_runtime_timestamp, has_key, is_running, RunAnswer,
}
use crowdshield.State.Closing.{
  closed_run, insert_feed_runs, is_valid_result, is_open_run, interrupted_run, is_running_run,
  close_run, or_rollback, complete_found, complete_sync_run, recover_interrupted_sync_runs,
  has_run_id,
}
use crowdshield.State.Tables.{affected, unix, Result, find, update}
use crowdshield.State.Fates.{find-true, find-update, find-append}
use crowdshield.State.Branches.{either, optional}
use crowdshield.Ops.Event
use crowdshield.Prelude.Int.{pos, ltb_ℤ, eq_ℤ, ℤ}
use crowdshield.Ops.FeedName.{valid_feed_name}
use mathlib.Core.Option.{some-injective}

-- One of the calls, with whether the database works.
pub data RunCall : Type 0 where
  begins : Bool → SyncMode → Text → ℕ → RunCall
  completes : Bool → ℤ → Event.Result → RunCall
  sets : Bool → RuntimeTimestampKey → ℕ → RunCall
  recovers : Bool → ℕ → RunCall

-- The tables after a call, whether or not it succeeds.
unfoldable pub run_call : RunCall → RunTables → RunTables
unfolding begin_sync_run complete_sync_run set_runtime_timestamp recover_interrupted_sync_runs
run_call (RunCall.begins works mode feed started) t = (begin_sync_run works mode feed started t).1
run_call (RunCall.completes works id result) t = (complete_sync_run works id result t).1
run_call (RunCall.sets works key at) t = (set_runtime_timestamp works key at t).1
run_call (RunCall.recovers works now) t = (recover_interrupted_sync_runs works now t).1

unfoldable pub run_calls : List RunCall → RunTables → RunTables
unfolding run_call
run_calls [] t = t
run_calls (c ∷ cs) t = run_calls cs (run_call c t)

-- A time of the table is there, and is not before another.
abbrev pub IsFrom : RuntimeTimestampKey → ℕ → RunTables → Type 0
IsFrom key s t =
    (r : RuntimeRow) × (s' : ℕ) × (find (has_key key) t.runtime ≡ some r)
    × (r.value ≡ some s')
    × s ≤ s'

-- What the tables keep: the runs that have ended, and the times.
pub record Goes (t t' : RunTables) : Type 0 where
  pub ended :
      (id : ℤ) (r : RunRow)
      → find (has_run_id id) t.runs ≡ some r
      → is_running r.status ≡ false
      → find (has_run_id id) t'.runs ≡ some r
  pub forward : (key : RuntimeTimestampKey) (s : ℕ) → IsFrom key s t → IsFrom key s t'

Goes-refl : (t : RunTables) → Goes t t
Goes-refl t = record { ended = λ id r h n. h; forward = λ key s h. h }

Goes-trans : (t u v : RunTables) → Goes t u → Goes u v → Goes t v
Goes-trans t u v a b = record {
  ended = λ id r h n. b.ended id r (a.ended id r h n) n;
  forward = λ key s h. b.forward key s (a.forward key s h);
}

-- An update of running runs leaves the others.
running_update :
    (p : RunRow → Bool) (f : RunRow → RunRow) (rows : List RunRow) (id : ℤ) (r : RunRow)
    → ((x : RunRow) → p x ≡ true → is_running x.status ≡ true)
    → ((x : RunRow) → (f x).id ≡ x.id)
    → find (has_run_id id) rows ≡ some r
    → is_running r.status ≡ false
    → find (has_run_id id) (update p f rows) ≡ some r
running_update p f rows id r running same h n =
    let out : p r ≡ false = elim (Bool-cases (p r)) [
      | inl y ↦ absurd (ground (arith, n, running r y))
      | inr y ↦ y
    ] in
    find-update (has_run_id id) p f rows r (λ y. ap (λ i. eq_ℤ i id) (same y)) h
    ∙ ap (λ b. some (if b then f r else r)) out

begin_sync_run-Goes :
    (works : Bool) (mode : SyncMode) (feed : Text) (started : ℕ) (t : RunTables)
    → Goes t (begin_sync_run works mode feed started t).1
unfolding begin_sync_run
begin_sync_run-Goes works mode feed started t =
    either (Goes t)
      (not (valid_sync_mode mode)
        || bad_time started
        || (not (is_empty feed) && not (valid_feed_name feed)))
      _ _ (λ _. Goes-refl t)
      (λ _.
        either (Goes t) (not works) _ _ (λ _. Goes-refl t)
          (λ _. record {
            ended = λ id r h n. find-append (has_run_id id) t.runs _ r h;
            forward = λ key s h. h;
          }))

recover-Goes :
    (works : Bool) (now : ℕ) (t : RunTables) → Goes t (recover_interrupted_sync_runs works now t).1
unfolding recover_interrupted_sync_runs
recover-Goes works now t =
    either (Goes t) (bad_time now) _ _ (λ _. Goes-refl t)
      (λ _.
        either (Goes t) (not works) _ _ (λ _. Goes-refl t)
          (λ _. record {
            ended = λ id r h n.
                running_update is_running_run (interrupted_run now) t.runs id r (λ x y. y)
                  (λ x. refl) h n;
            forward = λ key s h. h;
          }))

-- The rows of two keys are the same, where one row is of both.
same_key :
    (key key' : RuntimeTimestampKey) (rows : List RuntimeRow) (x : RuntimeRow)
    → has_key key x ≡ true
    → has_key key' x ≡ true
    → find (has_key key') rows ≡ find (has_key key) rows
same_key key key' rows x h k =
    ap (λ n. find (λ (r : RuntimeRow). key_rank r.key == n) rows) (ground (arith, h, k))

-- The row of a key that has moved forward, and those of the others.
moved-IsFrom :
    (key : RuntimeTimestampKey) (s seconds : ℕ) (r : RuntimeRow) (t : RunTables)
    → find (has_key key) t.runtime ≡ some r
    → r.value ≡ some seconds
    → leb s seconds ≡ false
    → (key' : RuntimeTimestampKey) (low : ℕ) → IsFrom key' low t
    → IsFrom key' low (record t { runtime = update (has_key key) (moved_to s) t.runtime })
moved-IsFrom key s seconds r t found v later key' low (x, s', h, e, l) =
    let moved = find-update (has_key key') (has_key key) (moved_to s) t.runtime x (λ y. refl) h in
    elim (Bool-cases (has_key key x)) [
      | inl y ↦
          let same : x ≡ r = some-injective x r (
            sym h
            ∙ same_key key key' t.runtime x y (find-true (has_key key') t.runtime x h)
            ∙ found) in
          let known : s' ≡ seconds =
            some-injective s' seconds (sym e ∙ ap (λ (z : RuntimeRow). z.value) same ∙ v) in
          (
            moved_to s x,
            s,
            moved ∙ ap (λ b. some (if b then moved_to s x else x)) y,
            refl,
            ground (arith, l, known, later),
          )
      | inr n ↦ (x, s', moved ∙ ap (λ b. some (if b then moved_to s x else x)) n, e, l)
    ]

put_found-Goes :
    (key : RuntimeTimestampKey) (s : ℕ) (t : RunTables) (x : Option RuntimeRow)
    → find (has_key key) t.runtime ≡ x
    → Goes t (put_timestamp key s x t).1
unfolding put_timestamp
put_found-Goes key s t none h = record {
  ended = λ id r g n. g;
  forward = λ key' low (x, s', g, e, l). (x, s', find-append (has_key key') t.runtime _ x g, e, l);
}
put_found-Goes key s t (some r) h = optional (Goes t) r.value _ _ (Goes-refl t) (λ seconds v.
    either (Goes t) (leb s seconds) _ _ (λ _. Goes-refl t)
      (λ n. record {
        ended = λ id x g m. g;
        forward = λ key' low i. moved-IsFrom key s seconds r t h v n key' low i;
      }))

set-Goes :
    (works : Bool) (key : RuntimeTimestampKey) (at : ℕ) (t : RunTables)
    → Goes t (set_runtime_timestamp works key at t).1
unfolding set_runtime_timestamp
set-Goes works key at t =
    either (Goes t) (not (valid_runtime_key key) || bad_time at) _ _ (λ _. Goes-refl t)
      (λ _.
        either (Goes t) (not works) _ _ (λ _. Goes-refl t)
          (λ _. put_found-Goes key (unix at) t (find (has_key key) t.runtime) refl))

or_rollback-Goes :
    (t : RunTables) (x : RunAnswer (Unit {0})) → Goes t x.1 → Goes t (or_rollback t x).1
or_rollback-Goes t (Result.ok u, t') h = h
or_rollback-Goes t (Result.err c, t') h = Goes-refl t

close_run-Goes :
    (id : ℤ) (status : RunStatus) (result : Event.Result) (rows : List FeedRunRow) (t : RunTables)
    → Goes t (close_run id status result rows t).1
unfolding close_run
close_run-Goes id status result rows t =
    let closed : RunTables = record t {
      runs = update (is_open_run id) (closed_run status result) t.runs;
      feed_runs = rows;
    } in
    let step : Goes t closed = record {
      ended = λ i r h n.
          running_update (is_open_run id) (closed_run status result) t.runs i r
            (λ x y. ground (arith, y)) (λ x. refl) h n;
      forward = λ key s h. h;
    } in
    either (Goes t) (not (affected (is_open_run id) t.runs == 1)) _ _ (λ _. Goes-refl t)
      (λ _.
        either (Goes t) (safe_sync_result result.outcome result.failure) _ _
          (λ _. or_rollback-Goes t _ (
            Goes-trans t closed _ step
              (set-Goes true RuntimeTimestampKey.last_safe_sync result.completed_at closed)))
          (λ _. step))

complete_found-Goes :
    (id : ℤ) (status : RunStatus) (result : Event.Result) (x : Option RunRow) (t : RunTables)
    → Goes t (complete_found id status result x t).1
unfolding complete_found
complete_found-Goes id status result none t = Goes-refl t
complete_found-Goes id status result (some r) t =
    either (Goes t) (not (is_running r.status) || ltb (unix result.completed_at) r.started_at) _ _
      (λ _. Goes-refl t) (λ _. written (insert_feed_runs id t.feeds result.feeds t.feed_runs))
  where
    written :
        (x : Result (List FeedRunRow))
        → Goes t
            (elim x as (λ _. RunAnswer (Unit {0})) [
              | Result.err c ↦ (Result.err c, t)
              | Result.ok rows ↦ close_run id status result rows t
            ]).1
    written (Result.err c) = Goes-refl t
    written (Result.ok rows) = close_run-Goes id status result rows t

complete_sync_run-Goes :
    (works : Bool) (id : ℤ) (result : Event.Result) (t : RunTables)
    → Goes t (complete_sync_run works id result t).1
unfolding complete_sync_run
complete_sync_run-Goes works id result t =
    optional (Goes t) (status_for_result result.outcome) _ _ (Goes-refl t) (λ status _.
      either (Goes t) (not (ltb_ℤ (pos 0) id) || not (is_valid_result result)) _ _
        (λ _. Goes-refl t)
        (λ _.
          either (Goes t) (not works) _ _ (λ _. Goes-refl t)
            (λ _. complete_found-Goes id status result (find (has_run_id id) t.runs) t)))

run_call-Goes : (c : RunCall) (t : RunTables) → Goes t (run_call c t)
unfolding run_call
run_call-Goes (RunCall.begins works mode feed started) t =
    begin_sync_run-Goes works mode feed started t
run_call-Goes (RunCall.completes works id result) t = complete_sync_run-Goes works id result t
run_call-Goes (RunCall.sets works key at) t = set-Goes works key at t
run_call-Goes (RunCall.recovers works now) t = recover-Goes works now t

-- Over any calls of BeginSyncRun, CompleteSyncRun, SetRuntimeTimestamp and RecoverInterruptedSyncRuns,
-- whether or not they succeed, the row of a run that has ended stays as it is, and a time that is kept
-- is still there and has not moved back. (PruneHistory, which deletes rows, is not among the calls.)
pub run_calls-Goes : (cs : List RunCall) (t : RunTables) → Goes t (run_calls cs t)
unfolding run_calls
run_calls-Goes [] t = Goes-refl t
run_calls-Goes (c ∷ cs) t =
    Goes-trans t (run_call c t) (run_calls cs (run_call c t)) (run_call-Goes c t)
      (run_calls-Goes cs (run_call c t))
