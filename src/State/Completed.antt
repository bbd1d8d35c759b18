-- ===== src/State/Completed.antt =====
-- What `CompleteSyncRun` leaves.
use crowdshield.Prelude.{
  inr, ◌==◌, inl, Bool-cases, if◌then◌else◌, ltb, ◌||◌, ◌++◌, ◌∙◌, leb, not, none, arith, true,
  Option, List, some, ℕ, Bool, ◌≡◌, refl, ap, [], ◌∷◌,
}
use crowdshield.State.Runs.{
  RunTables, RunRow, RuntimeRow, RuntimeTimestampKey, RunAnswer, RunStatus, FeedRunRow,
  set_runtime_timestamp, put_timestamp, has_key, is_running, moved_to, status_for_result,
  safe_sync_result, valid_runtime_key, bad_time,
}
use crowdshield.State.Closing.{
  complete_sync_run, complete_found, close_run, has_run_id, or_rollback, is_open_run, closed_run,
  insert_feed_runs, is_valid_result,
}
use crowdshield.State.RunLives.{IsFrom}
use crowdshield.State.Tables.{find, update, affected, unix, Result}
use crowdshield.State.Fates.{find-update, find-true}
use crowdshield.State.Branches.{either, by_test, by_option, optional}
use crowdshield.State.Begun.{is_ok}
use crowdshield.Ops.Event
use crowdshield.Prelude.Int.{pos, ltb_ℤ, ℤ}

-- The columns of a run's row that a result sets, and those that stay.
pub record HasResult (result : Event.Result) (was now : RunRow) : Type 0 where
  pub same_id : now.id ≡ was.id
  pub same_start : now.started_at ≡ was.started_at
  pub same_mode : now.mode ≡ was.mode
  pub same_request : now.requested_feed ≡ was.requested_feed
  pub status : status_for_result result.outcome ≡ some now.status
  pub ended : now.completed_at ≡ some (unix result.completed_at)
  pub failure : now.failure ≡ result.failure
  pub feeds_succeeded : now.counts.feeds_succeeded ≡ result.counts.feeds_succeeded
  pub feeds_failed : now.counts.feeds_failed ≡ result.counts.feeds_failed
  pub added : now.counts.added ≡ result.counts.added
  pub refreshed : now.counts.refreshed ≡ result.counts.refreshed
  pub removed : now.counts.removed ≡ result.counts.removed
  pub rejected : now.counts.rejected ≡ result.counts.rejected
  pub skipped : now.counts.skipped ≡ result.counts.skipped
  pub lapi_requests : now.counts.lapi_requests ≡ result.counts.lapi_requests

-- A run that was running has the result, and the last safe time is not before a safe result.
pub record IsCompleted (id : ℤ) (result : Event.Result) (t t' : RunTables) : Type 0 where
  pub run : RunRow
  pub row : RunRow
  pub found : find (has_run_id id) t.runs ≡ some run
  pub running : is_running run.status ≡ true
  pub closed : find (has_run_id id) t'.runs ≡ some row
  pub has_result : HasResult result run row
  pub safe :
      safe_sync_result result.outcome result.failure ≡ true
      → IsFrom RuntimeTimestampKey.last_safe_sync (unix result.completed_at) t'

closed_run-HasResult :
    (status : RunStatus) (result : Event.Result) (r : RunRow)
    → status_for_result result.outcome ≡ some status
    → HasResult result r (closed_run status result r)
closed_run-HasResult status result r named = record {
  same_id = refl;
  same_start = refl;
  same_mode = refl;
  same_request = refl;
  status = named;
  ended = refl;
  failure = refl;
  feeds_succeeded = refl;
  feeds_failed = refl;
  added = refl;
  refreshed = refl;
  removed = refl;
  rejected = refl;
  skipped = refl;
  lapi_requests = refl;
}

pub find_last :
    {A : Type 0} (q : A → Bool) (xs : List A) (y : A)
    → find q xs ≡ none
    → q y ≡ true
    → find q (xs ++ y ∷ []) ≡ some y
unfolding find
find_last q [] y h c = rw c refl
find_last q (x ∷ xs) y h c = elim (Bool-cases (q x)) [
  | inl w ↦ absurd (ground (arith, h, w))
  | inr n ↦ rw n (find_last q xs y (rw n at h) c)
]

put_found-IsFrom :
    (key : RuntimeTimestampKey) (s : ℕ) (t : RunTables) (x : Option RuntimeRow)
    → find (has_key key) t.runtime ≡ x
    → is_ok (put_timestamp key s x t).0 ≡ true
    → IsFrom key s (put_timestamp key s x t).1
unfolding put_timestamp
put_found-IsFrom key s t none h = λ _.
    let row : RuntimeRow = record { key = key; value = some s; updated_at = s } in
    (row, s, find_last (has_key key) t.runtime row h (ground arith), refl, omega arith)
put_found-IsFrom key s t (some r) h =
    by_option (λ (x : RunAnswer (Unit {0})). is_ok x.0 ≡ true → IsFrom key s x.1) r.value _ _
      (λ n. absurd (ground (arith, n)))
      (λ seconds v.
        by_test (λ (x : RunAnswer (Unit {0})). is_ok x.0 ≡ true → IsFrom key s x.1) (leb s seconds)
          _ _ (λ y _. (r, seconds, h, v, ground (arith, y)))
          (λ _ _. (
            moved_to s r,
            s,
            find-update (has_key key) (has_key key) (moved_to s) t.runtime r (λ y. refl) h
                ∙ ap (λ b. some (if b then moved_to s r else r))
                    (find-true (has_key key) t.runtime r h),
            refl,
            omega arith,
          )))

set_runtime_timestamp-IsFrom :
    (key : RuntimeTimestampKey) (at : ℕ) (t : RunTables)
    → is_ok (set_runtime_timestamp true key at t).0 ≡ true
    → IsFrom key (unix at) (set_runtime_timestamp true key at t).1
unfolding set_runtime_timestamp
set_runtime_timestamp-IsFrom key at t =
    by_test (λ (x : RunAnswer (Unit {0})). is_ok x.0 ≡ true → IsFrom key (unix at) x.1)
      (not (valid_runtime_key key) || bad_time at) _ _ (λ _ n. absurd (ground (arith, n)))
      (λ _. put_found-IsFrom key (unix at) t (find (has_key key) t.runtime) refl)

put_found_runs :
    (key : RuntimeTimestampKey) (s : ℕ) (t : RunTables) (x : Option RuntimeRow)
    → (put_timestamp key s x t).1.runs ≡ t.runs
unfolding put_timestamp
put_found_runs key s t none = refl
put_found_runs key s t (some r) =
    optional (λ (u : RunTables). u.runs ≡ t.runs) r.value _ _ refl
      (λ seconds v.
        either (λ (u : RunTables). u.runs ≡ t.runs) (leb s seconds) _ _ (λ _. refl) (λ _. refl))

set_runtime_timestamp_runs :
    (key : RuntimeTimestampKey) (at : ℕ) (t : RunTables)
    → (set_runtime_timestamp true key at t).1.runs ≡ t.runs
unfolding set_runtime_timestamp
set_runtime_timestamp_runs key at t =
    either (λ (u : RunTables). u.runs ≡ t.runs) (not (valid_runtime_key key) || bad_time at) _ _
      (λ _. refl) (λ _. put_found_runs key (unix at) t (find (has_key key) t.runtime))

or_rollback-ok :
    (P : RunTables → Type 0) (t : RunTables) (x : RunAnswer (Unit {0}))
    → (is_ok x.0 ≡ true → P x.1)
    → is_ok (or_rollback t x).0 ≡ true
    → P (or_rollback t x).1
or_rollback-ok P t (Result.ok u, t') f h = f refl
or_rollback-ok P t (Result.err c, t') f h = absurd (ground (arith, h))

module _ (id : ℤ) (result : Event.Result) (t : RunTables) where
  abbrev Ends : RunAnswer (Unit {0}) → Type 0
  Ends x = is_ok x.0 ≡ true → IsCompleted id result t x.1

  close_run-IsCompleted :
      (status : RunStatus) (rows : List FeedRunRow) (r : RunRow)
      → find (has_run_id id) t.runs ≡ some r
      → is_running r.status ≡ true
      → status_for_result result.outcome ≡ some status
      → Ends (close_run id status result rows t)
  unfolding close_run
  close_run-IsCompleted status rows r found running named =
      let closed : RunTables = record t {
        runs = update (is_open_run id) (closed_run status result) t.runs;
        feed_runs = rows;
      } in
      let open_run : is_open_run id r ≡ true =
        ground (arith, find-true (has_run_id id) t.runs r found, running) in
      let now : find (has_run_id id) closed.runs ≡ some (closed_run status result r) =
        find-update (has_run_id id) (is_open_run id) (closed_run status result) t.runs r (λ y. refl)
          found
        ∙ ap (λ b. some (if b then closed_run status result r else r)) open_run in
      by_test Ends (not (affected (is_open_run id) t.runs == 1)) _ _
        (λ _ n. absurd (ground (arith, n)))
        (λ _.
          by_test Ends (safe_sync_result result.outcome result.failure) _ _
            (λ _. or_rollback-ok (IsCompleted id result t) t _ (λ h. record {
              run = r;
              row = closed_run status result r;
              found = found;
              running = running;
              has_result = closed_run-HasResult status result r named;
              closed =
                  ap (find (has_run_id id)) (
                    set_runtime_timestamp_runs RuntimeTimestampKey.last_safe_sync
                      result.completed_at closed)
                  ∙ now;
              safe = λ _.
                  set_runtime_timestamp-IsFrom RuntimeTimestampKey.last_safe_sync
                    result.completed_at closed h;
            }))
            (λ n _. record {
              run = r;
              row = closed_run status result r;
              found = found;
              running = running;
              has_result = closed_run-HasResult status result r named;
              closed = now;
              safe = λ y. absurd (ground (arith, n, y));
            }))

  complete_found-IsCompleted :
      (status : RunStatus) (x : Option RunRow)
      → find (has_run_id id) t.runs ≡ x
      → status_for_result result.outcome ≡ some status
      → Ends (complete_found id status result x t)
  unfolding complete_found
  complete_found-IsCompleted status none found named = λ h. absurd (ground (arith, h))
  complete_found-IsCompleted status (some r) found named =
      by_test Ends (not (is_running r.status) || ltb (unix result.completed_at) r.started_at) _ _
        (λ _ n. absurd (ground (arith, n)))
        (λ n. written (ground (arith, n)) (insert_feed_runs id t.feeds result.feeds t.feed_runs))
    where
      written :
          is_running r.status ≡ true
          → (x : Result (List FeedRunRow))
          → Ends (elim x as (λ _. RunAnswer (Unit {0})) [
            | Result.err c ↦ (Result.err c, t)
            | Result.ok rows ↦ close_run id status result rows t
          ])
      written running (Result.err c) = λ h. absurd (ground (arith, h))
      written running (Result.ok rows) = close_run-IsCompleted status rows r found running named

-- Where `CompleteSyncRun` succeeds, the run was there and was running; its row has kept its start, mode
-- and requested feed, and has the status of the result's outcome, the time in seconds at which the
-- result was completed, its failure, and its counts but for the unchanged feeds, those not due and the
-- active decisions; and where the result is safe, the time of the last safe synchronization is there
-- and not before the end of the run.
pub complete_sync_run-IsCompleted :
    (works : Bool) (id : ℤ) (result : Event.Result) (t : RunTables)
    → is_ok (complete_sync_run works id result t).0 ≡ true
    → IsCompleted id result t (complete_sync_run works id result t).1
unfolding complete_sync_run
complete_sync_run-IsCompleted works id result t =
    by_option (Ends id result t) (status_for_result result.outcome) _ _
      (λ n. absurd (ground (arith, n)))
      (λ status named.
        by_test (Ends id result t) (not (ltb_ℤ (pos 0) id) || not (is_valid_result result)) _ _
          (λ _ n. absurd (ground (arith, n)))
          (λ _.
            by_test (Ends id result t) (not works) _ _ (λ _ n. absurd (ground (arith, n)))
              (λ _.
                complete_found-IsCompleted id result t status (find (has_run_id id) t.runs) refl
                  named)))
