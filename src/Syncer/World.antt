-- ===== src/Syncer/World.antt =====
-- internal/syncer/engine.go: the interfaces `stateStore`, `fetchClient` and `reconcileClient`, and what
-- a run keeps. Behind them is any environment: each answer may depend on all calls before it.
use crowdshield.App.Report.{Report, ErrorClass}
use crowdshield.State.Feeds.{FeedRecord, FeedDefinition}
use crowdshield.State.Entries.{FeedSnapshot}
use crowdshield.State.Records.{StoredEntry}
use crowdshield.Reconcile.Run.{RunOptions}
use crowdshield.Reconcile.World
use crowdshield.Prelude.{Bool, Text, ℕ, ◌∷◌, List}
use crowdshield.Prelude.Int.{ℤ}

pub data ErrorCategory : Type 0 where
  config state feed reconcile selection degraded : ErrorCategory

pub data Reply (A : Type 0) : Type 0 where
  ok : A → Reply A
  failed : Reply A

-- An error of a feed: one of internal/feed, with the delay that its server asks for, or another.
pub data Cause : Type 0 where
  of_feed : ErrorClass → ℕ → Cause
  other : Cause

pub record FetchRequest : Type 0 where
  pub url : Text
  pub timeout : ℤ
  pub max_bytes : ℤ
  pub content_types : List Text
  pub etag : Text
  pub last_modified : Text

-- Without the hash of the content, which the engine does not use.
pub record FetchResult : Type 0 where
  pub body : Text
  pub etag : Text
  pub last_modified : Text
  pub not_modified : Bool

pub data Fetched : Type 0 where
  ok : FetchResult → Fetched
  failed : Cause → Fetched

-- The report of the reconciler comes also with an error.
pub record Reconciliation : Type 0 where
  pub report : World.Report
  pub succeeded : Bool

pub data Call : Type 0 where
  list_feeds : Reply (List FeedRecord) → Call
  list_active_entries : Reply (List StoredEntry) → Call
  fetch : FetchRequest → Fetched → Call
  ensure_feeds : List FeedDefinition → Reply (List FeedRecord) → Call
  apply_feed_snapshot : Text → FeedSnapshot → ℤ → Reply (Unit {0}) → Call
  record_feed_not_modified : Text → Text → Text → Reply (Unit {0}) → Call
  record_feed_failure : Text → ErrorClass → ℕ → Reply (Unit {0}) → Call
  reconcile : RunOptions → Reconciliation → Call

-- The calls of a run so far, the latest first.
abbrev pub History : Type 0
History = List Call

pub record Environment : Type 0 where
  pub list_feeds : History → Reply (List FeedRecord)
  pub list_active_entries : History → Reply (List StoredEntry)
  pub fetch : History → FetchRequest → Fetched
  pub ensure_feeds : History → List FeedDefinition → Reply (List FeedRecord)
  pub apply_feed_snapshot : History → Text → FeedSnapshot → ℤ → Reply (Unit {0})
  pub record_feed_not_modified : History → Text → Text → Text → Reply (Unit {0})
  pub record_feed_failure : History → Text → ErrorClass → ℕ → Reply (Unit {0})
  pub reconcile : History → RunOptions → Reconciliation

-- The report is a variable that every step of a run may write.
pub record State : Type 0 where
  pub report : Report
  pub history : History

pub data Result (A : Type 0) : Type 0 where
  ok : A → Result A
  err : ErrorCategory → Result A

abbrev pub Run : Type 0 → Type 0
Run A = State → Result A × State

module _ {A : Type 0} where
  abbrev pub pure : A → Run A
  pure a s = (Result.ok a, s)

  abbrev pub fail : ErrorCategory → Run A
  fail c s = (Result.err c, s)

-- A return of no error.
abbrev pub done : Run (Unit {0})
done = pure tt

module _ {A B : Type 0} where
  abbrev pub continue : Result A × State → (A → Run B) → Result B × State
  continue (Result.ok a, s) f = f a s
  continue (Result.err c, s) f = (Result.err c, s)

  infixl 5 ◌>>=◌
  abbrev pub ◌>>=◌ : Run A → (A → Run B) → Run B
  ◌>>=◌ m f s = continue (m s) f

infixl 5 ◌>>◌
abbrev pub ◌>>◌ : {B : Type 0} → Run (Unit {0}) → Run B → Run B
m >> k = m >>= λ _. k

-- Write the report.
abbrev pub tell : (Report → Report) → Run (Unit {0})
tell f s = (Result.ok tt, record s { report = f s.report })

-- Make a call: the environment answers, and the call joins the history.
abbrev pub ask : {A : Type 0} → (History → A) → (A → Call) → Run A
ask answer call s =
    let reply = answer s.history in (Result.ok reply, record s { history = call reply ∷ s.history })

-- `if err != nil { return syncError(c, err) }`
abbrev pub expect : {A : Type 0} → ErrorCategory → Reply A → Run A
expect c (Reply.ok a) = pure a
expect c Reply.failed = fail c
