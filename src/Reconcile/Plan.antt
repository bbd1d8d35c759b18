-- ===== src/Reconcile/Plan.antt =====
-- internal/reconcile/reconcile.go: the desired objects of the stored entries, and the actions that a
-- run groups by feed.
use crowdshield.Prelude.{
  suc, zero, take, drop, ◌-◌, length, ◌^◌, ◌/◌, exists, every, bytes, some, ◌+◌, text_eq, not, ◌++◌,
  ◌%◌, ◌||◌, leb, none, if◌then◌else◌, Text, ◌∷◌, ◌==◌, ◌&&◌, [], true, Bool, Option, List, ℕ,
}
use crowdshield.Prelude.Int.{negsuc, eq_ℤ, pos, ℤ}
use Prim.Native.Nat.{compare, Ordering}
use crowdshield.Network.Address.{Prefix, is_valid, prefix_eq, masked, then_by}
use crowdshield.Network.Desired.{
  Candidate, Object, Summary, Contributor, Scope, build_desired, sort_by, compare_text, is_ip_scope,
}
use crowdshield.State.Records.{
  scope_text, DecisionRecord, OperationItem, EnforcementRecord, StoredEntry, OperationKind,
}
use crowdshield.Reconcile.Alerts.{Std, object_value, scenario_of, or_else}

-- `order[id]`, and `derivedOrder[id]`
unfoldable pub order_of : ℤ → List (ℤ × ℕ) → Option ℕ
order_of id [] = none
order_of id ((k, n) ∷ m) = let rest = order_of id m in if eq_ℤ k id then some n else rest

abbrev pub candidate_of : StoredEntry → ℤ → Candidate
candidate_of e order = record {
  prefix = e.entry.prefix;
  kind = e.entry.kind;
  feed_id = e.feed_id;
  feed_name = e.feed_name;
  feed_order = order;
}

-- The loop over the entries; a feed without a given order is numbered as it is met, so the next
-- number is how many feeds have been numbered.
unfoldable pub candidates_of : List (ℤ × ℕ) → List (ℤ × ℕ) → List StoredEntry → List Candidate
unfolding order_of
candidates_of order derived [] = []
candidates_of order derived (e ∷ es) =
    elim (or_else (order_of e.feed_id order) (order_of e.feed_id derived)) [
      | some n ↦ candidate_of e (pos n) ∷ candidates_of order derived es
      | none ↦
          candidate_of e (pos (length derived))
          ∷ candidates_of order ((e.feed_id, length derived) ∷ derived) es
    ]

abbrev pub is_masked : Prefix → Bool
is_masked p = is_valid p && prefix_eq p (masked p)

-- `buildObjects`; none is a contract error.
unfoldable pub build_objects :
    List StoredEntry → List Prefix → List (ℤ × ℕ) → Option (List Object × Summary)
unfolding candidates_of
build_objects entries allowlists order =
    if every is_masked allowlists
    then some (build_desired (candidates_of order [] entries) allowlists)
    else none

unfoldable pub source_of : ℤ → List Contributor → Option (ℤ × Text)
source_of id [] = none
source_of id (c ∷ cs) =
    let rest = source_of id cs in if eq_ℤ c.feed_id id then some (c.feed_id, c.feed_name) else rest

-- `primaryFeed`
unfoldable pub primary_feed : EnforcementRecord → Option (ℤ × Text)
unfolding source_of
primary_feed e = elim e.primary_feed_id [ none ↦ none | some id ↦ source_of id e.sources ]

abbrev pub has_object : ℤ → DecisionRecord → Bool
has_object id d = eq_ℤ d.object_id id

-- `activeByObject`: whether the decisions make a map. As no key comes twice, a look-up is `find`.
unfoldable pub one_per_object : List DecisionRecord → Bool
one_per_object [] = true
one_per_object (d ∷ ds) = not (exists (has_object d.object_id) ds) && one_per_object ds

unfoldable pub active_decision : ℤ → List DecisionRecord → Option DecisionRecord
active_decision id [] = none
active_decision id (d ∷ ds) =
    let rest = active_decision id ds in if has_object id d then some d else rest

abbrev pub scope_eq : Scope → Scope → Bool
scope_eq a b = if is_ip_scope a then is_ip_scope b else not (is_ip_scope b)

-- `decision.ExpiresAt.Sub(now) <= refreshBefore`: the bound is far from where `Sub` saturates.
abbrev pub expires_soon : DecisionRecord → ℕ → ℕ → Bool
expires_soon d now refresh_before = leb d.expires_at (now + refresh_before)

-- Whether a decision has to be made anew.
abbrev pub is_outdated : DecisionRecord → ℕ → ℕ → Scope → Text → Text → Bool
is_outdated d now refresh_before scope value feed_name =
    expires_soon d now refresh_before
    || not (scope_eq d.scope scope)
    || not (text_eq d.value value)
    || not (text_eq d.scenario (scenario_of feed_name))

pub record PlannedAction : Type 0 where
  pub object : EnforcementRecord
  pub old : Option DecisionRecord

pub record GroupKey : Type 0 where
  pub kind : OperationKind
  pub feed_id : ℤ
  pub feed_name : Text

abbrev pub kind_rank : OperationKind → ℕ
kind_rank OperationKind.create = 0
kind_rank OperationKind.expire = 1
kind_rank OperationKind.recover = 2
kind_rank OperationKind.refresh = 3

abbrev pub key_eq : GroupKey → GroupKey → Bool
key_eq a b =
    kind_rank a.kind == kind_rank b.kind
    && eq_ℤ a.feed_id b.feed_id
    && text_eq a.feed_name b.feed_name

abbrev pub Group : Type 0
Group = GroupKey × List PlannedAction

-- `groups[key] = append(groups[key], action)`
unfoldable pub add_action : GroupKey → PlannedAction → List Group → List Group
add_action key a [] = (key, a ∷ []) ∷ []
add_action key a ((k, as') ∷ gs) =
    let rest = add_action key a gs in
    if key_eq k key then (k, as' ++ a ∷ []) ∷ gs else (k, as') ∷ rest

-- The order of the groups. Feeds differ in name, so no two keys are equal in it.
unfoldable pub compare_group : Group → Group → Ordering
compare_group a b =
    then_by (compare_text a.0.feed_name b.0.feed_name)
      (compare (kind_rank a.0.kind) (kind_rank b.0.kind))

unfoldable pub sorted_groups : List Group → List Group
unfolding sort_by compare_group
sorted_groups gs = sort_by compare_group gs

-- The loop `for start := 0; start < len(actions); start += size`, on what is left of the actions.
unfoldable pub batches : {A : Type 0} → ℕ → ℕ → List A → List (List A)
batches zero size xs = []
batches (suc fuel) size [] = []
batches (suc fuel) size (x ∷ xs) = take size (x ∷ xs) ∷ batches fuel size (drop size (x ∷ xs))

-- A 64-bit integer, big-endian, in two's complement.
unfoldable pub big_endian : ℕ → ℕ → Text
big_endian zero n = []
big_endian (suc k) n = big_endian k (n / 256) ++ (n % 256) ∷ []

abbrev pub word_of : ℤ → ℕ
word_of (pos n) = n % 2 ^ 64
word_of (negsuc n) = 2 ^ 64 - 1 - n % 2 ^ 64

unfoldable pub int64_bytes : ℤ → Text
unfolding big_endian
int64_bytes v = big_endian 8 (word_of v)

abbrev pub kind_text : OperationKind → Text
kind_text OperationKind.create = bytes "create"
kind_text OperationKind.refresh = bytes "refresh"
kind_text OperationKind.expire = bytes "expire"
kind_text OperationKind.recover = bytes "recover"

module _ (std : Std) where
  abbrev pub old_bytes : Option DecisionRecord → Text
  old_bytes none = []
  old_bytes (some d) = int64_bytes d.id

  -- What `operationHash` writes to the hash for the actions.
  unfoldable pub action_bytes : List PlannedAction → Text
  unfolding int64_bytes
  action_bytes [] = []
  action_bytes (a ∷ as') =
      int64_bytes a.object.id
      ++ (scope_text a.object.scope
          ++ (0 ∷ (object_value std a.object ++ (old_bytes a.old ++ action_bytes as'))))

  unfoldable pub operation_hash : OperationKind → ℤ → ℕ → List PlannedAction → Text
  unfolding int64_bytes action_bytes
  operation_hash kind feed_id duration actions = std.sha256_hex (
      kind_text kind
      ++ (int64_bytes feed_id ++ (int64_bytes (pos (duration / 10 ^ 9)) ++ action_bytes actions)))

abbrev pub item_of : PlannedAction → OperationItem
item_of a = record {
  object_id = a.object.id;
  old_decision_row_id = elim a.old [ none ↦ none | some d ↦ some d.id ];
}
