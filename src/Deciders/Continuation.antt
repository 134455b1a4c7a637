-- ===== src/Deciders/Continuation.antt =====
-- src/aios_tools/experimental/route_continuation.py: how a route may go on after a completed step.
pub mod Lawful
mod Tests
use aios_tools.Prelude.{
  ℕ, String, Bool, true, false, not, ◌&&◌, ◌||◌, Option, none, some, List, [], ◌∷◌, ◌++◌, leb, ltb,
  length, contains, all_distinct, string_eq, nat_eq, ◌==◌, if◌then◌else◌,
}
use aios_tools.Prelude.Json.{
  Json, Fields, get, is_text, is_true, is_named, is_boolean, as_text, as_object, as_number, keys_of,
  named_texts,
}
use aios_tools.Prelude.Sets.{is_subset, same_set}

pub data Action : Type 0 where
  block stop_complete retain_next insert_bounded_recovery replace_invalid_suffix : Action

-- A snapshot that `_valid` accepts.
pub record Snapshot : Type 0 where
  pub workflow : String
  pub envelope : String
  pub prefix : List String
  pub artifacts : List String
  pub receipts : List String
  pub specialists : List String
  pub evidence : List String
  pub evidence_current : Bool
  pub ambiguous : Bool
  pub complete : Bool
  pub next_valid : Bool
  pub suffix_invalid : Bool
  pub recovery_available : Bool
  pub recovery_used : Bool
  pub retry_count : ℕ
  pub retry_limit : ℕ

pub record Advice : Type 0 where
  pub action : Action
  pub reason : String
  pub preserved_boundary : Option Json

flag_fields : List String
flag_fields =
    "evidence_current" ∷ "ambiguous" ∷ "complete" ∷ "next_valid" ∷ "suffix_invalid"
    ∷ "recovery_available" ∷ "recovery_used" ∷ []

snapshot_fields : List String
unfolding flag_fields
snapshot_fields =
    "scope" ∷ "workflow" ∷ "envelope" ∷ "prefix" ∷ "artifacts" ∷ "receipts" ∷ "specialists"
    ∷ "evidence" ∷ "retry_count" ∷ "retry_limit" ∷ flag_fields

all_flags : List String → Fields → Bool
all_flags [] fields = true
all_flags (key ∷ keys) fields = is_boolean (get key fields) && all_flags keys fields

if_distinct : Option (List String) → Option (List String)
if_distinct none = none
if_distinct (some texts) = if all_distinct texts then some texts else none

-- A list of texts that are not blank, none of them twice.
unique_texts : String → Fields → Option (List String)
unfolding if_distinct
unique_texts key fields = if_distinct (named_texts (get key fields))

with_lists :
    Fields
    → String
    → String
    → Option (List String)
    → Option (List String)
    → Option (List String)
    → Option (List String)
    → Option (List String)
    → Option ℕ
    → Option ℕ
    → Option Snapshot
with_lists fields workflow envelope (some prefix) (some artifacts) (some receipts)
      (some specialists) (some evidence) (some retry_count) (some retry_limit) =
    some (record {
      workflow = workflow;
      envelope = envelope;
      prefix = prefix;
      artifacts = artifacts;
      receipts = receipts;
      specialists = specialists;
      evidence = evidence;
      evidence_current = is_true (get "evidence_current" fields);
      ambiguous = is_true (get "ambiguous" fields);
      complete = is_true (get "complete" fields);
      next_valid = is_true (get "next_valid" fields);
      suffix_invalid = is_true (get "suffix_invalid" fields);
      recovery_available = is_true (get "recovery_available" fields);
      recovery_used = is_true (get "recovery_used" fields);
      retry_count = retry_count;
      retry_limit = retry_limit;
    })
with_lists fields workflow envelope _ _ _ _ _ _ _ = none

with_names : Fields → Option String → Option String → Option Snapshot
unfolding unique_texts with_lists
with_names fields (some workflow) (some envelope) =
    with_lists fields workflow envelope (unique_texts "prefix" fields)
      (unique_texts "artifacts" fields) (unique_texts "receipts" fields)
      (unique_texts "specialists" fields) (unique_texts "evidence" fields)
      (as_number (get "retry_count" fields)) (as_number (get "retry_limit" fields))
with_names fields _ _ = none

read_fields : Option Fields → Option Snapshot
unfolding snapshot_fields flag_fields all_flags with_names
read_fields none = none
read_fields (some fields) =
    if same_set (keys_of fields) snapshot_fields
      && is_text (get "scope" fields) "global-working-memory"
      && is_named (get "workflow" fields)
      && is_named (get "envelope" fields)
      && all_flags flag_fields fields
    then with_names fields (as_text (get "workflow" fields)) (as_text (get "envelope" fields))
    else none

-- `_valid`, with what is read
unfoldable pub read_snapshot : Json → Option Snapshot
unfolding read_fields
read_snapshot value = read_fields (as_object value)

-- `left == right`, for lists of texts
unfoldable pub same_texts : List String → List String → Bool
same_texts [] [] = true
same_texts (x ∷ xs) (y ∷ ys) = x == y && same_texts xs ys
same_texts _ _ = false

same_flag : Bool → Bool → Bool
same_flag true b = b
same_flag false b = not b

-- The fields of the completed boundary.
unfoldable pub same_boundary : Snapshot → Snapshot → Bool
unfolding same_flag
same_boundary a b =
    a.workflow == b.workflow
    && a.envelope == b.envelope
    && same_texts a.prefix b.prefix
    && same_texts a.artifacts b.artifacts
    && same_texts a.receipts b.receipts
    && a.retry_limit == b.retry_limit
    && a.retry_count == b.retry_count
    && same_flag a.recovery_used b.recovery_used

-- `set(xs) | set(ys)`
unfoldable pub union : List String → List String → List String
union [] ys = ys
union (x ∷ xs) ys = let rest = union xs ys in if contains rest x then rest else x ∷ rest

no_texts : List String → Bool
no_texts [] = true
no_texts (x ∷ xs) = false

-- The action of `evaluate_continuation` and its reason, for two valid snapshots.
unfoldable pub decide : Snapshot → Snapshot → Action × String
unfolding no_texts
decide previous proposed =
    if not (same_boundary previous proposed)
    then (block, "BOUNDARY_CHANGED")
    else if not (is_subset previous.specialists proposed.specialists)
    then (block, "SPECIALIST_HISTORY_DROPPED")
    else if ltb 2 (length (union previous.specialists proposed.specialists))
    then (block, "SPECIALIST_CEILING")
    else if no_texts proposed.evidence || not proposed.evidence_current || proposed.ambiguous
    then (block, "INSUFFICIENT_CURRENT_EVIDENCE")
    else if proposed.complete
    then (stop_complete, "CALLER_ATTESTED_COMPLETION")
    else if leb proposed.retry_limit proposed.retry_count
    then (block, "RETRY_LIMIT")
    else if proposed.next_valid && not proposed.suffix_invalid
    then (retain_next, "VALID_CONTINUATION")
    else if proposed.recovery_available && not proposed.recovery_used
    then (insert_bounded_recovery, "ONE_LOCAL_RECOVERY")
    else if proposed.suffix_invalid
    then (replace_invalid_suffix, "INVALID_UNEXECUTED_SUFFIX")
    else (block, "NO_LAWFUL_CONTINUATION")

boundary_of : Json → Option Snapshot → Option Json
boundary_of previous none = none
boundary_of previous (some snapshot) = some previous

advised : Json → Option Snapshot → Option Snapshot → Action × String
advised previous (some a) (some b) = decide a b
advised previous _ _ = (block, "INVALID_PACKET")

unfoldable pub evaluate_continuation : Json → Json → Advice
unfolding boundary_of advised
evaluate_continuation previous proposed = record {
  action = (advised previous (read_snapshot previous) (read_snapshot proposed)).0;
  reason = (advised previous (read_snapshot previous) (read_snapshot proposed)).1;
  preserved_boundary = boundary_of previous (read_snapshot previous);
}
