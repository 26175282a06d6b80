-- ===== src/Reader/Migration.antt =====
-- MIGRATION events in the log reader (dnsid/c2sp_tlog/reader.py): `_MigrationBudget`,
-- `_prior_reader`, `_validate_predecessor_history`, `_external_prior`, `_prior_result` and
-- the branch of `_verify_prior_history` for a reader that is no C2spTlogReader. What the factory and
-- that reader return are parameters; a raised error of either is `none`. `max_time` is `datetime.max`.
pub mod Handoff
pub mod Verified
mod Runs
use dnsid_py.Base.{
  ℕ, ◌+◌, ◌-◌, String, Bool, true, false, not, ◌&&◌, ◌||◌, Option, none, some, List, [], ◌∷◌, ◌++◌,
  length, ltb, leb, ◌==◌, str_eq, if◌then◌else◌, bytes_eq,
}
use dnsid_py.Base.Decimal.{codes}
use dnsid_py.Base.Result.{Result, ok, err, ◌>>=◌, ◌>>◌, raise_if, some_or}
use dnsid_py.Keys.{Jwk, thumbprint}
use dnsid_py.Events.{
  Time, MigrationEvent, LogEvent, issuance, key_rotation, revocation, retirement, migration,
  delegation, foreign,
}
use dnsid_py.DomainLog.{SnapshotError, DomainSnapshot, snapshot_at}
use dnsid_py.LedgerRef.{LedgerRefError, parse_ledger_ref}
use dnsid_py.Reader.{first_issuance, is_active}

-- The messages of the errors; those of `snapshot_at` and of Python are kept apart.
pub data MigrationError : Type 0 where
  too_many_events too_many_bytes wrong_stream bad_reference other_method : MigrationError
  too_deep cycle no_reader factory_failed reader_failed bad_cutoff not_continuous wrong_end :
      MigrationError
  not_active entity_mismatch value_error : MigrationError
  history_error : SnapshotError → MigrationError

-- C2spMigrationVerificationLimits
pub record Limits : Type 0 where
  pub max_depth : ℕ
  pub max_history_events : ℕ
  pub max_response_bytes : ℕ

-- _MigrationBudget
pub record Budget : Type 0 where
  pub limits : Limits
  pub seen : List String
  pub history_events : ℕ
  pub response_bytes : ℕ
  pub active : Bool

pub record VerifiedCutoffHistory : Type 0 where
  pub events : List LogEvent
  pub event_refs : List String
  pub response_size : ℕ

pub record MigrationVerificationResult : Type 0 where
  pub entity_key : Jwk
  pub operational_key : Jwk
  pub prior_events : List LogEvent
  pub prior_event_refs : List String

-- The arguments of `rebuild_history_through` that come from the budget.
pub record Remaining : Type 0 where
  pub depth : ℕ
  pub history_events : ℕ
  pub response_bytes : ℕ
  pub seen_log_references : List String

-- A log reader's `rebuild_history_through`, at a cutoff.
abbrev pub Rebuild : Type 0
Rebuild = String → Remaining → Option VerifiedCutoffHistory

-- `_enforce`
unfoldable pub enforce : Budget → Result MigrationError Budget
enforce b = do
  raise_if (b.active && ltb b.limits.max_history_events b.history_events) too_many_events
  raise_if (b.active && ltb b.limits.max_response_bytes b.response_bytes) too_many_bytes
  ok b

abbrev pub add_response : ℕ → Budget → Result MigrationError Budget
add_response size b = enforce (record b { response_bytes = b.response_bytes + size })

abbrev pub add_events : ℕ → Budget → Result MigrationError Budget
add_events count b = enforce (record b { history_events = b.history_events + count })

abbrev pub activate : Budget → Result MigrationError Budget
activate b = enforce (record b { active = true })

-- `reference in seen`
unfoldable pub has_seen : String → List String → Bool
has_seen s [] = false
has_seen s (t ∷ ts) = str_eq s t || has_seen s ts

-- `seen - {reference}`
unfoldable pub without : String → List String → List String
without s [] = []
without s (t ∷ ts) = let rest = without s ts in if str_eq s t then rest else t ∷ rest

abbrev pub method_of : String → Result MigrationError (List ℕ)
method_of lr = elim (parse_ledger_ref (codes lr)) [
  | ok (method, entry_ref) ↦ ok method
  | err e ↦ err bad_reference
]

-- `_prior_reader` in the stream `lr`
unfoldable pub prior_reader :
    String
    → Option (String → Option Rebuild)
    → MigrationEvent
    → ℕ
    → Budget
    → Result MigrationError (Budget × Rebuild)
prior_reader lr migration_reader_factory event depth budget = do
  b ← activate budget
  raise_if (not (str_eq event.new_log lr)) wrong_stream
  previous_method ← method_of event.previous_log
  cutoff_method ← method_of event.final_entry_ref
  raise_if (not (bytes_eq previous_method cutoff_method)) other_method
  raise_if (leb b.limits.max_depth depth) too_deep
  raise_if (has_seen event.previous_log b.seen) cycle
  factory ← some_or migration_reader_factory no_reader
  rebuild ← some_or (factory event.previous_log) factory_failed
  ok (record b { seen = event.previous_log ∷ b.seen }, rebuild)

unfoldable pub migrations : List LogEvent → List MigrationEvent
migrations [] = []
migrations (migration e ∷ rest) = e ∷ migrations rest
migrations (issuance e ∷ rest) = migrations rest
migrations (key_rotation e ∷ rest) = migrations rest
migrations (revocation e ∷ rest) = migrations rest
migrations (retirement e ∷ rest) = migrations rest
migrations (delegation e ∷ rest) = migrations rest
migrations (foreign d t ∷ rest) = migrations rest

abbrev pub any_empty : List String → Bool
any_empty [] = false
any_empty (s ∷ ss) = str_eq s "" || any_empty ss

abbrev pub last_is : List String → String → Bool
last_is [] s = false
last_is (t ∷ []) s = str_eq t s
last_is (t ∷ u ∷ us) s = last_is (u ∷ us) s

-- The loop over the migrations once a log is current: the last log, and the logs seen.
unfoldable pub follow :
    String → List String → List MigrationEvent → Result MigrationError (String × List String)
follow current_log seen [] = ok (current_log, seen)
follow current_log seen (e ∷ es) = do
  raise_if (not (str_eq e.previous_log current_log)) not_continuous
  raise_if (has_seen e.new_log seen) cycle
  follow e.new_log (e.new_log ∷ seen) es

abbrev pub follow_all :
    String → List String → List MigrationEvent → Result MigrationError (List String)
follow_all end_log seen [] = ok seen
follow_all end_log seen (e ∷ es) = do
  raise_if (has_seen e.previous_log seen) cycle
  (current_log, visited) ← follow e.previous_log (e.previous_log ∷ seen) (e ∷ es)
  raise_if (not (str_eq current_log end_log)) wrong_end
  ok visited

-- `_validate_predecessor_history`: the budget with the logs of the history seen.
unfoldable pub validate_predecessor_history :
    MigrationEvent → VerifiedCutoffHistory → ℕ → ℕ → ℕ → Budget → Result MigrationError Budget
validate_predecessor_history m history depth max_events max_response_bytes b = do
  raise_if
      (length history.events == 0
        || (ltb max_events (length history.events)
            || (not (length history.event_refs == length history.events)
                || (any_empty history.event_refs
                    || (not (last_is history.event_refs m.final_entry_ref)
                        || ltb max_response_bytes history.response_size)))))
      bad_cutoff
  raise_if (ltb b.limits.max_depth (depth + 1 + length (migrations history.events))) too_deep
  visited ← follow_all m.previous_log (without m.previous_log b.seen) (migrations history.events)
  ok (record b { seen = visited ++ b.seen })

module _ (digest : List (String × String) → String) (max_time : Time) where
  abbrev thumb_of : Jwk → Result MigrationError String
  thumb_of key = some_or (thumbprint digest key) value_error

  abbrev whole_snapshot : String → List LogEvent → Result MigrationError DomainSnapshot
  whole_snapshot domain events =
      elim (snapshot_at digest (record { domain = domain; events = events }) max_time) [
        | ok snap ↦ ok snap
        | err e ↦ err (history_error e)
      ]

  -- `_prior_result`
  unfoldable pub prior_result :
      String → Jwk → List LogEvent → List String → Result MigrationError MigrationVerificationResult
  prior_result domain trusted events refs = do
    snap ← whole_snapshot domain events
    raise_if (not (is_active snap.historical_state)) not_active
    e ← some_or (first_issuance events) not_active
    entity ← some_or e.entity_key not_active
    raise_if (not (str_eq e.governance_id snap.governance_id)) not_active
    logged ← thumb_of entity
    expected ← thumb_of trusted
    raise_if (not (str_eq logged expected)) entity_mismatch
    ok (record {
      entity_key = entity;
      operational_key = snap.active_key;
      prior_events = events;
      prior_event_refs = refs;
    })

  -- `_verify_prior_history` where the reader is no C2spTlogReader, and `_external_prior`
  unfoldable pub verify_external_prior :
      String
      → Option (String → Option Rebuild)
      → MigrationEvent
      → String
      → Jwk
      → ℕ
      → Budget
      → Result MigrationError (Budget × MigrationVerificationResult)
  verify_external_prior lr factory event domain trusted depth budget = do
    (b, rebuild) ← prior_reader lr factory event depth budget
    history ←
        some_or
          (rebuild event.final_entry_ref (record {
            depth = b.limits.max_depth - depth;
            history_events = b.limits.max_history_events - b.history_events;
            response_bytes = b.limits.max_response_bytes - b.response_bytes;
            seen_log_references = b.seen;
          }))
          reader_failed
    validated ←
        validate_predecessor_history event history depth
          (b.limits.max_history_events - b.history_events)
          (b.limits.max_response_bytes - b.response_bytes) b
    charged ← add_response history.response_size validated
    counted ← add_events (length history.events) charged
    result ← prior_result domain trusted history.events history.event_refs
    ok (counted, result)
