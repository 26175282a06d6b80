-- ===== src/Reader.antt =====
-- What the log reader concludes from a verified history (dnsid/c2sp_tlog/reader.py):
-- `_key_timestamp`, `_bilateral_binding`, `_operational_continuity` and `_non_revocation`. Instants
-- of events are numbers, those of the clock and of checkpoints are in milliseconds. What
-- LoggedStateEvidence hands on unread is a text.
pub mod Whole
pub mod Verdicts
pub mod Migration
mod Runs
use dnsid_py.Base.{
  ℕ, ◌+◌, ◌-◌, String, Bool, true, false, not, ◌&&◌, ◌||◌, Option, none, some, List, [], ◌∷◌,
  length, get_elem?, ltb, leb, ◌==◌, str_eq, max, if◌then◌else◌,
}
use dnsid_py.Base.Result.{Result, ok, err, ◌>>=◌, ◌>>◌, raise_if, some_or}
use dnsid_py.Keys.{Jwk, thumbprint}
use dnsid_py.Events.{
  Time, IssuanceEvent, KeyRotationEvent, LogEvent, issuance, key_rotation, revocation, retirement,
  migration, delegation, foreign, timestamp_of,
}
use dnsid_py.DomainLog.{
  HistoricalState, unset, active, revoked, retired, SnapshotError, DomainSnapshot, snapshot_at,
}

-- `log_error` with its reasons, the errors of `snapshot_at`, and Python's own.
pub data ReaderError : Type 0 where
  history_error : SnapshotError → ReaderError
  terminal_history no_issuance missing_keys issuance_mismatch entity_mismatch : ReaderError
  unrecorded_key initial_mismatch current_mismatch unknown_thumbprint : ReaderError
  no_freshness_limit stale_checkpoint ended_domain missing_refs : ReaderError
  value_error attribute_error index_error : ReaderError

pub record VerifiedHistory : Type 0 where
  pub events : List LogEvent
  pub event_refs : List String
  pub checkpoint_witness_ms : ℕ
  pub complete_through : String
  pub completeness_mode : String
  pub checkpoint : String

pub record BilateralBindingResult : Type 0 where
  pub initial_operational_thumbprint : String
  pub initial_entity_thumbprint : String
  pub timestamp : Time

pub record LoggedStateEvidence : Type 0 where
  pub log_reference : String
  pub logged_state : HistoricalState
  pub history_start : String
  pub history_end : String
  pub complete_through : String
  pub completeness_mode : String
  pub checkpoint : String
  pub freshness_ms : ℕ

abbrev pub from_snapshot : {A : Type 0} → Result SnapshotError A → Result ReaderError A
from_snapshot (ok a) = ok a
from_snapshot (err e) = err (history_error e)

-- `max(event.timestamp for event in events)`
unfoldable pub latest : List LogEvent → Result ReaderError Time
latest [] = err value_error
latest (e ∷ []) = some_or (timestamp_of e) attribute_error
latest (e ∷ x ∷ rest) =
    some_or (timestamp_of e) attribute_error >>= λ t. latest (x ∷ rest) >>= λ u. ok (max t u)

-- `next((e for e in events if isinstance(e, IssuanceEvent)), None)`
unfoldable pub first_issuance : List LogEvent → Option IssuanceEvent
first_issuance [] = none
first_issuance (issuance e ∷ rest) = some e
first_issuance (key_rotation e ∷ rest) = first_issuance rest
first_issuance (revocation e ∷ rest) = first_issuance rest
first_issuance (retirement e ∷ rest) = first_issuance rest
first_issuance (migration e ∷ rest) = first_issuance rest
first_issuance (delegation e ∷ rest) = first_issuance rest
first_issuance (foreign d t ∷ rest) = first_issuance rest

abbrev pub is_active : HistoricalState → Bool
is_active active = true
is_active _ = false

abbrev pub has_ended : HistoricalState → Bool
has_ended revoked = true
has_ended retired = true
has_ended _ = false

abbrev pub is_text : Option String → String → Bool
is_text none t = false
is_text (some s) t = str_eq s t

abbrev pub is_stale : ℕ → ℕ → ℕ → Bool
is_stale now_ms freshness_ms witness_ms = ltb (witness_ms + freshness_ms) now_ms

module _ (digest : List (String × String) → String) where
  abbrev pub thumb : Jwk → Result ReaderError String
  thumb key = some_or (thumbprint digest key) value_error

  -- The test of one event in `_key_timestamp` and `_bilateral_binding`: it brought in the key.
  unfoldable pub introduces : String → LogEvent → Result ReaderError Bool
  introduces key_thumbprint (issuance e) = elim e.operational_key [
    | none ↦ ok false
    | some key ↦ thumb key >>= λ t. ok (str_eq t key_thumbprint)
  ]
  introduces key_thumbprint (key_rotation e) = ok (str_eq e.new_thumbprint key_thumbprint)
  introduces key_thumbprint _ = ok false

  -- The first event that brought in the key.
  unfoldable pub introduction : String → List LogEvent → Result ReaderError (Option LogEvent)
  introduction key_thumbprint [] = ok none
  introduction key_thumbprint (e ∷ rest) =
      let later = introduction key_thumbprint rest in
      introduces key_thumbprint e >>= λ found. if found then ok (some e) else later

  -- `_key_timestamp`
  unfoldable pub key_timestamp : List LogEvent → String → Result ReaderError Time
  key_timestamp events key_thumbprint = do
    found ← introduction key_thumbprint events
    event ← some_or found unknown_thumbprint
    some_or (timestamp_of event) attribute_error

  abbrev pub snapshot : String → List LogEvent → Time → Result ReaderError DomainSnapshot
  snapshot domain events at =
      from_snapshot (snapshot_at digest (record { domain = domain; events = events }) at)

  -- The snapshot at the end of the history, which must be active.
  unfoldable pub active_snapshot : String → List LogEvent → Result ReaderError DomainSnapshot
  active_snapshot domain events = do
    at ← latest events
    snap ← snapshot domain events at
    raise_if (not (is_active snap.historical_state)) terminal_history
    ok snap

  -- `_bilateral_binding`; `record_gi` is the record's `gi`.
  unfoldable pub bilateral_binding :
      Option String
      → Jwk
      → Jwk
      → String
      → VerifiedHistory
      → Result ReaderError BilateralBindingResult
  bilateral_binding record_gi entity_key operational_key domain verified = do
    entity_thumbprint ← thumb entity_key
    snap ← active_snapshot domain verified.events
    e ← some_or (first_issuance verified.events) no_issuance
    logged_entity ← some_or e.entity_key missing_keys
    logged_operational ← some_or e.operational_key missing_keys
    raise_if (not (str_eq e.domain domain) || not (is_text record_gi e.governance_id))
        issuance_mismatch
    logged_thumbprint ← thumb logged_entity
    raise_if (not (str_eq logged_thumbprint entity_thumbprint)) entity_mismatch
    current_thumbprint ← thumb operational_key
    recorded ← introduction current_thumbprint verified.events
    event ← some_or recorded unrecorded_key
    initial ← thumb logged_operational
    ok (record {
      initial_operational_thumbprint = initial;
      initial_entity_thumbprint = entity_thumbprint;
      timestamp = e.timestamp;
    })

  -- `_operational_continuity`
  unfoldable pub operational_continuity :
      String → String → String → VerifiedHistory → Result ReaderError (Unit {0})
  operational_continuity domain initial_thumbprint current_thumbprint verified = do
    e ← some_or (first_issuance verified.events) initial_mismatch
    key ← some_or e.operational_key initial_mismatch
    t ← thumb key
    raise_if (not (str_eq t initial_thumbprint)) initial_mismatch
    snap ← active_snapshot domain verified.events
    raise_if (not (str_eq snap.active_key_thumbprint current_thumbprint)) current_mismatch

  -- `_non_revocation`, with `_assert_fresh`
  unfoldable pub non_revocation :
      String
      → Option ℕ
      → ℕ
      → String
      → Time
      → VerifiedHistory
      → Result ReaderError LoggedStateEvidence
  non_revocation lr checkpoint_freshness_ms now_ms domain at verified = do
    freshness ← some_or checkpoint_freshness_ms no_freshness_limit
    raise_if (is_stale now_ms freshness verified.checkpoint_witness_ms) stale_checkpoint
    snap ← snapshot domain verified.events at
    raise_if (has_ended snap.historical_state) ended_domain
    raise_if (not (length verified.event_refs == length verified.events)) missing_refs
    start ← some_or (get_elem? verified.event_refs 0) index_error
    end ← some_or (get_elem? verified.event_refs (length snap.events - 1)) index_error
    ok (record {
      log_reference = lr;
      logged_state = snap.historical_state;
      history_start = start;
      history_end = end;
      complete_through = verified.complete_through;
      completeness_mode = verified.completeness_mode;
      checkpoint = verified.checkpoint;
      freshness_ms = verified.checkpoint_witness_ms;
    })
