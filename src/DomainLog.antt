-- ===== src/DomainLog.antt =====
-- DomainLog.snapshot_at of dnsid/models.py: the state of a domain at a time, from its verified
-- events. `digest` is the hash under the RFC 7638 thumbprint.
pub mod History
pub mod Steps
pub mod Correct
pub mod Runs
use dnsid_py.Base.{
  ℕ, ◌+◌, String, Bool, true, false, not, ◌&&◌, ◌||◌, Option, none, some, List, [], ◌∷◌, ◌++◌, ltb,
  str_eq, if◌then◌else◌,
}
use dnsid_py.Base.Result.{Result, ok, err, ◌>>=◌, ◌>>◌, raise_if, some_or}
use dnsid_py.Keys.{Jwk, thumbprint}
use dnsid_py.Events.{
  Time, IssuanceEvent, KeyRotationEvent, MigrationEvent, LogEvent, issuance, key_rotation,
  revocation, retirement, migration, delegation, foreign, domain_of, timestamp_of,
  LifecycleErrorCategory, genesis_required, duplicate_issuance, invalid_issuance, terminal_state,
  domain_mismatch, key_continuity, invalid_revocation_reason, invalid_migration, snapshot_empty,
  snapshot_non_prefix, unsupported_event,
}

-- A LifecycleVerificationError with the index of its event, or the ValueError of a key that has
-- no thumbprint.
pub data SnapshotError : Type 0 where
  lifecycle : LifecycleErrorCategory → Option ℕ → SnapshotError
  value_error : SnapshotError

-- The values of the variable `state`: "", "ACTIVE", "REVOKED" and "RETIRED".
pub data HistoricalState : Type 0 where
  unset active revoked retired : HistoricalState

-- The local variables of the loop.
pub record Replay : Type 0 where
  pub state : HistoricalState
  pub entity_key : Option Jwk
  pub active_key : Option Jwk
  pub active_key_thumbprint : String
  pub key_bound_at : Time
  pub governance_id : String
  pub events_up_to : List LogEvent
  pub past_snapshot_boundary : Bool

pub record DomainSnapshot : Type 0 where
  pub domain : String
  pub historical_state : HistoricalState
  pub active_key : Jwk
  pub active_key_thumbprint : String
  pub key_bound_at : Time
  pub governance_id : String
  pub snapshot_at : Time
  pub events : List LogEvent

pub record DomainLog : Type 0 where
  pub domain : String
  pub events : List LogEvent

abbrev pub begin : Replay
begin = record {
  state = unset;
  entity_key = none;
  active_key = none;
  active_key_thumbprint = "";
  key_bound_at = 0;
  governance_id = "";
  events_up_to = [];
  past_snapshot_boundary = false;
}

abbrev is_unset : HistoricalState → Bool
is_unset unset = true
is_unset active = false
is_unset revoked = false
is_unset retired = false

abbrev is_terminal : HistoricalState → Bool
is_terminal unset = false
is_terminal active = false
is_terminal revoked = true
is_terminal retired = true

abbrev pub is_empty : List LogEvent → Bool
is_empty [] = true
is_empty (e ∷ es) = false

abbrev is_issuance : LogEvent → Bool
is_issuance (issuance e) = true
is_issuance _ = false

-- The values of RevocationReason.
unfoldable pub known_reason : String → Bool
known_reason r =
    str_eq r "keyCompromise"
    || (str_eq r "policyViolation" || (str_eq r "superseded" || str_eq r "cessationOfOperation"))

pub bad_migration : MigrationEvent → Bool
bad_migration e =
    str_eq e.previous_log ""
    || (str_eq e.new_log "" || (str_eq e.final_entry_ref "" || str_eq e.previous_log e.new_log))

-- What follows the loop.
unfoldable pub conclude : DomainLog → Time → Replay → Result SnapshotError DomainSnapshot
conclude log at s = do
  raise_if (is_empty s.events_up_to) (lifecycle snapshot_empty none)
  raise_if (is_unset s.state) (lifecycle genesis_required none)
  key ← some_or s.active_key (lifecycle genesis_required none)
  ok (record {
    domain = log.domain;
    historical_state = s.state;
    active_key = key;
    active_key_thumbprint = s.active_key_thumbprint;
    key_bound_at = s.key_bound_at;
    governance_id = s.governance_id;
    snapshot_at = at;
    events = s.events_up_to;
  })

module _ (digest : List (String × String) → String) where
  -- `if isinstance(event, IssuanceEvent)`
  pub apply_issuance : ℕ → Replay → IssuanceEvent → Result SnapshotError Replay
  apply_issuance index s e = do
    raise_if (not (is_unset s.state)) (lifecycle duplicate_issuance (some index))
    entity ← some_or e.entity_key (lifecycle invalid_issuance (some index))
    operational ← some_or e.operational_key (lifecycle invalid_issuance (some index))
    entity_thumb ← some_or (thumbprint digest entity) value_error
    operational_thumb ← some_or (thumbprint digest operational) value_error
    raise_if (str_eq entity_thumb operational_thumb) (lifecycle invalid_issuance (some index))
    ok (record s {
      state = active;
      entity_key = some entity;
      active_key = some operational;
      active_key_thumbprint = operational_thumb;
      key_bound_at = e.timestamp;
      governance_id = e.governance_id;
    })

  -- `elif isinstance(event, KeyRotationEvent)`
  pub apply_rotation : ℕ → Replay → KeyRotationEvent → Result SnapshotError Replay
  apply_rotation index s e = do
    let broken = lifecycle key_continuity (some index)
    old_key ← some_or s.active_key broken
    entity ← some_or s.entity_key broken
    raise_if (not (str_eq e.previous_thumbprint s.active_key_thumbprint)) broken
    new ← some_or e.new_public_key broken
    new_thumb ← some_or (thumbprint digest new) value_error
    raise_if (not (str_eq e.new_thumbprint new_thumb)) broken
    raise_if (str_eq e.new_thumbprint s.active_key_thumbprint) broken
    entity_thumb ← some_or (thumbprint digest entity) value_error
    raise_if (str_eq e.new_thumbprint entity_thumb) broken
    ok (record s {
      active_key = some new;
      active_key_thumbprint = e.new_thumbprint;
      key_bound_at = e.timestamp;
    })

  -- The chain of tests on the class of the event.
  unfoldable pub apply_event : ℕ → Replay → LogEvent → Result SnapshotError Replay
  unfolding apply_issuance apply_rotation bad_migration known_reason
  apply_event index s (issuance e) = apply_issuance index s e
  apply_event index s (key_rotation e) = apply_rotation index s e
  apply_event index s (revocation e) = do
    raise_if (not (known_reason e.reason)) (lifecycle invalid_revocation_reason (some index))
    ok (record s { state = revoked })
  apply_event index s (retirement e) = ok (record s { state = retired })
  apply_event index s (migration e) = do
    raise_if (bad_migration e) (lifecycle invalid_migration (some index))
    ok s
  apply_event index s (delegation e) = ok s
  apply_event index s (foreign d t) = err (lifecycle unsupported_event (some index))

  -- An event inside the snapshot.
  unfoldable pub replay_event : ℕ → Replay → LogEvent → Result SnapshotError Replay
  replay_event index s e = do
    raise_if (is_unset s.state && not (is_issuance e)) (lifecycle genesis_required (some index))
    raise_if (is_terminal s.state) (lifecycle terminal_state (some index))
    apply_event index (record s { events_up_to = s.events_up_to ++ (e ∷ []) }) e

  -- One round of the loop.
  unfoldable pub visit : String → Time → ℕ → Replay → LogEvent → Result SnapshotError Replay
  visit domain at index s e = do
    event_domain ← some_or (domain_of e) (lifecycle domain_mismatch (some index))
    raise_if (not (str_eq event_domain domain)) (lifecycle domain_mismatch (some index))
    event_time ← some_or (timestamp_of e) (lifecycle unsupported_event (some index))
    if ltb at event_time then ok (record s { past_snapshot_boundary = true }) else do
      raise_if s.past_snapshot_boundary (lifecycle snapshot_non_prefix (some index))
      replay_event index s e

  unfoldable pub replay : String → Time → ℕ → Replay → List LogEvent → Result SnapshotError Replay
  replay domain at index s [] = ok s
  replay domain at index s (e ∷ es) =
      visit domain at index s e >>= λ s'. replay domain at (index + 1) s' es

  unfoldable pub snapshot_at : DomainLog → Time → Result SnapshotError DomainSnapshot
  snapshot_at log at = do
    raise_if (is_empty log.events) (lifecycle snapshot_empty none)
    s ← replay log.domain at 0 begin log.events
    conclude log at s
