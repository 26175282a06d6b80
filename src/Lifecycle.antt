-- ===== src/Lifecycle.antt =====
-- verify_lifecycle of dnsid/c2sp_tlog/stream_verifier.py: whether a list of logged events is one
-- valid, fully signed lifecycle. What the decoding of entries and keys answers is a parameter.
-- The limit of the integration time and the times of events are in milliseconds.
pub mod Genesis
pub mod Verify
pub mod Spec
mod Events
mod Position
mod First
pub mod Sound
pub mod Candidate
pub mod Select
mod Runs
use dnsid_py.Base.{
  ℕ, ◌+◌, String, Bool, true, false, not, ◌&&◌, ◌||◌, Option, none, some, List, [], ◌∷◌, Bytes, ltb,
  ◌==◌, str_eq, if◌then◌else◌,
}
use dnsid_py.Base.Result.{Result, ok, err, ◌>>=◌, ◌>>◌, raise_if, some_or}
use dnsid_py.Keys.{Jwk, thumbprint}
use dnsid_py.Events.{
  Time, Signed, IssuanceEvent, KeyRotationEvent, MigrationEvent, LogEvent, issuance, key_rotation,
  revocation, retirement, migration, delegation, foreign, timestamp_of,
}
use dnsid_py.DomainLog.{known_reason}

-- What `parse_chain_fields` leaves of an entry.
pub record Chain : Type 0 where
  pub seq : Option ℕ
  pub prev_event_id : Option String
  pub prev_state_hash : Option String

pub record VerifiedLifecycleEvent : Type 0 where
  pub index : ℕ
  pub leaf_hash : Bytes
  pub data_bytes : Bytes
  pub event : LogEvent
  pub chain : Chain
  pub post_keys : Option (Jwk × Jwk)

-- The state that `_active_state` and `_next_state` describe.
pub record LifecycleState : Type 0 where
  pub fqdn : String
  pub status : String
  pub entity_thumb : String
  pub operational_thumb : String

-- The messages of the errors; `value_error` and `attribute_error` are Python's own, and
-- `migration_error` and `resource_limited`, a C2spTlogResourceLimitError, are raised by the
-- verification of the previous log.
pub data LifecycleError : Type 0 where
  no_event unchained_mode after_terminal bad_genesis duplicate_issuance : LifecycleError
  late_migration no_integration_time too_late missing_signature : LifecycleError
  bad_seq bad_prev_event_id bad_prev_state_hash bad_first_seq first_has_previous : LifecycleError
  missing_keys equal_keys untrusted_entity_key missing_countersignature : LifecycleError
  same_log no_prior_history wrong_stream wrong_kid signature_invalid : LifecycleError
  wrong_previous_key metadata_mismatch unchanged_key missing_possession : LifecycleError
  unknown_reason value_error attribute_error migration_error resource_limited : LifecycleError

-- StreamVerifierOptions, as far as `verify_lifecycle` reads it. `verify_migration` answers with
-- the keys of the previous log.
pub record Options : Type 0 where
  pub lr : Option String
  pub unchained : Bool
  pub signer_key : Option Jwk
  pub checkpoint_integration_time_ms : Option ℕ
  pub verify_migration : Option (MigrationEvent → Result LifecycleError (Jwk × Jwk))

-- `digest` is the hash under a thumbprint; `signed_bytes`, `event_id` and `decode` answer `none`
-- where signed_c2sp_entry_bytes, c2sp_event_id and b64url_decode raise; `verify` is JWK.verify;
-- `state_hash` hashes the canonical JSON of a state; `millis` is `timestamp.timestamp() * 1000`.
pub record Decoders : Type 0 where
  pub digest : List (String × String) → String
  pub signed_bytes : Bytes → Option Bytes
  pub event_id : Bytes → Option String
  pub decode : String → Option Bytes
  pub verify : Jwk → Bytes → Bytes → Bool
  pub state_hash : Option LifecycleState → String
  pub millis : Time → ℕ

-- What the loop carries: `events[pos - 1]`, and its variables.
pub record Walk : Type 0 where
  pub previous : Option VerifiedLifecycleEvent
  pub terminal : Bool
  pub prev_state : Option LifecycleState
  pub keys : Option (Jwk × Jwk)

abbrev pub start : Walk
start = record { previous = none; terminal = false; prev_state = none; keys = none }

-- The signature fields of an event of one of the classes.
unfoldable pub signed_of : LogEvent → Option Signed
signed_of (issuance e) = some e.signed
signed_of (key_rotation e) = some e.signed
signed_of (revocation e) = some e.signed
signed_of (retirement e) = some e.signed
signed_of (migration e) = some e.signed
signed_of (delegation e) = some e.signed
signed_of (foreign d t) = none

abbrev pub is_first : Option VerifiedLifecycleEvent → Bool
is_first none = true
is_first (some item) = false

abbrev pub is_issuance : LogEvent → Bool
is_issuance (issuance e) = true
is_issuance _ = false

abbrev pub is_migration : LogEvent → Bool
is_migration (migration e) = true
is_migration _ = false

abbrev pub ends_lifecycle : LogEvent → Bool
ends_lifecycle (revocation e) = true
ends_lifecycle (retirement e) = true
ends_lifecycle _ = false

abbrev is_some : {A : Type 0} → Option A → Bool
is_some none = false
is_some (some a) = true

-- `value == number` and `value == text` for a value that may be missing.
abbrev pub is_number : Option ℕ → ℕ → Bool
is_number none n = false
is_number (some m) n = m == n

abbrev pub is_text : Option String → String → Bool
is_text none t = false
is_text (some s) t = str_eq s t

abbrev pub other_stream : Option String → String → Bool
other_stream none new_log = false
other_stream (some lr) new_log = not (str_eq lr "") && not (str_eq new_log lr)

module _ (d : Decoders) where
  abbrev pub thumb : Jwk → Result LifecycleError String
  thumb key = some_or (thumbprint d.digest key) value_error

  -- `_verify_event_signature`, without the raise
  unfoldable pub signature_ok : VerifiedLifecycleEvent → String → Jwk → Bool
  signature_ok item signature key = elim (d.signed_bytes item.data_bytes) [
    | none ↦ false
    | some payload ↦ elim (d.decode signature) [
      | none ↦ false
      | some sig ↦ d.verify key payload sig
    ]
  ]

  abbrev pub check_signature :
      VerifiedLifecycleEvent → String → Jwk → Result LifecycleError (Unit {0})
  check_signature item signature key =
      raise_if (not (signature_ok item signature key)) signature_invalid

  -- `_assert_first_chain_fields`
  unfoldable pub assert_first_chain_fields :
      VerifiedLifecycleEvent → Result LifecycleError (Unit {0})
  assert_first_chain_fields item = do
    raise_if (not (is_number item.chain.seq 0)) bad_first_seq
    raise_if (is_some item.chain.prev_event_id || is_some item.chain.prev_state_hash)
        first_has_previous

  -- `_assert_chain_fields`
  unfoldable pub assert_chain_fields :
      VerifiedLifecycleEvent
      → VerifiedLifecycleEvent
      → Option LifecycleState
      → Result LifecycleError (Unit {0})
  assert_chain_fields item prev prev_state = do
    prev_seq ← some_or prev.chain.seq bad_seq
    raise_if (not (is_number item.chain.seq (prev_seq + 1))) bad_seq
    id ← some_or (d.event_id prev.data_bytes) value_error
    raise_if (not (is_text item.chain.prev_event_id id)) bad_prev_event_id
    raise_if (not (is_text item.chain.prev_state_hash (d.state_hash prev_state)))
        bad_prev_state_hash

  abbrev assert_chain :
      Option VerifiedLifecycleEvent
      → VerifiedLifecycleEvent
      → Option LifecycleState
      → Result LifecycleError (Unit {0})
  assert_chain none item prev_state = assert_first_chain_fields item
  assert_chain (some prev) item prev_state = assert_chain_fields item prev prev_state

  -- `_active_state`
  unfoldable pub active_state : String → Jwk → Jwk → Result LifecycleError LifecycleState
  active_state domain entity operational = do
    entity_thumb ← thumb entity
    operational_thumb ← thumb operational
    ok (record {
      fqdn = domain;
      status = "ACTIVE";
      entity_thumb = entity_thumb;
      operational_thumb = operational_thumb;
    })

  -- `_next_state`
  unfoldable pub next_state :
      Option LifecycleState → LogEvent → Jwk → Jwk → Result LifecycleError (Option LifecycleState)
  next_state previous (delegation e) entity operational = ok previous
  next_state previous (revocation e) entity operational = do
    s ← active_state e.domain entity operational
    ok (some (record s { status = "REVOKED" }))
  next_state previous (retirement e) entity operational = do
    s ← active_state e.domain entity operational
    ok (some (record s { status = "RETIRED" }))
  next_state previous (issuance e) entity operational = do
    s ← active_state e.domain entity operational
    ok (some s)
  next_state previous (key_rotation e) entity operational = do
    s ← active_state e.domain entity operational
    ok (some s)
  next_state previous (migration e) entity operational = do
    s ← active_state e.domain entity operational
    ok (some s)
  next_state previous (foreign f t) entity operational = err attribute_error

  -- The tests at the head of the loop, before the event's class decides.
  unfoldable pub check_position :
      Options → Walk → VerifiedLifecycleEvent → Result LifecycleError (Unit {0})
  check_position opts w item = do
    raise_if w.terminal after_terminal
    raise_if (is_first w.previous && not (is_issuance item.event || is_migration item.event))
        bad_genesis
    raise_if (not (is_first w.previous) && is_issuance item.event) duplicate_issuance
    raise_if (not (is_first w.previous) && is_migration item.event) late_migration
    limit ← some_or opts.checkpoint_integration_time_ms no_integration_time
    time ← some_or (timestamp_of item.event) attribute_error
    raise_if (ltb limit (d.millis time)) too_late
    assert_chain w.previous item w.prev_state
    signed ← some_or (signed_of item.event) attribute_error
    raise_if (str_eq signed.sig "") missing_signature
