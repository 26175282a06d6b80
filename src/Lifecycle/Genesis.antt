-- ===== src/Lifecycle/Genesis.antt =====
-- The first event of a lifecycle (dnsid/c2sp_tlog/stream_verifier.py, verify_lifecycle).
use dnsid_py.Base.{not, ◌||◌, Option, none, some, str_eq}
use dnsid_py.Base.Result.{Result, ok, ◌>>=◌, ◌>>◌, raise_if, some_or}
use dnsid_py.Keys.{Jwk}
use dnsid_py.Events.{IssuanceEvent, MigrationEvent}
use dnsid_py.Lifecycle.{
  VerifiedLifecycleEvent, LifecycleState, LifecycleError, Options, Decoders, thumb, check_signature,
  active_state, other_stream, missing_keys, equal_keys, untrusted_entity_key,
  missing_countersignature, same_log, no_prior_history, wrong_stream, wrong_kid,
}

module _ (d : Decoders) where
  -- `opts.signer_key is not None and opts.signer_key.thumbprint() != entity_key.thumbprint()`
  abbrev pub check_trusted : Option Jwk → Jwk → Result LifecycleError (Unit {0})
  check_trusted none entity = ok tt
  check_trusted (some trusted) entity = do
    a ← thumb d trusted
    b ← thumb d entity
    raise_if (not (str_eq a b)) untrusted_entity_key

  -- `_assert_issuance_key_metadata`, and the keys.
  unfoldable pub issuance_keys : IssuanceEvent → Result LifecycleError (Jwk × Jwk)
  issuance_keys e = do
    entity ← some_or e.entity_key missing_keys
    operational ← some_or e.operational_key missing_keys
    raise_if (str_eq entity.kid "" || str_eq operational.kid "") missing_keys
    a ← thumb d entity
    b ← thumb d operational
    raise_if (str_eq a b) equal_keys
    ok (entity, operational)

  -- The branch of an ISSUANCE; the keys and the state after it.
  unfoldable pub take_issuance :
      Options
      → VerifiedLifecycleEvent
      → IssuanceEvent
      → Result LifecycleError ((Jwk × Jwk) × LifecycleState)
  take_issuance opts item e = do
    keys ← issuance_keys e
    check_trusted opts.signer_key keys.0
    check_signature d item e.signed.sig keys.0
    raise_if (str_eq e.signed.operational_countersig "") missing_countersignature
    check_signature d item e.signed.operational_countersig keys.1
    s ← active_state d e.domain keys.0 keys.1
    ok (keys, s)

  -- The branch of a MIGRATION at the start of a stream.
  unfoldable pub take_migration :
      Options
      → VerifiedLifecycleEvent
      → MigrationEvent
      → Result LifecycleError ((Jwk × Jwk) × LifecycleState)
  take_migration opts item e = do
    raise_if (str_eq e.previous_log "" || str_eq e.previous_log e.new_log) same_log
    verify_migration ← some_or opts.verify_migration no_prior_history
    raise_if (other_stream opts.lr e.new_log) wrong_stream
    keys ← verify_migration e
    a ← thumb d keys.0
    b ← thumb d keys.1
    raise_if (str_eq a b) equal_keys
    check_trusted opts.signer_key keys.0
    raise_if (not (str_eq e.signed.signing_kid (keys.0).kid)) wrong_kid
    check_signature d item e.signed.sig keys.0
    s ← active_state d e.domain keys.0 keys.1
    ok (keys, s)
