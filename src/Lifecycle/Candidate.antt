-- ===== src/Lifecycle/Candidate.antt =====
-- Who has signed a candidate entry: `_candidate_is_authenticated`, for a candidate that follows
-- events already selected, and `_applied_keys` of dnsid/c2sp_tlog/stream_verifier.py. In the `try`
-- block, which answers a caught error with False, `return False` is written as such an error.
pub mod Authentic
pub mod Charge
use dnsid_py.Base.{
  String, Bool, true, false, not, Option, none, some, List, [], ◌∷◌, str_eq, if◌then◌else◌,
}
use dnsid_py.Base.Result.{Result, ok, err, ◌>>=◌, ◌>>◌, raise_if, some_or}
use dnsid_py.Keys.{Jwk, thumbprint}
use dnsid_py.Events.{
  Signed, IssuanceEvent, KeyRotationEvent, MigrationEvent, LogEvent, issuance, key_rotation,
  revocation, retirement, migration, delegation, foreign,
}
use dnsid_py.Lifecycle.{
  VerifiedLifecycleEvent, LifecycleError, Options, Decoders, signed_of, thumb, signature_ok,
  check_signature, missing_keys, no_prior_history, attribute_error, value_error, migration_error,
  resource_limited, signature_invalid,
}

-- The errors that are no verification errors pass through.
abbrev pub caught : LifecycleError → Bool
caught value_error = false
caught attribute_error = false
caught migration_error = false
caught resource_limited = false
caught _ = true

abbrev pub answer : Result LifecycleError (Unit {0}) → Result LifecycleError Bool
answer (ok u) = ok true
answer (err e) = if caught e then ok false else err e

-- A round of the loop over the rotations, and the loop.
abbrev pub rotated_key : Jwk → LogEvent → Result LifecycleError Jwk
rotated_key operational (key_rotation e) = some_or e.new_public_key missing_keys
rotated_key operational _ = ok operational

unfoldable pub last_rotation : Jwk → List VerifiedLifecycleEvent → Result LifecycleError Jwk
last_rotation operational [] = ok operational
last_rotation operational (item ∷ rest) =
    rotated_key operational item.event >>= λ next_key. last_rotation next_key rest

abbrev pub last_keys : VerifiedLifecycleEvent → List VerifiedLifecycleEvent → Option (Jwk × Jwk)
last_keys item [] = item.post_keys
last_keys item (next_item ∷ rest) = last_keys next_item rest

module _ (d : Decoders) (opts : Options) where
  abbrev pub genesis_keys : LogEvent → Result LifecycleError (Jwk × Jwk)
  genesis_keys (issuance e) = do
    entity ← some_or e.entity_key missing_keys
    operational ← some_or e.operational_key missing_keys
    ok (entity, operational)
  genesis_keys (migration e) = do
    verify_migration ← some_or opts.verify_migration no_prior_history
    verify_migration e
  genesis_keys _ = err missing_keys

  -- `_applied_keys` of the list `first ∷ rest`
  unfoldable pub applied_keys :
      VerifiedLifecycleEvent → List VerifiedLifecycleEvent → Result LifecycleError (Jwk × Jwk)
  applied_keys first rest = elim (last_keys first rest) [
    | some keys ↦ ok keys
    | none ↦ do
      keys ← genesis_keys first.event
      operational ← last_rotation keys.1 rest
      ok (keys.0, operational)
  ]

  abbrev pub check_entity_signature :
      VerifiedLifecycleEvent → Option Signed → Jwk → Result LifecycleError (Unit {0})
  check_entity_signature item signed entity = do
    s ← some_or signed attribute_error
    raise_if (not (str_eq s.signing_kid entity.kid)) signature_invalid
    check_signature d item s.sig entity

  -- What the signers of a new payload must have signed, under the keys in charge.
  unfoldable pub check_signers :
      VerifiedLifecycleEvent → LogEvent → Jwk × Jwk → Result LifecycleError (Unit {0})
  check_signers item (issuance e) keys = do
    entity ← some_or e.entity_key signature_invalid
    operational ← some_or e.operational_key signature_invalid
    a ← thumb d entity
    b ← thumb d keys.0
    raise_if (not (str_eq a b)) signature_invalid
    check_signature d item e.signed.operational_countersig operational
    check_entity_signature item (some e.signed) keys.0
  check_signers item (key_rotation e) keys = do
    raise_if (not (str_eq e.previous_kid (keys.1).kid)) signature_invalid
    check_signature d item e.signed.sig keys.1
    new ← some_or e.new_public_key signature_invalid
    check_signature d item e.new_operational_proof new
  check_signers item event keys = check_entity_signature item (signed_of event) keys.0

  -- `_candidate_is_authenticated` after the events `first ∷ rest`
  unfoldable pub candidate_is_authenticated :
      VerifiedLifecycleEvent
      → VerifiedLifecycleEvent
      → List VerifiedLifecycleEvent
      → Result LifecycleError Bool
  candidate_is_authenticated item first rest =
      answer (applied_keys first rest >>= check_signers item item.event)
