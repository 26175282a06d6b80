-- ===== src/Lifecycle/Verify.antt =====
-- The loop of verify_lifecycle (dnsid/c2sp_tlog/stream_verifier.py), after its start: events that
-- continue a lifecycle.
use dnsid_py.Base.{
  String, Bool, false, not, ◌||◌, Option, none, some, List, [], ◌∷◌, str_eq, if◌then◌else◌,
}
use dnsid_py.Base.Result.{Result, ok, err, ◌>>=◌, ◌>>◌, raise_if, some_or}
use dnsid_py.Keys.{Jwk}
use dnsid_py.Events.{KeyRotationEvent, LogEvent, issuance, key_rotation, revocation, migration}
use dnsid_py.DomainLog.{known_reason}
use dnsid_py.Lifecycle.Genesis.{take_issuance, take_migration}
use dnsid_py.Lifecycle.{
  VerifiedLifecycleEvent, LifecycleState, LifecycleError, Options, Decoders, Walk, start, signed_of,
  is_first, ends_lifecycle, thumb, check_signature, next_state, check_position, no_event,
  unchained_mode, missing_keys, wrong_previous_key, metadata_mismatch, unchanged_key, equal_keys,
  missing_possession, same_log, wrong_kid, unknown_reason, attribute_error,
}

module _ (d : Decoders) where
  -- `_assert_rotation_key_metadata`, and the new key with its thumbprint.
  unfoldable pub rotation_key : KeyRotationEvent → Result LifecycleError (Jwk × String)
  rotation_key e = do
    key ← some_or e.new_public_key missing_keys
    raise_if (str_eq e.new_thumbprint "") missing_keys
    t ← thumb d key
    raise_if (not (str_eq e.new_thumbprint t)) metadata_mismatch
    raise_if (not (str_eq e.new_kid key.kid)) metadata_mismatch
    ok (key, t)

  -- The branch of a KEY_ROTATION: the new operational key.
  unfoldable pub take_rotation :
      VerifiedLifecycleEvent → KeyRotationEvent → Jwk → Jwk → Result LifecycleError Jwk
  take_rotation item e entity operational = do
    old ← thumb d operational
    raise_if (not (str_eq e.previous_thumbprint old) || not (str_eq e.previous_kid operational.kid))
        wrong_previous_key
    new ← rotation_key e
    raise_if (str_eq new.1 old) unchanged_key
    entity_thumb ← thumb d entity
    raise_if (str_eq new.1 entity_thumb) equal_keys
    check_signature d item e.signed.sig operational
    raise_if (str_eq e.new_operational_proof "") missing_possession
    check_signature d item e.new_operational_proof new.0
    ok new.0

  abbrev bad_handoff : LogEvent → Bool
  bad_handoff (migration e) = str_eq e.previous_log "" || str_eq e.previous_log e.new_log
  bad_handoff _ = false

  abbrev bad_reason : LogEvent → Bool
  bad_reason (revocation e) = not (known_reason e.reason)
  bad_reason _ = false

  -- The branch of the events that the entity key signs.
  unfoldable pub take_entity_event : VerifiedLifecycleEvent → Jwk → Result LifecycleError (Unit {0})
  take_entity_event item entity = do
    raise_if (bad_handoff item.event) same_log
    signed ← some_or (signed_of item.event) attribute_error
    raise_if (not (str_eq signed.signing_kid entity.kid)) wrong_kid
    check_signature d item signed.sig entity
    raise_if (bad_reason item.event) unknown_reason

  -- The keys after an event that is not a genesis; `event` is the item's.
  unfoldable pub take_other :
      VerifiedLifecycleEvent → LogEvent → Jwk → Jwk → Result LifecycleError (Jwk × Jwk)
  take_other item event entity operational = elim event [
    | key_rotation e ↦ take_rotation item e entity operational >>= λ new. ok (entity, new)
    | _ ↦ take_entity_event item entity >> ok (entity, operational)
  ]

  abbrev pub continue_walk :
      Option (Jwk × Jwk)
      → VerifiedLifecycleEvent
      → Option LifecycleState
      → Result LifecycleError ((Jwk × Jwk) × Option LifecycleState)
  continue_walk none item prev_state = err missing_keys
  continue_walk (some (entity, operational)) item prev_state = do
    keys ← take_other item item.event entity operational
    s ← next_state d prev_state item.event keys.0 keys.1
    ok (keys, s)

  abbrev some_state :
      Result LifecycleError ((Jwk × Jwk) × LifecycleState)
      → Result LifecycleError ((Jwk × Jwk) × Option LifecycleState)
  some_state r = r >>= λ p. ok (p.0, some p.1)

  -- The chain of tests on the class of the event.
  unfoldable pub take_event :
      Options
      → Walk
      → VerifiedLifecycleEvent
      → LogEvent
      → Result LifecycleError ((Jwk × Jwk) × Option LifecycleState)
  take_event opts w item event = elim event [
    | issuance e ↦ some_state (take_issuance d opts item e)
    | migration e ↦
        if is_first w.previous
        then some_state (take_migration d opts item e)
        else continue_walk w.keys item w.prev_state
    | _ ↦ continue_walk w.keys item w.prev_state
  ]

  -- One round of the loop.
  unfoldable pub verify_event : Options → Walk → VerifiedLifecycleEvent → Result LifecycleError Walk
  verify_event opts w item = do
    check_position d opts w item
    p ← take_event opts w item item.event
    ok (record {
      previous = some item;
      terminal = ends_lifecycle item.event;
      prev_state = p.1;
      keys = some p.0;
    })

  unfoldable pub verify_events :
      Options → Walk → List VerifiedLifecycleEvent → Result LifecycleError Walk
  verify_events opts w [] = ok w
  verify_events opts w (item ∷ rest) =
      verify_event opts w item >>= λ next. verify_events opts next rest

  unfoldable pub verify_lifecycle :
      Options → List VerifiedLifecycleEvent → Result LifecycleError (Unit {0})
  verify_lifecycle opts [] = err no_event
  verify_lifecycle opts (item ∷ rest) = do
    raise_if opts.unchained unchained_mode
    w ← verify_events opts start (item ∷ rest)
    ok tt
