-- ===== src/Lifecycle/Spec.antt =====
-- What it is for a list of logged events to be a lifecycle: every event is linked to the one
-- before it, and signed by the keys that were in charge then.
use dnsid_py.Base.{
  ℕ, ◌+◌, ◌≤◌, ◌≡◌, String, true, false, Option, none, some, List, [], ◌∷◌, Bytes, str_eq,
  Option-cases, inl, inr, arith,
}
use dnsid_py.Base.Result.{Result, ok}
use dnsid_py.Keys.{Jwk, thumbprint}
use dnsid_py.Events.{
  MigrationEvent, LogEvent, issuance, key_rotation, revocation, retirement, migration, delegation,
  timestamp_of,
}
use dnsid_py.Lifecycle.{
  VerifiedLifecycleEvent, LifecycleError, Options, Decoders, ends_lifecycle, signature_ok,
}

module _ (d : Decoders) (opts : Options) where
  -- The entry of the item carries a signature that verifies under the key.
  abbrev pub Signs : VerifiedLifecycleEvent → String → Jwk → Type 0
  Signs item signature key =
      (payload : Bytes) × (sig : Bytes) × (d.signed_bytes item.data_bytes ≡ some payload)
      × (d.decode signature ≡ some sig)
      × (d.verify key payload sig ≡ true)

  -- The event continues an identity of these keys, and leaves the operational key `new`.
  abbrev pub Authorized : VerifiedLifecycleEvent → LogEvent → Jwk → Jwk → Jwk → Type 0
  Authorized item (key_rotation e) entity operational new =
      (e.new_public_key ≡ some new)
      × (e.previous_kid ≡ operational.kid)
      × Signs item e.signed.sig operational
      × Signs item e.new_operational_proof new
  Authorized item (revocation e) entity operational new =
      (new ≡ operational) × (e.signed.signing_kid ≡ entity.kid) × Signs item e.signed.sig entity
  Authorized item (retirement e) entity operational new =
      (new ≡ operational) × (e.signed.signing_kid ≡ entity.kid) × Signs item e.signed.sig entity
  Authorized item (delegation e) entity operational new =
      (new ≡ operational) × (e.signed.signing_kid ≡ entity.kid) × Signs item e.signed.sig entity
  Authorized item _ entity operational new = ⊥

  -- Two keys with different thumbprints.
  abbrev pub AreDistinct : Jwk → Jwk → Type 0
  AreDistinct a b =
      (s : String) × (t : String) × (thumbprint d.digest a ≡ some s)
      × (thumbprint d.digest b ≡ some t)
      × (str_eq s t ≡ false)

  -- The event founds an identity of these keys.
  abbrev pub Founds : VerifiedLifecycleEvent → LogEvent → Jwk → Jwk → Type 0
  Founds item (issuance e) entity operational =
      (e.entity_key ≡ some entity)
      × (e.operational_key ≡ some operational)
      × AreDistinct entity operational
      × Signs item e.signed.sig entity
      × Signs item e.signed.operational_countersig operational
  Founds item (migration e) entity operational =
      (f : MigrationEvent → Result LifecycleError (Jwk × Jwk)) × (opts.verify_migration ≡ some f)
      × (f e ≡ ok (entity, operational))
      × AreDistinct entity operational
      × Signs item e.signed.sig entity
  Founds item _ entity operational = ⊥

  abbrev pub IsTimely : VerifiedLifecycleEvent → Type 0
  IsTimely item =
      (limit : ℕ) × (t : ℕ) × (opts.checkpoint_integration_time_ms ≡ some limit)
      × (timestamp_of item.event ≡ some t)
      × (d.millis t ≤ limit)

  -- The sequence number and the hash of the event before.
  abbrev pub IsLinked : VerifiedLifecycleEvent → VerifiedLifecycleEvent → Type 0
  IsLinked prev item =
      (n : ℕ) × (id : String) × (prev.chain.seq ≡ some n)
      × (item.chain.seq ≡ some (n + 1))
      × (d.event_id prev.data_bytes ≡ some id)
      × (item.chain.prev_event_id ≡ some id)

  abbrev pub Continues : VerifiedLifecycleEvent → Jwk → Jwk → List VerifiedLifecycleEvent → Type 0
  Continues prev entity operational [] = Unit
  Continues prev entity operational (item ∷ rest) =
      (ends_lifecycle prev.event ≡ false)
      × IsTimely item
      × IsLinked prev item
      × ((new : Jwk) × Authorized item item.event entity operational new
          × Continues item entity new rest)

  -- The trusted entity key, if there is one, has the thumbprint of the key.
  abbrev pub IsTrusted : Option Jwk → Jwk → Type 0
  IsTrusted none entity = Unit
  IsTrusted (some trusted) entity =
      (t : String) × (thumbprint d.digest trusted ≡ some t) × (thumbprint d.digest entity ≡ some t)

  pub signs_lem :
      (item : VerifiedLifecycleEvent) (signature : String) (key : Jwk)
      → signature_ok d item signature key ≡ true
      → Signs item signature key
  unfolding signature_ok
  signs_lem item signature key h = elim (Option-cases (d.signed_bytes item.data_bytes)) [
    | inl e ↦ absurd (ground arith)
    | inr (payload, e) ↦ elim (Option-cases (d.decode signature)) [
      | inl f ↦ absurd (ground arith)
      | inr (sig, f) ↦ (payload, sig, e, f, ground arith)
    ]
  ]
