-- ===== src/Lifecycle/Candidate/Authentic.antt =====
-- What an authenticated candidate is (dnsid/c2sp_tlog/stream_verifier.py).
use dnsid_py.Base.{◌≡◌, refl, true, Option, none, some, List, eq_iff, Option-cases, inl, inr, arith}
use dnsid_py.Base.Result.{ok, Result-cases}
use dnsid_py.Keys.{Jwk, thumbprint}
use dnsid_py.Events.{
  Signed, LogEvent, issuance, key_rotation, revocation, retirement, migration, delegation, foreign,
}
use dnsid_py.Lifecycle.{VerifiedLifecycleEvent, Options, Decoders, signed_of}
use dnsid_py.Lifecycle.Spec.{Signs, signs_lem}
use dnsid_py.Lifecycle.Candidate.Charge.{InCharge, applied_keys-InCharge}
use dnsid_py.Lifecycle.Candidate.{
  applied_keys, check_signers, check_entity_signature, candidate_is_authenticated,
}

module _ (d : Decoders) (opts : Options) where
  abbrev pub EntitySigned : VerifiedLifecycleEvent → Option Signed → Jwk → Type 0
  EntitySigned item signed entity =
      (s : Signed) × (signed ≡ some s)
      × (s.signing_kid ≡ entity.kid)
      × Signs d opts item s.sig entity

  -- Each signer of the event has signed the entry, under the keys in charge.
  abbrev pub SignedByAll : VerifiedLifecycleEvent → LogEvent → Jwk × Jwk → Type 0
  SignedByAll item (key_rotation e) keys =
      (new : Jwk) × (e.new_public_key ≡ some new)
      × (e.previous_kid ≡ (keys.1).kid)
      × Signs d opts item e.signed.sig keys.1
      × Signs d opts item e.new_operational_proof new
  SignedByAll item (issuance e) keys =
      (operational : Jwk) × (e.operational_key ≡ some operational)
      × Signs d opts item e.signed.operational_countersig operational
      × EntitySigned item (some e.signed) keys.0
  SignedByAll item event keys = EntitySigned item (signed_of event) keys.0

  entity_lem :
      (item : VerifiedLifecycleEvent) (signed : Option Signed) (entity : Jwk)
      → check_entity_signature d opts item signed entity ≡ ok tt
      → EntitySigned item signed entity
  entity_lem item none entity h = cc
  entity_lem item (some s) entity h = (
    s,
    refl,
    ground (arith, eq_iff s.signing_kid entity.kid),
    signs_lem d opts item s.sig entity (ground arith),
  )

  pub signers_lem :
      (item : VerifiedLifecycleEvent) (event : LogEvent) (keys : Jwk × Jwk)
      → check_signers d opts item event keys ≡ ok tt
      → SignedByAll item event keys
  unfolding check_signers
  signers_lem item (issuance e) keys h = elim (Option-cases e.entity_key) [
    | inl q ↦ absurd (ground arith)
    | inr (entity, q) ↦ elim (Option-cases e.operational_key) [
      | inl r ↦ absurd (ground arith)
      | inr (operational, r) ↦ elim (Option-cases (thumbprint d.digest entity)) [
        | inl u ↦ absurd (ground arith)
        | inr (a, u) ↦ elim (Option-cases (thumbprint d.digest keys.0)) [
          | inl v ↦ absurd (ground arith)
          | inr (b, v) ↦ (
            operational,
            r,
            signs_lem d opts item e.signed.operational_countersig operational (ground arith),
            entity_lem item (some e.signed) keys.0 (ground arith),
          )
        ]
      ]
    ]
  ]
  signers_lem item (key_rotation e) keys h = elim (Option-cases e.new_public_key) [
    | inl q ↦ absurd (ground arith)
    | inr (new, q) ↦ (
      new,
      q,
      ground (arith, eq_iff e.previous_kid (keys.1).kid),
      signs_lem d opts item e.signed.sig keys.1 (ground arith),
      signs_lem d opts item e.new_operational_proof new (ground arith),
    )
  ]
  signers_lem item (revocation e) keys h = entity_lem item _ keys.0 h
  signers_lem item (retirement e) keys h = entity_lem item _ keys.0 h
  signers_lem item (migration e) keys h = entity_lem item _ keys.0 h
  signers_lem item (delegation e) keys h = entity_lem item _ keys.0 h
  signers_lem item (foreign f t) keys h = entity_lem item _ keys.0 h

  -- A candidate that is authenticated after some events carries the signatures of all its signers
  -- under the keys in charge: those recorded for the last of the events, or else the entity key with
  -- which the first one begins, and the new key of the last rotation, or the first operational key
  -- where there is no rotation. A rotation carries the signature of the operational key in charge
  -- and that of the new one, an ISSUANCE that of its own operational key and that of the entity
  -- key, any other event that of the entity key.
  pub candidate_is_authenticated-SignedByAll :
      (item first : VerifiedLifecycleEvent) (rest : List VerifiedLifecycleEvent)
      → candidate_is_authenticated d opts item first rest ≡ ok true
      → (keys : Jwk × Jwk) × InCharge d opts first rest keys × SignedByAll item item.event keys
  unfolding candidate_is_authenticated
  candidate_is_authenticated-SignedByAll item first rest h =
      elim (Result-cases (applied_keys d opts first rest)) [
        | inr (x, q) ↦ absurd (ground arith)
        | inl (keys, q) ↦ elim (Result-cases (check_signers d opts item item.event keys)) [
          | inr (x, r) ↦ absurd (ground arith)
          | inl (tt, r) ↦ (
            keys,
            applied_keys-InCharge d opts first rest keys q,
            signers_lem item item.event keys r,
          )
        ]
      ]
