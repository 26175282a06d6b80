-- ===== src/Lifecycle/Events.antt =====
-- The keys after an event that continues a lifecycle (dnsid/c2sp_tlog/stream_verifier.py).
use dnsid_py.Base.{
  ◌≡◌, refl, sym, ap, ◌∙◌, String, false, some, eq_iff, Option-cases, inl, inr, arith,
}
use dnsid_py.Base.Result.{◌>>◌, ok, Result-cases}
use dnsid_py.Keys.{Jwk, thumbprint}
use dnsid_py.Events.{
  Signed, KeyRotationEvent, LogEvent, issuance, key_rotation, revocation, retirement, migration,
  delegation, foreign,
}
use dnsid_py.Lifecycle.{
  VerifiedLifecycleEvent, Options, Decoders, signed_of, is_issuance, is_migration,
}
use dnsid_py.Lifecycle.Verify.{rotation_key, take_rotation, take_entity_event, take_other}
use dnsid_py.Lifecycle.Spec.{Signs, Authorized, signs_lem}

module _ (d : Decoders) (opts : Options) where
  pub rotation_key_lem :
      (e : KeyRotationEvent) (new : Jwk) (t : String)
      → rotation_key d e ≡ ok (new, t)
      → e.new_public_key ≡ some new
  unfolding rotation_key
  rotation_key_lem e new t h = elim (Option-cases e.new_public_key) [
    | inl q ↦ absurd (ground arith)
    | inr (key, q) ↦ elim (Option-cases (thumbprint d.digest key)) [
      | inl r ↦ absurd (ground arith)
      | inr (s, r) ↦ ground arith
    ]
  ]

  pub rotation_lem :
      (item : VerifiedLifecycleEvent) (e : KeyRotationEvent) (entity operational new : Jwk)
      → take_rotation d item e entity operational ≡ ok new
      → Authorized d opts item (key_rotation e) entity operational new
  unfolding take_rotation
  rotation_lem item e entity operational new h =
      elim (Option-cases (thumbprint d.digest operational)) [
        | inl q ↦ absurd (ground arith)
        | inr (old, q) ↦ elim (Result-cases (rotation_key d e)) [
          | inr (x, r) ↦ absurd (ground arith)
          | inl ((key, t), r) ↦ elim (Option-cases (thumbprint d.digest entity)) [
            | inl s ↦ absurd (ground arith)
            | inr (et, s) ↦
                let same : key ≡ new = ground arith in
                (
                  rotation_key_lem e new t (r ∙ ap (λ k. ok (k, t)) same),
                  ground (arith, eq_iff e.previous_kid operational.kid),
                  signs_lem d opts item e.signed.sig operational (ground arith),
                  signs_lem d opts item e.new_operational_proof new (ground arith),
                )
          ]
        ]
      ]

  pub entity_event_lem :
      (item : VerifiedLifecycleEvent) (entity : Jwk) (signed : Signed)
      → signed_of item.event ≡ some signed
      → take_entity_event d item entity ≡ ok tt
      → (signed.signing_kid ≡ entity.kid) × Signs d opts item signed.sig entity
  unfolding take_entity_event
  entity_event_lem item entity signed s h = (
    ground (arith, eq_iff signed.signing_kid entity.kid),
    signs_lem d opts item signed.sig entity (ground arith),
  )

  pub entity_lem :
      (item : VerifiedLifecycleEvent) (entity operational : Jwk) (keys : Jwk × Jwk)
      (signed : Signed)
      → signed_of item.event ≡ some signed
      → (take_entity_event d item entity >> ok (entity, operational)) ≡ ok keys
      → (keys.0 ≡ entity)
        × ((keys.1 ≡ operational)
            × (signed.signing_kid ≡ entity.kid)
            × Signs d opts item signed.sig entity)
  entity_lem item entity operational keys signed s h =
      elim (Result-cases (take_entity_event d item entity)) [
        | inr (x, r) ↦ absurd (ground arith)
        | inl (u, r) ↦
            let same : (entity, operational) ≡ keys = ground arith in
            let (kid, payload) = entity_event_lem item entity signed s r in
            (ap (λ k. k.0) (sym same), (ap (λ k. k.1) (sym same), kid, payload))
      ]

  pub other_lem :
      (item : VerifiedLifecycleEvent) (ev : LogEvent) (entity operational : Jwk) (keys : Jwk × Jwk)
      → item.event ≡ ev
      → is_issuance ev ≡ false
      → is_migration ev ≡ false
      → take_other d item ev entity operational ≡ ok keys
      → (keys.0 ≡ entity) × Authorized d opts item ev entity operational keys.1
  unfolding take_other signed_of take_entity_event
  other_lem item (issuance e) entity operational keys q i m h = cc
  other_lem item (migration e) entity operational keys q i m h = cc
  other_lem item (foreign f t) entity operational keys q i m h =
      absurd (ground (arith, ap signed_of q))
  other_lem item (key_rotation e) entity operational keys q i m h =
      elim (Result-cases (take_rotation d item e entity operational)) [
        | inr (x, r) ↦ absurd (ground arith)
        | inl (new, r) ↦
            let same : (entity, new) ≡ keys = ground arith in
            rw (← same) (refl, rotation_lem item e entity operational new r)
      ]
  other_lem item (revocation e) entity operational keys q i m h =
      entity_lem item entity operational keys e.signed (ap signed_of q) h
  other_lem item (retirement e) entity operational keys q i m h =
      entity_lem item entity operational keys e.signed (ap signed_of q) h
  other_lem item (delegation e) entity operational keys q i m h =
      entity_lem item entity operational keys e.signed (ap signed_of q) h
