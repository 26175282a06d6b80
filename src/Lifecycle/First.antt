-- ===== src/Lifecycle/First.antt =====
-- The founding of an identity (dnsid/c2sp_tlog/stream_verifier.py).
use dnsid_py.Base.{
  ◌≡◌, ap, ◌∙◌, false, Option, none, some, str_eq, eq_iff, Option-cases, inl, inr, arith,
}
use dnsid_py.Base.Result.{ok, Result-cases}
use dnsid_py.Keys.{Jwk, thumbprint}
use dnsid_py.Events.{
  IssuanceEvent, MigrationEvent, LogEvent, issuance, key_rotation, revocation, retirement,
  migration, delegation, foreign,
}
use dnsid_py.Lifecycle.{
  VerifiedLifecycleEvent, LifecycleState, Options, Decoders, start, active_state,
}
use dnsid_py.Lifecycle.Genesis.{issuance_keys, check_trusted, take_issuance, take_migration}
use dnsid_py.Lifecycle.Verify.{take_event}
use dnsid_py.Lifecycle.Spec.{AreDistinct, Founds, IsTrusted, signs_lem}

module _ (d : Decoders) (opts : Options) where
  pub trusted_lem :
      (o : Option Jwk) (entity : Jwk) → check_trusted d o entity ≡ ok tt → IsTrusted d opts o entity
  trusted_lem none entity h = tt
  trusted_lem (some k) entity h = elim (Option-cases (thumbprint d.digest k)) [
    | inl q ↦ absurd (ground arith)
    | inr (a, q) ↦ elim (Option-cases (thumbprint d.digest entity)) [
      | inl r ↦ absurd (ground arith)
      | inr (b, r) ↦ let same : b ≡ a = ground (arith, eq_iff a b) in (a, q, r ∙ ap some same)
    ]
  ]

  pub issuance_keys_lem :
      (e : IssuanceEvent) (keys : Jwk × Jwk)
      → issuance_keys d e ≡ ok keys
      → (e.entity_key ≡ some keys.0)
        × (e.operational_key ≡ some keys.1)
        × AreDistinct d opts keys.0 keys.1
  unfolding issuance_keys
  issuance_keys_lem e keys h = elim (Option-cases e.entity_key) [
    | inl q ↦ absurd (ground arith)
    | inr (entity, q) ↦ elim (Option-cases e.operational_key) [
      | inl r ↦ absurd (ground arith)
      | inr (operational, r) ↦ elim (Option-cases (thumbprint d.digest entity)) [
        | inl u ↦ absurd (ground arith)
        | inr (a, u) ↦ elim (Option-cases (thumbprint d.digest operational)) [
          | inl v ↦ absurd (ground arith)
          | inr (b, v) ↦
              let same : (entity, operational) ≡ keys = ground arith in
              let apart : str_eq a b ≡ false = ground arith in
              rw (← same) (q, r, (a, b, u, v, apart))
        ]
      ]
    ]
  ]

  pub issuance_lem :
      (item : VerifiedLifecycleEvent) (e : IssuanceEvent) (r : (Jwk × Jwk) × LifecycleState)
      → take_issuance d opts item e ≡ ok r
      → Founds d opts item (issuance e) (r.0).0 (r.0).1 × IsTrusted d opts opts.signer_key (r.0).0
  unfolding take_issuance
  issuance_lem item e r h = elim (Result-cases (issuance_keys d e)) [
    | inr (x, q) ↦ absurd (ground arith)
    | inl (keys, q) ↦ elim (Result-cases (check_trusted d opts.signer_key keys.0)) [
      | inr (x, u) ↦ absurd (ground arith)
      | inl (tt, u) ↦ elim (Result-cases (active_state d e.domain keys.0 keys.1)) [
        | inr (x, v) ↦ absurd (ground arith)
        | inl (s, v) ↦
            let same : (keys, s) ≡ r = ground arith in
            let (a, b, c) = issuance_keys_lem e keys q in
            rw (← same) (
              (
                a,
                b,
                c,
                signs_lem d opts item e.signed.sig keys.0 (ground arith),
                signs_lem d opts item e.signed.operational_countersig keys.1 (ground arith),
              ),
              trusted_lem opts.signer_key keys.0 u,
            )
      ]
    ]
  ]

  pub migration_lem :
      (item : VerifiedLifecycleEvent) (e : MigrationEvent) (r : (Jwk × Jwk) × LifecycleState)
      → take_migration d opts item e ≡ ok r
      → Founds d opts item (migration e) (r.0).0 (r.0).1 × IsTrusted d opts opts.signer_key (r.0).0
  unfolding take_migration
  migration_lem item e r h = elim (Option-cases opts.verify_migration) [
    | inl q ↦ absurd (ground arith)
    | inr (f, q) ↦ elim (Result-cases (f e)) [
      | inr (x, u) ↦ absurd (ground arith)
      | inl (keys, u) ↦ elim (Option-cases (thumbprint d.digest keys.0)) [
        | inl v ↦ absurd (ground arith)
        | inr (a, v) ↦ elim (Option-cases (thumbprint d.digest keys.1)) [
          | inl y ↦ absurd (ground arith)
          | inr (b, y) ↦ elim (Result-cases (check_trusted d opts.signer_key keys.0)) [
            | inr (x, z) ↦ absurd (ground arith)
            | inl (tt, z) ↦ elim (Result-cases (active_state d e.domain keys.0 keys.1)) [
              | inr (x, k) ↦ absurd (ground arith)
              | inl (s, k) ↦
                  let same : (keys, s) ≡ r = ground arith in
                  let apart : str_eq a b ≡ false = ground arith in
                  let signed = signs_lem d opts item e.signed.sig keys.0 (ground arith) in
                  rw (← same)
                    ((f, q, u, (a, b, v, y, apart), signed), trusted_lem opts.signer_key keys.0 z)
            ]
          ]
        ]
      ]
    ]
  ]

  pub genesis_lem :
      (item : VerifiedLifecycleEvent) (ev : LogEvent) (r : (Jwk × Jwk) × Option LifecycleState)
      → take_event d opts start item ev ≡ ok r
      → Founds d opts item ev (r.0).0 (r.0).1 × IsTrusted d opts opts.signer_key (r.0).0
  unfolding take_event
  genesis_lem item (issuance e) r h = elim (Result-cases (take_issuance d opts item e)) [
    | inr (x, q) ↦ absurd (ground arith)
    | inl (p, q) ↦
        let same : (p.0, some p.1) ≡ r = ground arith in rw (← same) (issuance_lem item e p q)
  ]
  genesis_lem item (migration e) r h = elim (Result-cases (take_migration d opts item e)) [
    | inr (x, q) ↦ absurd (ground arith)
    | inl (p, q) ↦
        let same : (p.0, some p.1) ≡ r = ground arith in rw (← same) (migration_lem item e p q)
  ]
  genesis_lem item (key_rotation e) r h = cc
  genesis_lem item (revocation e) r h = cc
  genesis_lem item (retirement e) r h = cc
  genesis_lem item (delegation e) r h = cc
  genesis_lem item (foreign f t) r h = cc
