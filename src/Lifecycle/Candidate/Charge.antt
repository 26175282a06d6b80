-- ===== src/Lifecycle/Candidate/Charge.antt =====
-- Which keys are in charge after a list of events (`_applied_keys` of
-- dnsid/c2sp_tlog/stream_verifier.py), said without its loop.
use dnsid_py.Base.{
  ◌≡◌, refl, ap, sym, ◌∙◌, none, some, List, [], ◌∷◌, ◌++◌, All, ◌⊎◌, inl, inr, arith, Option-cases,
}
use mathlib.Core.Path.{subst}
use dnsid_py.Base.Result.{Result, ok, Result-cases}
use dnsid_py.Keys.{Jwk}
use dnsid_py.Events.{
  MigrationEvent, KeyRotationEvent, LogEvent, issuance, key_rotation, revocation, retirement,
  migration, delegation, foreign,
}
use dnsid_py.Lifecycle.{VerifiedLifecycleEvent, LifecycleError, Options, Decoders}
use dnsid_py.Lifecycle.Candidate.{rotated_key, last_rotation, last_keys, genesis_keys, applied_keys}

abbrev pub IsNoRotation : LogEvent → Type 0
IsNoRotation (key_rotation e) = ⊥
IsNoRotation _ = Unit {0}

-- The operational key after some events: that of the last rotation among them, or the first one.
abbrev pub IsLastKey : Jwk → List VerifiedLifecycleEvent → Jwk → Type 0
IsLastKey initial items key =
    (All (λ v. IsNoRotation v.event) items × (key ≡ initial))
    ⊎ ((before : List VerifiedLifecycleEvent) × (item : VerifiedLifecycleEvent) × (after : List
          VerifiedLifecycleEvent)
        × (e : KeyRotationEvent) × (items ≡ before ++ (item ∷ after))
        × (item.event ≡ key_rotation e)
        × (e.new_public_key ≡ some key)
        × All (λ v. IsNoRotation v.event) after)

-- The last of some events.
abbrev pub IsLast : List VerifiedLifecycleEvent → VerifiedLifecycleEvent → Type 0
IsLast items v = (front : List VerifiedLifecycleEvent) × (items ≡ front ++ (v ∷ []))

rotated_key-cases :
    (operational new : Jwk) (event : LogEvent)
    → rotated_key operational event ≡ ok new
    → ((e : KeyRotationEvent) × (event ≡ key_rotation e) × (e.new_public_key ≡ some new))
      ⊎ (IsNoRotation event × (new ≡ operational))
rotated_key-cases operational new (key_rotation e) h = elim (Option-cases e.new_public_key) [
  | inl q ↦ absurd (ground arith)
  | inr (k, q) ↦ inl (e, refl, ground arith)
]
rotated_key-cases operational new (issuance e) h = inr (tt, cc)
rotated_key-cases operational new (revocation e) h = inr (tt, cc)
rotated_key-cases operational new (retirement e) h = inr (tt, cc)
rotated_key-cases operational new (migration e) h = inr (tt, cc)
rotated_key-cases operational new (delegation e) h = inr (tt, cc)
rotated_key-cases operational new (foreign d t) h = inr (tt, cc)

last_rotation-IsLastKey :
    (operational key : Jwk) (items : List VerifiedLifecycleEvent)
    → last_rotation operational items ≡ ok key
    → IsLastKey operational items key
unfolding last_rotation
last_rotation-IsLastKey operational key [] h = inl (tt, cc)
last_rotation-IsLastKey operational key (item ∷ items) h =
    elim (Result-cases (rotated_key operational item.event)) [
      | inr (x, q) ↦ absurd (ground arith)
      | inl (new, q) ↦
          join new (rotated_key-cases operational new item.event q)
            (last_rotation-IsLastKey new key items (ground arith))
    ]
  where
    join :
        (new : Jwk)
        → ((e : KeyRotationEvent) × (item.event ≡ key_rotation e) × (e.new_public_key ≡ some new))
          ⊎ (IsNoRotation item.event × (new ≡ operational))
        → IsLastKey new items key
        → IsLastKey operational (item ∷ items) key
    join new here (inr (before, v, after, e, split, is, given, rest)) =
        inr (item ∷ before, v, after, e, ap (λ l. item ∷ l) split, is, given, rest)
    join new (inl (e, is, given)) (inl (rest, same)) =
        inr ([], item, items, e, refl, is, given ∙ ap some (sym same), rest)
    join new (inr (still, kept)) (inl (rest, same)) = inl ((still, rest), same ∙ kept)

pub last_keys-IsLast :
    (first : VerifiedLifecycleEvent) (rest : List VerifiedLifecycleEvent)
    → (v : VerifiedLifecycleEvent) × IsLast (first ∷ rest) v × (last_keys first rest ≡ v.post_keys)
last_keys-IsLast first [] = (first, ([], refl), refl)
last_keys-IsLast first (next_item ∷ rest) =
    let (v, (front, split), same) = last_keys-IsLast next_item rest in
    (v, (first ∷ front, ap (λ l. first ∷ l) split), same)

module _ (d : Decoders) (opts : Options) where
  -- The keys with which a lifecycle begins: those of its ISSUANCE, or those that the verification
  -- of the previous log hands over.
  abbrev pub Begins : LogEvent → Jwk → Jwk → Type 0
  Begins (issuance e) entity operational =
      (e.entity_key ≡ some entity) × (e.operational_key ≡ some operational)
  Begins (migration e) entity operational =
      (verify_migration : MigrationEvent → Result LifecycleError (Jwk × Jwk))
      × (opts.verify_migration ≡ some verify_migration)
      × (verify_migration e ≡ ok (entity, operational))
  Begins _ entity operational = ⊥

  -- The entity key and the operational key in charge after `first ∷ rest`: those recorded for the
  -- last event; or if there are none, the entity key of the beginning, and the key of the last
  -- rotation or the operational key of the beginning.
  abbrev pub InCharge : VerifiedLifecycleEvent → List VerifiedLifecycleEvent → Jwk × Jwk → Type 0
  InCharge first rest keys =
      (v : VerifiedLifecycleEvent) × IsLast (first ∷ rest) v
      × ((v.post_keys ≡ some keys)
          ⊎ ((operational : Jwk) × (v.post_keys ≡ none)
              × Begins first.event keys.0 operational
              × IsLastKey operational rest keys.1))

  genesis_keys-Begins :
      (event : LogEvent) (entity operational : Jwk)
      → genesis_keys d opts event ≡ ok (entity, operational)
      → Begins event entity operational
  genesis_keys-Begins (issuance e) entity operational h = elim (Option-cases e.entity_key) [
    | inl q ↦ absurd (ground arith)
    | inr (a, q) ↦ elim (Option-cases e.operational_key) [
      | inl r ↦ absurd (ground arith)
      | inr (b, r) ↦ (ground arith, ground arith)
    ]
  ]
  genesis_keys-Begins (migration e) entity operational h =
      elim (Option-cases opts.verify_migration) [
        | inl q ↦ absurd (ground arith)
        | inr (verify_migration, q) ↦ (verify_migration, q, ground arith)
      ]
  genesis_keys-Begins (key_rotation e) entity operational h = cc
  genesis_keys-Begins (revocation e) entity operational h = cc
  genesis_keys-Begins (retirement e) entity operational h = cc
  genesis_keys-Begins (delegation e) entity operational h = cc
  genesis_keys-Begins (foreign f t) entity operational h = cc

  pub applied_keys-InCharge :
      (first : VerifiedLifecycleEvent) (rest : List VerifiedLifecycleEvent) (keys : Jwk × Jwk)
      → applied_keys d opts first rest ≡ ok keys
      → InCharge first rest keys
  unfolding applied_keys
  applied_keys-InCharge first rest keys h =
      let (v, last, same) = last_keys-IsLast first rest in
      elim (Option-cases (last_keys first rest)) [
        | inr (found, q) ↦ (v, last, inl (sym same ∙ (q ∙ ground arith)))
        | inl q ↦ elim (Result-cases (genesis_keys d opts first.event)) [
          | inr (x, r) ↦ absurd (ground arith)
          | inl ((entity, operational), r) ↦ elim (Result-cases (last_rotation operational rest)) [
            | inr (x, s) ↦ absurd (ground arith)
            | inl (key, s) ↦
                let is : keys ≡ (entity, key) = ground arith in
                (
                  v,
                  last,
                  inr (
                    operational,
                    sym same ∙ q,
                    subst (λ (k : Jwk × Jwk). Begins first.event k.0 operational) (sym is)
                        (genesis_keys-Begins first.event entity operational r),
                    subst (λ (k : Jwk × Jwk). IsLastKey operational rest k.1) (sym is)
                        (last_rotation-IsLastKey operational key rest s),
                  ),
                )
          ]
        ]
      ]
