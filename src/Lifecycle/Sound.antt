-- ===== src/Lifecycle/Sound.antt =====
-- What a verified lifecycle is (dnsid/c2sp_tlog/stream_verifier.py, verify_lifecycle).
use dnsid_py.Base.{◌≡◌, refl, sym, ◌∙◌, false, Option, some, List, [], ◌∷◌, inl, inr, arith}
use dnsid_py.Base.Result.{ok, Result-cases}
use dnsid_py.Keys.{Jwk}
use dnsid_py.Events.{
  LogEvent, issuance, key_rotation, revocation, retirement, migration, delegation, foreign,
}
use dnsid_py.Lifecycle.{
  VerifiedLifecycleEvent, LifecycleState, Options, Decoders, Walk, start, is_issuance, is_migration,
  next_state, check_position,
}
use dnsid_py.Lifecycle.Verify.{
  take_other, continue_walk, take_event, verify_event, verify_events, verify_lifecycle,
}
use dnsid_py.Lifecycle.Spec.{Authorized, Founds, IsTimely, Continues, IsTrusted}
use dnsid_py.Lifecycle.Events.{other_lem}
use dnsid_py.Lifecycle.Position.{position_lem, after, later_position_lem, first_seq_lem}
use dnsid_py.Lifecycle.First.{genesis_lem}

module _ (d : Decoders) (opts : Options) where
  pub continues_lem :
      (w : Walk) (item : VerifiedLifecycleEvent) (ev : LogEvent)
      → is_issuance ev ≡ false
      → is_migration ev ≡ false
      → take_event d opts w item ev ≡ continue_walk d w.keys item w.prev_state
  unfolding take_event
  continues_lem w item (issuance e) i m = cc
  continues_lem w item (migration e) i m = cc
  continues_lem w item (key_rotation e) i m = refl
  continues_lem w item (revocation e) i m = refl
  continues_lem w item (retirement e) i m = refl
  continues_lem w item (delegation e) i m = refl
  continues_lem w item (foreign f t) i m = refl

  pub later_event_lem :
      (prev : VerifiedLifecycleEvent) (s : Option LifecycleState) (entity operational : Jwk)
      (item : VerifiedLifecycleEvent) (r : (Jwk × Jwk) × Option LifecycleState)
      → is_issuance item.event ≡ false
      → is_migration item.event ≡ false
      → take_event d opts (after d opts prev s entity operational) item item.event ≡ ok r
      → ((r.0).0 ≡ entity) × Authorized d opts item item.event entity operational (r.0).1
  later_event_lem prev s entity operational item r i m h =
      let run : continue_walk d (some (entity, operational)) item s ≡ ok r =
        sym (continues_lem (after d opts prev s entity operational) item item.event i m) ∙ h in
      elim (Result-cases (take_other d item item.event entity operational)) [
        | inr (x, u) ↦ absurd (ground arith)
        | inl (keys, u) ↦
            let (same_entity, good) =
              other_lem d opts item item.event entity operational keys refl i m u in
            elim (Result-cases (next_state d s item.event keys.0 keys.1)) [
              | inr (x, v) ↦ absurd (ground arith)
              | inl (t, v) ↦
                  let same : (keys, t) ≡ r = ground arith in rw (← same) (same_entity, good)
            ]
      ]

  pub verify_events-Continues :
      (rest : List VerifiedLifecycleEvent) (prev : VerifiedLifecycleEvent)
      (s : Option LifecycleState) (entity operational : Jwk) (w : Walk)
      → verify_events d opts (after d opts prev s entity operational) rest ≡ ok w
      → Continues d opts prev entity operational rest
  unfolding verify_events verify_event
  verify_events-Continues [] prev s entity operational w h = tt
  verify_events-Continues (item ∷ rest) prev s entity operational w h =
      elim (Result-cases (check_position d opts (after d opts prev s entity operational) item)) [
        | inr (x, u) ↦ absurd (ground arith)
        | inl (tt, u) ↦
            elim (Result-cases
              (take_event d opts (after d opts prev s entity operational) item item.event)) [
                | inr (x, v) ↦ absurd (ground arith)
                | inl (((ek, ku), t), v) ↦
                    let (active, timely) =
                      position_lem d opts (after d opts prev s entity operational) item u in
                    let (i, m, linked) =
                      later_position_lem d opts prev s entity operational item u in
                    let (same, good) =
                      later_event_lem prev s entity operational item ((ek, ku), t) i m v in
                    let more = verify_events-Continues rest item t ek ku w (ground arith) in
                    (active, timely, linked, (ku, good, rw same at more))
              ]
      ]

  -- A list that `verify_lifecycle` accepts has a first event with number 0, an ISSUANCE or a
  -- MIGRATION that founds an identity: two keys with different thumbprints, of which the entity
  -- key is the trusted one if that is known, and the signatures of the event verify. Every later
  -- event has the next number and the id of the event before, follows no revocation or
  -- retirement, is not after the integration time, and is signed by the key in charge: a rotation
  -- by the operational key that it replaces and by the new one, any other by the entity key.
  pub verify_lifecycle-Continues :
      (item : VerifiedLifecycleEvent) (rest : List VerifiedLifecycleEvent)
      → verify_lifecycle d opts (item ∷ rest) ≡ ok tt
      → (entity : Jwk) × (operational : Jwk) × Founds d opts item item.event entity operational
        × IsTrusted d opts opts.signer_key entity
        × (item.chain.seq ≡ some 0)
        × IsTimely d opts item
        × Continues d opts item entity operational rest
  unfolding verify_lifecycle verify_events verify_event
  verify_lifecycle-Continues item rest h = elim (Result-cases (check_position d opts start item)) [
    | inr (x, u) ↦ absurd (ground arith)
    | inl (tt, u) ↦ elim (Result-cases (take_event d opts start item item.event)) [
      | inr (x, v) ↦ absurd (ground arith)
      | inl (((entity, operational), s), v) ↦
          elim (Result-cases (verify_events d opts (after d opts item s entity operational) rest)) [
            | inr (x, k) ↦ absurd (ground arith)
            | inl (w, k) ↦
                let (founds, trusted) = genesis_lem d opts item item.event _ v in
                (
                  entity,
                  operational,
                  founds,
                  trusted,
                  first_seq_lem d opts item u,
                  (position_lem d opts start item u).1,
                  verify_events-Continues rest item s entity operational w k,
                )
          ]
    ]
  ]
