-- ===== src/Lifecycle/Position.antt =====
-- The place of an event in its lifecycle: number, predecessor and time
-- (dnsid/c2sp_tlog/stream_verifier.py).
use dnsid_py.Base.{◌+◌, ◌≡◌, ap, ◌∙◌, false, Option, some, eq_iff, Option-cases, inl, inr, arith}
use dnsid_py.Base.Result.{ok, Result-cases}
use dnsid_py.Keys.{Jwk}
use dnsid_py.Events.{timestamp_of}
use dnsid_py.Lifecycle.{
  VerifiedLifecycleEvent, LifecycleState, Options, Decoders, Walk, start, is_issuance, is_migration,
  ends_lifecycle, check_position, assert_chain_fields, assert_first_chain_fields,
}
use dnsid_py.Lifecycle.Spec.{IsTimely, IsLinked}

module _ (d : Decoders) (opts : Options) where
  pub linked_lem :
      (item prev : VerifiedLifecycleEvent) (s : Option LifecycleState)
      → assert_chain_fields d item prev s ≡ ok tt
      → IsLinked d opts prev item
  unfolding assert_chain_fields
  linked_lem item prev s h = elim (Option-cases prev.chain.seq) [
    | inl q ↦ absurd (ground arith)
    | inr (n, q) ↦ elim (Option-cases (d.event_id prev.data_bytes)) [
      | inl r ↦ absurd (ground arith)
      | inr (id, r) ↦ elim (Option-cases item.chain.seq) [
        | inl u ↦ absurd (ground arith)
        | inr (k, u) ↦ elim (Option-cases item.chain.prev_event_id) [
          | inl v ↦ absurd (ground arith)
          | inr (t, v) ↦
              let next_number : k ≡ n + 1 = ground arith in
              let same_id : t ≡ id = ground (arith, eq_iff t id) in
              (n, id, q, u ∙ ap some next_number, r, v ∙ ap some same_id)
        ]
      ]
    ]
  ]

  pub position_lem :
      (w : Walk) (item : VerifiedLifecycleEvent)
      → check_position d opts w item ≡ ok tt
      → (w.terminal ≡ false) × IsTimely d opts item
  unfolding check_position
  position_lem w item h = elim (Option-cases opts.checkpoint_integration_time_ms) [
    | inl q ↦ absurd (ground arith)
    | inr (limit, q) ↦ elim (Option-cases (timestamp_of item.event)) [
      | inl r ↦ absurd (ground arith)
      | inr (t, r) ↦ (ground arith, (limit, t, q, r, ground arith))
    ]
  ]

  -- The state of the loop after `prev`.
  abbrev pub after : VerifiedLifecycleEvent → Option LifecycleState → Jwk → Jwk → Walk
  after prev s entity operational = record {
    previous = some prev;
    terminal = ends_lifecycle prev.event;
    prev_state = s;
    keys = some (entity, operational);
  }

  pub later_position_lem :
      (prev : VerifiedLifecycleEvent) (s : Option LifecycleState) (entity operational : Jwk)
      (item : VerifiedLifecycleEvent)
      → check_position d opts (after prev s entity operational) item ≡ ok tt
      → (is_issuance item.event ≡ false)
        × (is_migration item.event ≡ false)
        × IsLinked d opts prev item
  unfolding check_position
  later_position_lem prev s entity operational item h =
      elim (Option-cases opts.checkpoint_integration_time_ms) [
        | inl q ↦ absurd (ground arith)
        | inr (limit, q) ↦ elim (Option-cases (timestamp_of item.event)) [
          | inl r ↦ absurd (ground arith)
          | inr (t, r) ↦ elim (Result-cases (assert_chain_fields d item prev s)) [
            | inr (x, u) ↦ absurd (ground arith)
            | inl (tt, u) ↦ (ground arith, ground arith, linked_lem item prev s u)
          ]
        ]
      ]

  pub first_seq_lem :
      (item : VerifiedLifecycleEvent)
      → check_position d opts start item ≡ ok tt
      → item.chain.seq ≡ some 0
  unfolding check_position assert_first_chain_fields
  first_seq_lem item h = elim (Option-cases opts.checkpoint_integration_time_ms) [
    | inl q ↦ absurd (ground arith)
    | inr (limit, q) ↦ elim (Option-cases (timestamp_of item.event)) [
      | inl r ↦ absurd (ground arith)
      | inr (t, r) ↦ elim (Option-cases item.chain.seq) [
        | inl u ↦ absurd (ground arith)
        | inr (k, u) ↦ let same : k ≡ 0 = ground arith in u ∙ ap some same
      ]
    ]
  ]
