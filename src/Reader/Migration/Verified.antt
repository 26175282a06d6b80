-- ===== src/Reader/Migration/Verified.antt =====
-- What a verified previous log shows (dnsid/c2sp_tlog/reader.py, `_verify_prior_history` with a
-- reader that is no C2spTlogReader): the
-- budget that it leaves, and the identity that it hands over.
use dnsid_py.Base.{
  ℕ, ◌-◌, ◌≡◌, refl, ap, ◌∙◌, sym, String, true, Option, some, List, [], ◌∷◌, ◌++◌, length, All,
  Option-cases, inl, inr, arith, eq_iff,
}
use mathlib.Core.Path.{subst}
use dnsid_py.Base.Result.{ok, Result-cases}
use dnsid_py.Keys.{Jwk, thumbprint}
use dnsid_py.Events.{
  Time, IssuanceEvent, MigrationEvent, LogEvent, issuance, key_rotation, revocation, retirement,
  migration, delegation, foreign,
}
use dnsid_py.DomainLog.{
  DomainLog, DomainSnapshot, HistoricalState, active, unset, revoked, retired, snapshot_at,
}
use dnsid_py.DomainLog.History.{Status, IsInside, IsLater, Step, Steps, History}
use dnsid_py.DomainLog.Correct.{snapshot_at-IsSnapshot}
use dnsid_py.Reader.{first_issuance, is_active}
use dnsid_py.Reader.Migration.{
  Budget, VerifiedCutoffHistory, MigrationVerificationResult, Rebuild, Remaining, add_response,
  add_events, without, prior_reader, migrations, last_is, validate_predecessor_history,
  prior_result, verify_external_prior,
}
use dnsid_py.Reader.Migration.Handoff.{
  IsHandoff, prior_reader-checked, validate_predecessor_history-checked,
}

module _ (digest : List (String × String) → String) (max_time : Time) where
  -- The identity at the end of the previous log: a history up to `max_time` that is active, whose
  -- own entity key and operational key are returned, and whose entity key has the thumbprint of the
  -- trusted one.
  abbrev pub HandsOver : String → Jwk → MigrationVerificationResult → Type 0
  HandsOver domain trusted result =
      (inside : List LogEvent) × (later : List LogEvent) × (st : Status) × (result.prior_events
        ≡ inside ++ later)
      × All (IsInside domain max_time) inside
      × All (IsLater domain max_time) later
      × History digest inside st
      × (st.state ≡ active)
      × (result.operational_key ≡ st.active_key)
      × (result.entity_key ≡ st.entity_key)
      × (thumbprint digest result.entity_key ≡ thumbprint digest trusted)

  active_lem : (s : HistoricalState) → is_active s ≡ true → s ≡ active
  active_lem active h = refl
  active_lem unset h = cc
  active_lem revoked h = cc
  active_lem retired h = cc

  Step-entity_key :
      (st st' : Status) (e : LogEvent) → Step digest st e st' → st'.entity_key ≡ st.entity_key
  Step-entity_key st st' (issuance e) h = absurd h
  Step-entity_key st st' (key_rotation e) (new, t, a, b, p, q, r, u, same) =
      ap (λ (x : Status). x.entity_key) same
  Step-entity_key st st' (revocation e) (a, same) = ap (λ (x : Status). x.entity_key) same
  Step-entity_key st st' (retirement e) same = ap (λ (x : Status). x.entity_key) same
  Step-entity_key st st' (migration e) (a, b, p, q, same) = ap (λ (x : Status). x.entity_key) same
  Step-entity_key st st' (delegation e) same = ap (λ (x : Status). x.entity_key) same
  Step-entity_key st st' (foreign d t) h = absurd h

  Steps-entity_key :
      (st st' : Status) (es : List LogEvent)
      → Steps digest st es st'
      → st'.entity_key ≡ st.entity_key
  Steps-entity_key st st' [] same = ap (λ (x : Status). x.entity_key) same
  Steps-entity_key st st' (e ∷ es) (mid, live, step, rest) =
      Steps-entity_key mid st' es rest ∙ Step-entity_key st mid e step

  -- A history keeps the entity key of its first issuance.
  History-entity_key :
      (inside later : List LogEvent) (st : Status) (e : IssuanceEvent) (entity : Jwk)
      → History digest inside st
      → first_issuance (inside ++ later) ≡ some e
      → e.entity_key ≡ some entity
      → entity ≡ st.entity_key
  unfolding first_issuance
  History-entity_key [] later st e entity h first given = absurd h
  History-entity_key (issuance x ∷ rest) later st e entity
        (begun, (k, o, kt, ot, has, has_o, p, q, apart, shape), steps) first given =
      let same : x ≡ e = cc in
      let one : some k ≡ some entity =
        sym has ∙ (ap (λ (y : IssuanceEvent). y.entity_key) same ∙ given) in
      let key_of : entity ≡ k = cc in
      key_of ∙ sym (Steps-entity_key begun st rest steps ∙ ap (λ (x : Status). x.entity_key) shape)
  History-entity_key (key_rotation x ∷ rest) later st e entity (b, gen, s) first given = absurd gen
  History-entity_key (revocation x ∷ rest) later st e entity (b, gen, s) first given = absurd gen
  History-entity_key (retirement x ∷ rest) later st e entity (b, gen, s) first given = absurd gen
  History-entity_key (migration x ∷ rest) later st e entity (b, gen, s) first given = absurd gen
  History-entity_key (delegation x ∷ rest) later st e entity (b, gen, s) first given = absurd gen
  History-entity_key (foreign d t ∷ rest) later st e entity (b, gen, s) first given = absurd gen

  prior_result-HandsOver :
      (domain : String) (trusted : Jwk) (events : List LogEvent) (refs : List String)
      (result : MigrationVerificationResult)
      → prior_result digest max_time domain trusted events refs ≡ ok result
      → (result.prior_events ≡ events)
        × (result.prior_event_refs ≡ refs)
        × HandsOver domain trusted result
  unfolding prior_result
  prior_result-HandsOver domain trusted events refs result h =
      let log : DomainLog = record { domain = domain; events = events } in
      elim (Result-cases (snapshot_at digest log max_time)) [
        | inr (x, q) ↦ absurd (ground arith)
        | inl (snap, q) ↦ elim (Option-cases (first_issuance events)) [
          | inl r ↦ absurd (ground arith)
          | inr (e, r) ↦ elim (Option-cases e.entity_key) [
            | inl s ↦ absurd (ground arith)
            | inr (entity, s) ↦ elim (Option-cases (thumbprint digest entity)) [
              | inl t ↦ absurd (ground arith)
              | inr (logged, t) ↦ elim (Option-cases (thumbprint digest trusted)) [
                | inl u ↦ absurd (ground arith)
                | inr (expected, u) ↦
                    let (inside, later, st, split, ins, lat, history, shape) =
                      (snapshot_at-IsSnapshot digest log max_time snap).0 q in
                    let events_of : result.prior_events ≡ events = ground arith in
                    let key_of : result.operational_key ≡ snap.active_key = ground arith in
                    let entity_of : result.entity_key ≡ entity = ground arith in
                    let awake : is_active snap.historical_state ≡ true = ground arith in
                    (
                      events_of,
                      ground arith,
                      (
                        inside,
                        later,
                        st,
                        events_of ∙ split,
                        ins,
                        lat,
                        history,
                        active_lem st.state (
                            sym (ap (λ (x : DomainSnapshot). is_active x.historical_state) shape)
                            ∙ awake),
                        key_of ∙ ap (λ (x : DomainSnapshot). x.active_key) shape,
                        entity_of
                            ∙ History-entity_key inside later st e entity history
                                (ap first_issuance (sym split) ∙ r) s,
                        ap (thumbprint digest) entity_of ∙ ground (arith, eq_iff logged expected),
                      ),
                    )
              ]
            ]
          ]
        ]
      ]

  abbrev remaining : Budget → ℕ → Remaining
  remaining r depth = record {
    depth = r.limits.max_depth - depth;
    history_events = r.limits.max_history_events - r.history_events;
    response_bytes = r.limits.max_response_bytes - r.response_bytes;
    seen_log_references = r.seen;
  }

  -- The calls that a returning verification went through.
  verify_external_prior-calls :
      (lr : String) (factory : Option (String → Option Rebuild)) (event : MigrationEvent)
      (domain : String) (trusted : Jwk) (depth : ℕ) (budget b : Budget)
      (result : MigrationVerificationResult)
      → verify_external_prior digest max_time lr factory event domain trusted depth budget
        ≡ ok (b, result)
      → (r : Budget) × (rebuild : Rebuild) × (history : VerifiedCutoffHistory) × (v : Budget)
        × (c : Budget) × (prior_reader lr factory event depth budget ≡ ok (r, rebuild))
        × (validate_predecessor_history event history depth
              (r.limits.max_history_events - r.history_events)
              (r.limits.max_response_bytes - r.response_bytes)
              r
            ≡ ok v)
        × (add_response history.response_size v ≡ ok c)
        × (add_events (length history.events) c ≡ ok b)
        × (prior_result digest max_time domain trusted history.events history.event_refs
            ≡ ok result)
  unfolding verify_external_prior
  verify_external_prior-calls lr factory event domain trusted depth budget b result h =
      elim (Result-cases (prior_reader lr factory event depth budget)) [
        | inr (raised, missed) ↦ absurd (ground arith)
        | inl ((r, rebuild), p) ↦
            elim (Option-cases (rebuild event.final_entry_ref (remaining r depth))) [
              | inl missed ↦ absurd (ground arith)
              | inr (history, q) ↦
                  elim (Result-cases (
                    validate_predecessor_history event history depth
                      (r.limits.max_history_events - r.history_events)
                      (r.limits.max_response_bytes - r.response_bytes) r)) [
                        | inr (raised, missed) ↦ absurd (ground arith)
                        | inl (v, t) ↦ elim (Result-cases (add_response history.response_size v)) [
                          | inr (raised, missed) ↦ absurd (ground arith)
                          | inl (c, u) ↦
                              elim (Result-cases (add_events (length history.events) c)) [
                                | inr (raised, missed) ↦ absurd (ground arith)
                                | inl (n, w) ↦
                                    elim (Result-cases (
                                      prior_result digest max_time domain trusted history.events
                                        history.event_refs)) [
                                          | inr (raised, missed) ↦ absurd (ground arith)
                                          | inl (m, x) ↦ (
                                            r,
                                            rebuild,
                                            history,
                                            v,
                                            c,
                                            p,
                                            t,
                                            u,
                                            ground arith,
                                            ground arith,
                                          )
                                        ]
                              ]
                        ]
                      ]
            ]
      ]

  -- If `_verify_prior_history`, with a reader that is no C2spTlogReader, returns, the event leads to
  -- the current log; the migrations of the
  -- previous history are a chain of handoffs between logs that had not been seen, and end in the
  -- event's previous log; there is one reference per event, and the last is the event's cutoff;
  -- and the previous history, up to `max_time`, ends active with the entity key and the operational
  -- key that are returned, and this entity key has the thumbprint of the trusted one.
  pub verify_external_prior-HandsOver :
      (lr : String) (factory : Option (String → Option Rebuild)) (event : MigrationEvent)
      (domain : String) (trusted : Jwk) (depth : ℕ) (budget b : Budget)
      (result : MigrationVerificationResult)
      → verify_external_prior digest max_time lr factory event domain trusted depth budget
        ≡ ok (b, result)
      → (event.new_log ≡ lr)
        × IsHandoff
            (without event.previous_log (event.previous_log ∷ budget.seen))
            (migrations result.prior_events)
            event.previous_log
        × (length result.prior_event_refs ≡ length result.prior_events)
        × (last_is result.prior_event_refs event.final_entry_ref ≡ true)
        × HandsOver domain trusted result
  unfolding verify_external_prior
  verify_external_prior-HandsOver lr factory event domain trusted depth budget b result h =
      let (r, rebuild, history, v, c, p, q, t, u, w) =
        verify_external_prior-calls lr factory event domain trusted depth budget b result h in
      let (stream, deep, unseen, shape) =
        prior_reader-checked lr factory event depth budget r rebuild p in
      let (visited, grown, few, small, refs, cutoff, room, handoff) =
        validate_predecessor_history-checked event history depth _ _ r v q in
      let (events_of, refs_of, handed) =
        prior_result-HandsOver domain trusted history.events history.event_refs result w in
      (
        stream,
        rw (events_of) (
            subst
              (λ (x : Budget).
                IsHandoff (without event.previous_log x.seen) (migrations history.events)
                  event.previous_log)
              shape handoff),
        rw (events_of, refs_of) refs,
        rw refs_of cutoff,
        handed,
      )
