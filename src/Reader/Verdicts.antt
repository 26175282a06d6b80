-- ===== src/Reader/Verdicts.antt =====
-- What the verdicts of the log reader rest on (dnsid/c2sp_tlog/reader.py): each one that returns
-- has the whole history of the domain behind it.
use dnsid_py.Base.{
  ℕ, ◌≤◌, ◌≡◌, ◌≢◌, sym, ap, String, true, false, Option, none, some, List, [], ◌∷◌, ◌++◌, All, In,
  Option-cases, inl, inr, arith, eq_iff, length, get_elem?, ◌+◌, ◌-◌,
}
use mathlib.Core.Path.{subst}
use dnsid_py.Base.Result.{ok, Result-cases}
use dnsid_py.Keys.{Jwk, thumbprint}
use dnsid_py.Events.{
  Time, LogEvent, IssuanceEvent, issuance, key_rotation, revocation, retirement, migration,
  delegation, foreign,
}
use dnsid_py.DomainLog.{DomainLog, DomainSnapshot, active, revoked, retired, snapshot_at}
use dnsid_py.DomainLog.History.{Status, IsLater, IsInside, History}
use dnsid_py.DomainLog.Correct.{snapshot_at-IsSnapshot}
use dnsid_py.Reader.{
  VerifiedHistory, BilateralBindingResult, LoggedStateEvidence, first_issuance, introduces,
  introduction, active_snapshot, bilateral_binding, operational_continuity, non_revocation, is_text,
}
use dnsid_py.Reader.Whole.{IsOf, active_snapshot-History}

module _ (digest : List (String × String) → String) where
  -- The event that brought in a key: an issuance of it, or a rotation to it.
  abbrev pub Introduces : String → LogEvent → Type 0
  Introduces key_thumbprint (issuance e) =
      (key : Jwk) × (e.operational_key ≡ some key) × (thumbprint digest key ≡ some key_thumbprint)
  Introduces key_thumbprint (key_rotation e) = e.new_thumbprint ≡ key_thumbprint
  Introduces key_thumbprint _ = ⊥

  introduces-Introduces :
      (key_thumbprint : String) (e : LogEvent)
      → introduces digest key_thumbprint e ≡ ok true
      → Introduces key_thumbprint e
  unfolding introduces
  introduces-Introduces k (issuance e) h = elim (Option-cases e.operational_key) [
    | inl q ↦ absurd (ground arith)
    | inr (key, q) ↦ elim (Option-cases (thumbprint digest key)) [
      | inl r ↦ absurd (ground arith)
      | inr (t, r) ↦ (key, q, ground (arith, eq_iff t k))
    ]
  ]
  introduces-Introduces k (key_rotation e) h = ground (arith, eq_iff e.new_thumbprint k)
  introduces-Introduces k (revocation e) h = cc
  introduces-Introduces k (retirement e) h = cc
  introduces-Introduces k (migration e) h = cc
  introduces-Introduces k (delegation e) h = cc
  introduces-Introduces k (foreign d t) h = cc

  introduction-In :
      (key_thumbprint : String) (es : List LogEvent) (e : LogEvent)
      → introduction digest key_thumbprint es ≡ ok (some e)
      → In e es × Introduces key_thumbprint e
  unfolding introduction
  introduction-In k [] e h = cc
  introduction-In k (x ∷ es) e h = elim (Result-cases (introduces digest k x)) [
    | inr (y, q) ↦ absurd (ground arith)
    | inl (true, q) ↦
        let same : x ≡ e = ground arith in
        (inl (sym same), subst (Introduces k) same (introduces-Introduces k x q))
    | inl (false, q) ↦
        let (place, there) = introduction-In k es e (ground arith) in (inr place, there)
  ]

  -- The genesis of a history is its first issuance.
  first_issuance-Genesis :
      (events : List LogEvent) (st : Status) (e : IssuanceEvent)
      → History digest events st
      → first_issuance events ≡ some e
      → (rest : List LogEvent) × (events ≡ issuance e ∷ rest)
  unfolding first_issuance
  first_issuance-Genesis [] st e history h = absurd history
  first_issuance-Genesis (issuance x ∷ rest) st e (first, gen, steps) h = (rest, cc)
  first_issuance-Genesis (key_rotation x ∷ rest) st e (first, gen, steps) h = absurd gen
  first_issuance-Genesis (revocation x ∷ rest) st e (first, gen, steps) h = absurd gen
  first_issuance-Genesis (retirement x ∷ rest) st e (first, gen, steps) h = absurd gen
  first_issuance-Genesis (migration x ∷ rest) st e (first, gen, steps) h = absurd gen
  first_issuance-Genesis (delegation x ∷ rest) st e (first, gen, steps) h = absurd gen
  first_issuance-Genesis (foreign d t ∷ rest) st e (first, gen, steps) h = absurd gen

  -- If `operational_continuity` accepts the pinned initial thumbprint and the current one, all
  -- the verified events are events of the domain and one history, which starts with an issuance of an
  -- operational key of the initial thumbprint and at whose end the identity is active with an
  -- operational key of the current thumbprint.
  pub operational_continuity-History :
      (domain initial current : String) (verified : VerifiedHistory)
      → operational_continuity digest domain initial current verified ≡ ok tt
      → (e : IssuanceEvent) × (rest : List LogEvent) × (key : Jwk) × (st : Status)
        × (verified.events ≡ issuance e ∷ rest)
        × (e.operational_key ≡ some key)
        × (thumbprint digest key ≡ some initial)
        × History digest verified.events st
        × All (IsOf domain) verified.events
        × (st.state ≡ active)
        × (st.active_key_thumbprint ≡ current)
  unfolding operational_continuity
  operational_continuity-History domain initial current verified h =
      elim (Option-cases (first_issuance verified.events)) [
        | inl q ↦ absurd (ground arith)
        | inr (e, q) ↦ elim (Option-cases e.operational_key) [
          | inl r ↦ absurd (ground arith)
          | inr (key, r) ↦ elim (Option-cases (thumbprint digest key)) [
            | inl s ↦ absurd (ground arith)
            | inr (t, s) ↦ elim (Result-cases (active_snapshot digest domain verified.events)) [
              | inr (x, u) ↦ absurd (ground arith)
              | inl (snap, u) ↦
                  let (st, history, act, thumb, ends, ours) =
                    active_snapshot-History digest domain verified.events snap u in
                  let (rest, starts) = first_issuance-Genesis verified.events st e history q in
                  (
                    e,
                    rest,
                    key,
                    st,
                    starts,
                    r,
                    ground (arith, eq_iff t initial),
                    history,
                    ours,
                    act,
                    ground (arith, thumb, eq_iff snap.active_key_thumbprint current),
                  )
            ]
          ]
        ]
      ]

  -- If `bilateral_binding` accepts a record, the verified events are all events of the domain
  -- and one history that ends active; it starts with the issuance of the domain with the record's gi and an
  -- entity key of the record's entity thumbprint; and one of its events, an issuance or a
  -- rotation, brought in the record's operational key.
  pub bilateral_binding-History :
      (gi : Option String) (entity_key operational_key : Jwk) (domain : String)
      (verified : VerifiedHistory) (result : BilateralBindingResult)
      → bilateral_binding digest gi entity_key operational_key domain verified ≡ ok result
      → (e : IssuanceEvent) × (rest : List LogEvent) × (logged : Jwk) × (current : String)
        × (by : LogEvent) × (st : Status) × (verified.events ≡ issuance e ∷ rest)
        × (e.domain ≡ domain)
        × (gi ≡ some e.governance_id)
        × (e.entity_key ≡ some logged)
        × (thumbprint digest logged ≡ thumbprint digest entity_key)
        × (thumbprint digest operational_key ≡ some current)
        × In by verified.events
        × Introduces current by
        × History digest verified.events st
        × All (IsOf domain) verified.events
        × (st.state ≡ active)
  unfolding bilateral_binding
  bilateral_binding-History gi entity_key operational_key domain verified result h =
      elim (Option-cases (thumbprint digest entity_key)) [
        | inl q ↦ absurd (ground arith)
        | inr (entity, q0) ↦ elim (Result-cases (active_snapshot digest domain verified.events)) [
          | inr (x, u) ↦ absurd (ground arith)
          | inl (snap, q1) ↦ elim (Option-cases (first_issuance verified.events)) [
            | inl q ↦ absurd (ground arith)
            | inr (e, q2) ↦ elim (Option-cases e.entity_key) [
              | inl q ↦ absurd (ground arith)
              | inr (logged, q3) ↦ elim (Option-cases e.operational_key) [
                | inl q ↦ absurd (ground arith)
                | inr (operational, q4) ↦ elim (Option-cases (thumbprint digest logged)) [
                  | inl q ↦ absurd (ground arith)
                  | inr (t, q5) ↦ elim (Option-cases (thumbprint digest operational_key)) [
                    | inl q ↦ absurd (ground arith)
                    | inr (current, q6) ↦
                        elim (Result-cases (introduction digest current verified.events)) [
                          | inr (x, u) ↦ absurd (ground arith)
                          | inl (none, q7) ↦ absurd (ground arith)
                          | inl (some by, q7) ↦
                              let (st, history, act, thumb, ends, ours) =
                                active_snapshot-History digest domain verified.events snap q1 in
                              let (rest, starts) =
                                first_issuance-Genesis verified.events st e history q2 in
                              let (place, there) = introduction-In current verified.events by q7 in
                              (
                                e,
                                rest,
                                logged,
                                current,
                                by,
                                st,
                                starts,
                                ground (arith, eq_iff e.domain domain),
                                gi_lem gi e.governance_id (ground arith),
                                q3,
                                ground (arith, eq_iff t entity),
                                q6,
                                place,
                                there,
                                history,
                                ours,
                                act,
                              )
                        ]
                  ]
                ]
              ]
            ]
          ]
        ]
      ]
    where
      gi_lem : (gi : Option String) (t : String) → is_text gi t ≡ true → gi ≡ some t
      gi_lem none t h = cc
      gi_lem (some s) t h = ground (arith, eq_iff s t)

  -- If `non_revocation` accepts an instant, the verified events split at it: those at or before
  -- it are a history of the domain that is not revoked and not retired, those after it follow;
  -- there is one reference per event, and the evidence names the references of the first event
  -- and of the last one at or before the instant; and the checkpoint was witnessed at most the
  -- configured freshness limit before now.
  pub non_revocation-History :
      (lr : String) (limit : Option ℕ) (now_ms : ℕ) (domain : String) (at : Time)
      (verified : VerifiedHistory) (evidence : LoggedStateEvidence)
      → non_revocation digest lr limit now_ms domain at verified ≡ ok evidence
      → (inside : List LogEvent) × (later : List LogEvent) × (st : Status) × (freshness : ℕ)
        × (verified.events ≡ inside ++ later)
        × All (IsInside domain at) inside
        × All (IsLater domain at) later
        × History digest inside st
        × (st.state ≢ revoked)
        × (st.state ≢ retired)
        × (evidence.logged_state ≡ st.state)
        × (length verified.event_refs ≡ length verified.events)
        × (get_elem? verified.event_refs 0 ≡ some evidence.history_start)
        × (get_elem? verified.event_refs (length inside - 1) ≡ some evidence.history_end)
        × (limit ≡ some freshness)
        × (now_ms ≤ verified.checkpoint_witness_ms + freshness)
  unfolding non_revocation
  non_revocation-History lr limit now_ms domain at verified evidence h =
      let log : DomainLog = record { domain = domain; events = verified.events } in
      elim (Option-cases limit) [
        | inl q ↦ absurd (ground arith)
        | inr (freshness, q0) ↦ elim (Result-cases (snapshot_at digest log at)) [
          | inr (x, u) ↦ absurd (ground arith)
          | inl (snap, q1) ↦ elim (Option-cases (get_elem? verified.event_refs 0)) [
            | inl q ↦ absurd (ground arith)
            | inr (start, q2) ↦
                elim (Option-cases (get_elem? verified.event_refs (length snap.events - 1))) [
                  | inl q ↦ absurd (ground arith)
                  | inr (end, q3) ↦
                      let (inside, later, st, split, ins, lat, history, shape) =
                        (snapshot_at-IsSnapshot digest log at snap).0 q1 in
                      let state_of : snap.historical_state ≡ st.state =
                        ap (λ (s : DomainSnapshot). s.historical_state) shape in
                      let events_of : snap.events ≡ inside =
                        ap (λ (s : DomainSnapshot). s.events) shape in
                      (
                        inside,
                        later,
                        st,
                        freshness,
                        split,
                        ins,
                        lat,
                        history,
                        (λ (bad : st.state ≡ revoked). ground (arith, state_of, bad)),
                        (λ (bad : st.state ≡ retired). ground (arith, state_of, bad)),
                        ground (arith, state_of),
                        ground arith,
                        ground arith,
                        ground (arith, events_of),
                        q0,
                        ground arith,
                      )
                ]
          ]
        ]
      ]
