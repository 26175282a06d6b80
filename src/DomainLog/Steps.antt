-- ===== src/DomainLog/Steps.antt =====
-- One event of `snapshot_at` (dnsid/models.py) does what the specification says.
use dnsid_py.Base.{
  ℕ, ◌≡◌, ◌≢◌, refl, String, Bool, false, some, List, [], ◌∷◌, ◌++◌, str_eq, eq_iff, inl, inr,
  Option-cases, arith,
}
use dnsid_py.Base.Result.{ok}
use dnsid_py.Keys.{thumbprint}
use dnsid_py.Events.{
  KeyRotationEvent, LogEvent, issuance, key_rotation, revocation, retirement, migration, delegation,
  foreign,
}
use dnsid_py.DomainLog.{
  unset, active, revoked, retired, Replay, begin, apply_issuance, apply_rotation, apply_event,
  replay_event, bad_migration,
}
use dnsid_py.DomainLog.History.{Status, Genesis, Step}

-- The loop's variables at an identity's state, after the events `es`.
abbrev pub as_replay : Status → List LogEvent → Bool → Replay
as_replay st es past = record {
  state = st.state;
  entity_key = some st.entity_key;
  active_key = some st.active_key;
  active_key_thumbprint = st.active_key_thumbprint;
  key_bound_at = st.key_bound_at;
  governance_id = st.governance_id;
  events_up_to = es;
  past_snapshot_boundary = past;
}

str_ne : (a b : String) → str_eq a b ≡ false → a ≢ b
str_ne a b h e = cc (h, (eq_iff a b).1 e)

ne_str : (a b : String) → a ≢ b → str_eq a b ≡ false
ne_str a b h = ground (arith, eq_iff a b)

module _ (digest : List (String × String) → String) where
  rotation_sound :
      (index : ℕ) (st : Status) (es : List LogEvent) (e : KeyRotationEvent) (s' : Replay)
      → apply_rotation digest index (as_replay st es false) e ≡ ok s'
      → (st' : Status) × Step digest st (key_rotation e) st' × (s' ≡ as_replay st' es false)
  unfolding apply_rotation
  rotation_sound index st es e s' h = elim (Option-cases e.new_public_key) [
    | inl missing ↦ absurd (ground arith)
    | inr (new, n) ↦ elim (Option-cases (thumbprint digest new)) [
      | inl missing ↦ absurd (ground arith)
      | inr (nt, t) ↦ elim (Option-cases (thumbprint digest st.entity_key)) [
        | inl missing ↦ absurd (ground arith)
        | inr (et, u) ↦ (
          record st {
            active_key = new;
            active_key_thumbprint = e.new_thumbprint;
            key_bound_at = e.timestamp;
          },
          (
            new,
            et,
            ground (arith, eq_iff e.previous_thumbprint st.active_key_thumbprint),
            n,
            ground (arith, eq_iff e.new_thumbprint nt),
            ground (arith, eq_iff e.new_thumbprint st.active_key_thumbprint),
            u,
            ground (arith, eq_iff e.new_thumbprint et),
            refl,
          ),
          ground arith,
        )
      ]
    ]
  ]

  -- The state is active after anything but a termination, and never unset again.
  pub Step-ne-unset :
      (st st' : Status) (e : LogEvent)
      → st.state ≡ active
      → Step digest st e st'
      → st'.state ≢ unset
  Step-ne-unset st st' (issuance e) a h = absurd h
  Step-ne-unset st st' (key_rotation e) a (new, et, p, n, t, q, u, v, same) = ground arith
  Step-ne-unset st st' (revocation e) a (known, same) = ground arith
  Step-ne-unset st st' (retirement e) a same = ground arith
  Step-ne-unset st st' (migration e) a (p, q, r, s, same) = ground arith
  Step-ne-unset st st' (delegation e) a same = ground arith
  Step-ne-unset st st' (foreign d t) a h = absurd h

  apply_event_sound :
      (index : ℕ) (st : Status) (es : List LogEvent) (e : LogEvent) (s' : Replay)
      → st.state ≢ unset
      → apply_event digest index (as_replay st es false) e ≡ ok s'
      → (st' : Status) × Step digest st e st' × (s' ≡ as_replay st' es false)
  unfolding apply_event
  apply_event_sound index st es (issuance e) s' set h =
      absurd (unfold apply_issuance in ground arith)
  apply_event_sound index st es (key_rotation e) s' set h = rotation_sound index st es e s' h
  apply_event_sound index st es (revocation e) s' set h =
      (record st { state = revoked }, (ground arith, refl), ground arith)
  apply_event_sound index st es (retirement e) s' set h =
      (record st { state = retired }, refl, ground arith)
  apply_event_sound index st es (migration e) s' set h = (
    st,
    unfold bad_migration in
        (
          ground (arith, eq_iff e.previous_log ""),
          ground (arith, eq_iff e.new_log ""),
          ground (arith, eq_iff e.final_entry_ref ""),
          ground (arith, eq_iff e.previous_log e.new_log),
          refl,
        ),
    ground arith,
  )
  apply_event_sound index st es (delegation e) s' set h = (st, refl, ground arith)
  apply_event_sound index st es (foreign d t) s' set h = cc

  -- An event that is replayed on an issued identity is a step from an active state.
  pub replay_event_sound :
      (index : ℕ) (st : Status) (es : List LogEvent) (e : LogEvent) (s' : Replay)
      → st.state ≢ unset
      → replay_event digest index (as_replay st es false) e ≡ ok s'
      → (st' : Status) × (st.state ≡ active)
        × Step digest st e st'
        × (s' ≡ as_replay st' (es ++ (e ∷ [])) false)
  unfolding replay_event
  replay_event_sound index st es e s' set h =
      let live : st.state ≡ active = ground arith in
      let (st', step, same) = apply_event_sound index st (es ++ (e ∷ [])) e s' set (ground arith) in
      (st', live, step, same)

  rotation_complete :
      (index : ℕ) (st st' : Status) (es : List LogEvent) (e : KeyRotationEvent) (past : Bool)
      → Step digest st (key_rotation e) st'
      → apply_rotation digest index (as_replay st es past) e ≡ ok (as_replay st' es past)
  unfolding apply_rotation
  rotation_complete index st st' es e past (new, et, p, n, t, q, u, v, same) = ground (
    arith,
    eq_iff e.previous_thumbprint st.active_key_thumbprint,
    eq_iff e.new_thumbprint e.new_thumbprint,
    eq_iff e.new_thumbprint st.active_key_thumbprint,
    eq_iff e.new_thumbprint et,
  )

  apply_event_complete :
      (index : ℕ) (st st' : Status) (es : List LogEvent) (e : LogEvent) (past : Bool)
      → Step digest st e st'
      → apply_event digest index (as_replay st es past) e ≡ ok (as_replay st' es past)
  unfolding apply_event
  apply_event_complete index st st' es (issuance e) past h = absurd h
  apply_event_complete index st st' es (key_rotation e) past h =
      rotation_complete index st st' es e past h
  apply_event_complete index st st' es (revocation e) past (known, same) = ground arith
  apply_event_complete index st st' es (retirement e) past same = ground arith
  apply_event_complete index st st' es (migration e) past (p, q, r, s, same) =
      unfold bad_migration in
      ground (
        arith,
        eq_iff e.previous_log "",
        eq_iff e.new_log "",
        eq_iff e.final_entry_ref "",
        eq_iff e.previous_log e.new_log,
      )
  apply_event_complete index st st' es (delegation e) past same = ground arith
  apply_event_complete index st st' es (foreign d t) past h = absurd h

  pub replay_event_complete :
      (index : ℕ) (st st' : Status) (es : List LogEvent) (e : LogEvent)
      → st.state ≡ active
      → Step digest st e st'
      → replay_event digest index (as_replay st es false) e
        ≡ ok (as_replay st' (es ++ (e ∷ [])) false)
  unfolding replay_event
  replay_event_complete index st st' es e live h =
      ground (arith, apply_event_complete index st st' (es ++ (e ∷ [])) e false h)

  -- The first event of a replay is a genesis.
  pub first_event_sound :
      (index : ℕ) (e : LogEvent) (s' : Replay)
      → replay_event digest index begin e ≡ ok s'
      → (st : Status) × Genesis digest e st × (s' ≡ as_replay st (e ∷ []) false)
  unfolding replay_event apply_event apply_issuance
  first_event_sound index (issuance e) s' h = elim (Option-cases e.entity_key) [
    | inl missing ↦ absurd (ground arith)
    | inr (entity, p) ↦ elim (Option-cases e.operational_key) [
      | inl missing ↦ absurd (ground arith)
      | inr (operational, q) ↦ elim (Option-cases (thumbprint digest entity)) [
        | inl missing ↦ absurd (ground arith)
        | inr (et, t) ↦ elim (Option-cases (thumbprint digest operational)) [
          | inl missing ↦ absurd (ground arith)
          | inr (ot, u) ↦ (
            record {
              state = active;
              entity_key = entity;
              active_key = operational;
              active_key_thumbprint = ot;
              key_bound_at = e.timestamp;
              governance_id = e.governance_id;
            },
            (entity, operational, et, ot, p, q, t, u, ground (arith, eq_iff et ot), refl),
            ground arith,
          )
        ]
      ]
    ]
  ]
  first_event_sound index (key_rotation e) s' h = cc
  first_event_sound index (revocation e) s' h = cc
  first_event_sound index (retirement e) s' h = cc
  first_event_sound index (migration e) s' h = cc
  first_event_sound index (delegation e) s' h = cc
  first_event_sound index (foreign d t) s' h = cc

  pub first_event_complete :
      (index : ℕ) (e : LogEvent) (st : Status)
      → Genesis digest e st
      → replay_event digest index begin e ≡ ok (as_replay st (e ∷ []) false)
  unfolding replay_event apply_event apply_issuance
  first_event_complete index (issuance e) st (entity, operational, et, ot, p, q, t, u, ne, same) =
      ground (arith, eq_iff et ot)
  first_event_complete index (key_rotation e) st h = absurd h
  first_event_complete index (revocation e) st h = absurd h
  first_event_complete index (retirement e) st h = absurd h
  first_event_complete index (migration e) st h = absurd h
  first_event_complete index (delegation e) st h = absurd h
  first_event_complete index (foreign d t) st h = absurd h

  pub Genesis-active : (e : LogEvent) (st : Status) → Genesis digest e st → st.state ≡ active
  Genesis-active (issuance e) st (entity, operational, et, ot, p, q, t, u, ne, same) = ground arith
  Genesis-active (key_rotation e) st h = absurd h
  Genesis-active (revocation e) st h = absurd h
  Genesis-active (retirement e) st h = absurd h
  Genesis-active (migration e) st h = absurd h
  Genesis-active (delegation e) st h = absurd h
  Genesis-active (foreign d t) st h = absurd h
