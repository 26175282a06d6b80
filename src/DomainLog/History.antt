-- ===== src/DomainLog/History.antt =====
-- What a snapshot of a domain log promises, stated without the loop of `snapshot_at`
-- (dnsid/models.py): the histories of an identity, and the part of a log that a time covers.
use dnsid_py.Base.{◌≤◌, ◌<◌, ◌≡◌, ◌≢◌, String, true, some, List, [], ◌∷◌, ◌++◌, All}
use dnsid_py.Keys.{Jwk, thumbprint}
use dnsid_py.Events.{
  Time, LogEvent, issuance, key_rotation, revocation, retirement, migration, delegation, foreign,
  domain_of, timestamp_of,
}
use dnsid_py.DomainLog.{
  HistoricalState, active, revoked, retired, DomainSnapshot, DomainLog, known_reason,
}

-- The state of an identity that has been issued.
pub record Status : Type 0 where
  pub state : HistoricalState
  pub entity_key : Jwk
  pub active_key : Jwk
  pub active_key_thumbprint : String
  pub key_bound_at : Time
  pub governance_id : String

-- An event of the domain, at or before a time, and after it.
abbrev pub IsInside : String → Time → LogEvent → Type 0
IsInside domain at e =
    (domain_of e ≡ some domain) × (t : Time) × (timestamp_of e ≡ some t) × (t ≤ at)

abbrev pub IsLater : String → Time → LogEvent → Type 0
IsLater domain at e =
    (domain_of e ≡ some domain) × (t : Time) × (timestamp_of e ≡ some t) × (at < t)

abbrev pub snapshot_of : DomainLog → Time → List LogEvent → Status → DomainSnapshot
snapshot_of log at inside st = record {
  domain = log.domain;
  historical_state = st.state;
  active_key = st.active_key;
  active_key_thumbprint = st.active_key_thumbprint;
  key_bound_at = st.key_bound_at;
  governance_id = st.governance_id;
  snapshot_at = at;
  events = inside;
}

module _ (digest : List (String × String) → String) where
  -- An ISSUANCE with two keys of different thumbprints makes the identity active.
  abbrev pub Genesis : LogEvent → Status → Type 0
  Genesis (issuance e) st =
      (entity : Jwk) × (operational : Jwk) × (entity_thumb : String) × (operational_thumb : String)
      × (e.entity_key ≡ some entity)
      × (e.operational_key ≡ some operational)
      × (thumbprint digest entity ≡ some entity_thumb)
      × (thumbprint digest operational ≡ some operational_thumb)
      × (entity_thumb ≢ operational_thumb)
      × (st ≡ record {
        state = active;
        entity_key = entity;
        active_key = operational;
        active_key_thumbprint = operational_thumb;
        key_bound_at = e.timestamp;
        governance_id = e.governance_id;
      })
  Genesis _ st = ⊥

  -- What an event does to an active identity.
  abbrev pub Step : Status → LogEvent → Status → Type 0
  Step st (issuance e) st' = ⊥
  Step st (key_rotation e) st' =
      (new : Jwk) × (entity_thumb : String) × (e.previous_thumbprint ≡ st.active_key_thumbprint)
      × (e.new_public_key ≡ some new)
      × (thumbprint digest new ≡ some e.new_thumbprint)
      × (e.new_thumbprint ≢ st.active_key_thumbprint)
      × (thumbprint digest st.entity_key ≡ some entity_thumb)
      × (e.new_thumbprint ≢ entity_thumb)
      × (st' ≡ record st {
        active_key = new;
        active_key_thumbprint = e.new_thumbprint;
        key_bound_at = e.timestamp;
      })
  Step st (revocation e) st' =
      (known_reason e.reason ≡ true) × (st' ≡ record st { state = revoked })
  Step st (retirement e) st' = st' ≡ record st { state = retired }
  Step st (migration e) st' =
      (e.previous_log ≢ "")
      × (e.new_log ≢ "")
      × (e.final_entry_ref ≢ "")
      × (e.previous_log ≢ e.new_log)
      × (st' ≡ st)
  Step st (delegation e) st' = st' ≡ st
  Step st (foreign d t) st' = ⊥

  -- Nothing follows a state that is not active.
  abbrev pub Steps : Status → List LogEvent → Status → Type 0
  Steps st [] st' = st' ≡ st
  Steps st (e ∷ es) st' = (mid : Status) × (st.state ≡ active) × Step st e mid × Steps mid es st'

  abbrev pub History : List LogEvent → Status → Type 0
  History [] st = ⊥
  History (e ∷ es) st = (first : Status) × Genesis e first × Steps first es st

  -- The log is a prefix of events at or before the time, which is a history, and then events
  -- after it.
  abbrev pub IsSnapshot : DomainLog → Time → DomainSnapshot → Type 0
  IsSnapshot log at snap =
      (inside : List LogEvent) × (later : List LogEvent) × (st : Status) × (log.events
        ≡ inside ++ later)
      × All (IsInside log.domain at) inside
      × All (IsLater log.domain at) later
      × History inside st
      × (snap ≡ snapshot_of log at inside st)
