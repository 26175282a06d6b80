-- ===== src/Reader/Runs.antt =====
-- Runs of the verdicts of the log reader (dnsid/c2sp_tlog/reader.py).
use dnsid_py.Base.{
  ℕ, ◌≤◌, ◌≡◌, ◌≢◌, refl, String, some, List, [], ◌∷◌, ◌++◌, In, All, length, get_elem?, ◌+◌, ◌-◌,
}
use dnsid_py.Base.Result.{ok, err}
use dnsid_py.Keys.{Jwk, thumbprint, compute_thumbprint}
use dnsid_py.Events.{LogEvent, IssuanceEvent, issuance, domain_of, timestamp_of}
use dnsid_py.DomainLog.{
  active, revoked, retired, snapshot_at, replay, visit, replay_event, apply_event, conclude,
}
use dnsid_py.DomainLog.History.{Status, History, IsInside, IsLater}
use dnsid_py.DomainLog.Runs.{toy, key, issued, rotated, ended}
use dnsid_py.Reader.{
  terminal_history, unrecorded_key, stale_checkpoint, missing_refs, VerifiedHistory,
  BilateralBindingResult, LoggedStateEvidence, latest, first_issuance, introduces, introduction,
  active_snapshot, bilateral_binding, operational_continuity, non_revocation, key_timestamp,
}
use dnsid_py.Reader.Whole.{IsOf}
use dnsid_py.Reader.Verdicts.{
  Introduces, operational_continuity-History, bilateral_binding-History, non_revocation-History,
}

abbrev verified : List LogEvent → List String → VerifiedHistory
verified es refs = record {
  events = es;
  event_refs = refs;
  checkpoint_witness_ms = 1000;
  complete_through = "tip";
  completeness_mode = "scan";
  checkpoint = "note";
}

abbrev two : VerifiedHistory
two = verified (issued ∷ rotated ∷ []) ("0" ∷ "4" ∷ [])

continuous : operational_continuity toy "a.example" "first" "second" two ≡ ok tt
unfolding operational_continuity active_snapshot latest first_issuance snapshot_at replay visit
    replay_event apply_event conclude thumbprint compute_thumbprint toy domain_of timestamp_of
continuous = refl

abbrev binding : BilateralBindingResult
binding = record {
  initial_operational_thumbprint = "first";
  initial_entity_thumbprint = "entity";
  timestamp = 10;
}

bound :
    bilateral_binding toy (some "example") (key "entity") (key "second") "a.example" two
    ≡ ok binding
unfolding bilateral_binding introduction introduces active_snapshot latest first_issuance
    snapshot_at replay visit replay_event apply_event conclude thumbprint compute_thumbprint toy
    domain_of timestamp_of
bound = refl

unrecorded :
    bilateral_binding toy (some "example") (key "entity") (key "third") "a.example" two
    ≡ err unrecorded_key
unfolding bilateral_binding introduction introduces active_snapshot latest first_issuance
    snapshot_at replay visit replay_event apply_event conclude thumbprint compute_thumbprint toy
    domain_of timestamp_of
unrecorded = refl

rotated_at : key_timestamp toy (issued ∷ rotated ∷ []) "second" ≡ ok 20
unfolding key_timestamp introduction introduces thumbprint compute_thumbprint toy timestamp_of
rotated_at = refl

ended_history :
    operational_continuity toy "a.example" "first" "second"
      (verified (issued ∷ rotated ∷ ended ∷ []) [])
    ≡ err terminal_history
unfolding operational_continuity active_snapshot latest first_issuance snapshot_at replay visit
    replay_event apply_event conclude thumbprint compute_thumbprint toy domain_of timestamp_of
ended_history = refl

abbrev evidence : LoggedStateEvidence
evidence = record {
  log_reference = "c2sp:a";
  logged_state = active;
  history_start = "0";
  history_end = "4";
  complete_through = "tip";
  completeness_mode = "scan";
  checkpoint = "note";
  freshness_ms = 1000;
}

-- A history that is revoked later still supports an earlier instant.
standing :
    non_revocation toy "c2sp:a"
      (some 500)
      1500
      "a.example"
      25
      (verified (issued ∷ rotated ∷ ended ∷ []) ("0" ∷ "4" ∷ "6" ∷ []))
    ≡ ok evidence
unfolding non_revocation snapshot_at replay visit replay_event apply_event conclude thumbprint
    compute_thumbprint toy domain_of timestamp_of
standing = refl

stale : non_revocation toy "c2sp:a" (some 500) 1501 "a.example" 25 two ≡ err stale_checkpoint
unfolding non_revocation
stale = refl

unreferenced :
    non_revocation toy "c2sp:a" (some 500) 1500 "a.example" 25 (verified (issued ∷ rotated ∷ []) [])
    ≡ err missing_refs
unfolding non_revocation snapshot_at replay visit replay_event apply_event conclude thumbprint
    compute_thumbprint toy domain_of timestamp_of
unreferenced = refl

operational_continuity-History_example :
    (e : IssuanceEvent) × (rest : List LogEvent) × (key : Jwk) × (st : Status) × (two.events
      ≡ issuance e ∷ rest)
    × (e.operational_key ≡ some key)
    × (thumbprint toy key ≡ some "first")
    × History toy two.events st
    × All (IsOf "a.example") two.events
    × (st.state ≡ active)
    × (st.active_key_thumbprint ≡ "second")
operational_continuity-History_example =
    operational_continuity-History toy "a.example" "first" "second" two continuous

bilateral_binding-History_example :
    (e : IssuanceEvent) × (rest : List LogEvent) × (logged : Jwk) × (current : String)
    × (by : LogEvent) × (st : Status) × (two.events ≡ issuance e ∷ rest)
    × (e.domain ≡ "a.example")
    × (some "example" ≡ some e.governance_id)
    × (e.entity_key ≡ some logged)
    × (thumbprint toy logged ≡ thumbprint toy (key "entity"))
    × (thumbprint toy (key "second") ≡ some current)
    × In by two.events
    × Introduces toy current by
    × History toy two.events st
    × All (IsOf "a.example") two.events
    × (st.state ≡ active)
bilateral_binding-History_example =
    bilateral_binding-History toy (some "example") (key "entity") (key "second") "a.example" two
      binding bound

abbrev three : VerifiedHistory
three = verified (issued ∷ rotated ∷ ended ∷ []) ("0" ∷ "4" ∷ "6" ∷ [])

non_revocation-History_example :
    (inside : List LogEvent) × (later : List LogEvent) × (st : Status) × (freshness : ℕ)
    × (three.events ≡ inside ++ later)
    × All (IsInside "a.example" 25) inside
    × All (IsLater "a.example" 25) later
    × History toy inside st
    × (st.state ≢ revoked)
    × (st.state ≢ retired)
    × (evidence.logged_state ≡ st.state)
    × (length three.event_refs ≡ length three.events)
    × (get_elem? three.event_refs 0 ≡ some evidence.history_start)
    × (get_elem? three.event_refs (length inside - 1) ≡ some evidence.history_end)
    × (some 500 ≡ some freshness)
    × (1500 ≤ three.checkpoint_witness_ms + freshness)
non_revocation-History_example =
    non_revocation-History toy "c2sp:a" (some 500) 1500 "a.example" 25 three evidence standing
