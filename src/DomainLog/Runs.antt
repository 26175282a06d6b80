-- ===== src/DomainLog/Runs.antt =====
-- Runs of snapshot_at (dnsid/models.py). The toy digest writes the last member of a key.
use dnsid_py.Base.{◌≡◌, ◌↔◌, refl, String, none, some, List, [], ◌∷◌}
use dnsid_py.Base.Result.{ok, err}
use dnsid_py.Keys.{Jwk, thumbprint, compute_thumbprint}
use dnsid_py.Events.{
  Signed, LogEvent, issuance, key_rotation, revocation, domain_of, timestamp_of, terminal_state,
}
use dnsid_py.DomainLog.{
  active, apply_event, replay_event, visit, replay, conclude, snapshot_at, DomainLog,
  DomainSnapshot, lifecycle,
}
use dnsid_py.DomainLog.History.{IsSnapshot}
use dnsid_py.DomainLog.Correct.{snapshot_at-IsSnapshot}

unfoldable pub toy : List (String × String) → String
toy [] = ""
toy ((k, v) ∷ []) = v
toy ((k, v) ∷ rest) = toy rest

abbrev pub key : String → Jwk
key x = record {
  kty = "OKP";
  alg = "EdDSA";
  kid = x;
  use_of = "sig";
  raw = ("kty", "OKP") ∷ ("crv", "Ed25519") ∷ ("x", x) ∷ [];
}

abbrev pub signed : Signed
signed = record { signing_kid = ""; sig = ""; operational_countersig = "" }

abbrev pub issued : LogEvent
issued = issuance (record {
  signed = signed;
  domain = "a.example";
  governance_id = "example";
  entity_key = some (key "entity");
  operational_key = some (key "first");
  timestamp = 10;
})

abbrev pub rotated : LogEvent
rotated = key_rotation (record {
  signed = signed;
  domain = "a.example";
  previous_kid = "first";
  previous_thumbprint = "first";
  previous_public_key = none;
  new_kid = "second";
  new_thumbprint = "second";
  new_public_key = some (key "second");
  new_operational_proof = "";
  timestamp = 20;
})

abbrev pub ended : LogEvent
ended =
    revocation
      (record { signed = signed; domain = "a.example"; reason = "keyCompromise"; timestamp = 30 })

abbrev log_of : List LogEvent → DomainLog
log_of es = record { domain = "a.example"; events = es }

abbrev at_25 : DomainSnapshot
at_25 = record {
  domain = "a.example";
  historical_state = active;
  active_key = key "second";
  active_key_thumbprint = "second";
  key_bound_at = 20;
  governance_id = "example";
  snapshot_at = 25;
  events = issued ∷ rotated ∷ [];
}

snapshot_25 : snapshot_at toy (log_of (issued ∷ rotated ∷ ended ∷ [])) 25 ≡ ok at_25
unfolding snapshot_at replay visit replay_event apply_event conclude thumbprint compute_thumbprint
    toy domain_of timestamp_of
snapshot_25 = refl

after_the_end :
    snapshot_at toy (log_of (issued ∷ ended ∷ rotated ∷ [])) 40
    ≡ err (lifecycle terminal_state (some 2))
unfolding snapshot_at replay visit replay_event apply_event conclude thumbprint compute_thumbprint
    toy domain_of timestamp_of
after_the_end = refl

snapshot_at-IsSnapshot_example :
    (snapshot_at toy (log_of (issued ∷ rotated ∷ ended ∷ [])) 25 ≡ ok at_25)
    ↔ IsSnapshot toy (log_of (issued ∷ rotated ∷ ended ∷ [])) 25 at_25
snapshot_at-IsSnapshot_example =
    snapshot_at-IsSnapshot toy (log_of (issued ∷ rotated ∷ ended ∷ [])) 25 at_25
