-- ===== src/Lifecycle/Runs.antt =====
-- Runs of verify_lifecycle (dnsid/c2sp_tlog/stream_verifier.py), on stand-ins for the decoders.
use dnsid_py.Lifecycle.Candidate.{
  last_rotation, applied_keys, check_signers, candidate_is_authenticated,
}
use dnsid_py.Lifecycle.Candidate.Charge.{InCharge}
use dnsid_py.Lifecycle.Candidate.Authentic.{SignedByAll, candidate_is_authenticated-SignedByAll}
use dnsid_py.Base.{◌≡◌, ℕ, refl, true, String, Option, none, some, List, [], ◌∷◌, true, false}
use dnsid_py.Base.Result.{ok, err}
use dnsid_py.Keys.{Jwk, member, compute_thumbprint, thumbprint}
use dnsid_py.Events.{LogEvent, Signed, issuance, key_rotation, revocation, timestamp_of}
use dnsid_py.DomainLog.{known_reason}
use dnsid_py.Lifecycle.{
  VerifiedLifecycleEvent, Options, Decoders, after_terminal, signature_ok,
  assert_first_chain_fields, assert_chain_fields, active_state, next_state, check_position,
  signed_of,
}
use dnsid_py.Lifecycle.Genesis.{issuance_keys, take_issuance}
use dnsid_py.Lifecycle.Verify.{
  rotation_key, take_rotation, take_entity_event, take_other, take_event, verify_event,
  verify_events, verify_lifecycle,
}
use dnsid_py.Lifecycle.Spec.{Founds, IsTrusted, IsTimely, Continues}
use dnsid_py.Lifecycle.Sound.{verify_lifecycle-Continues}

last_value : List (String × String) → String
last_value [] = ""
last_value ((k, v) ∷ []) = v
last_value ((k, v) ∷ rest) = last_value rest

abbrev toy : Decoders
toy = record {
  digest = last_value;
  signed_bytes = λ b. some b;
  event_id = λ b. some "id";
  decode = λ s. some [];
  verify = λ k p s. true;
  state_hash = λ s. "state";
  millis = λ t. t;
}

abbrev key : String → Jwk
key x = record {
  kty = "OKP";
  alg = "EdDSA";
  kid = x;
  use_of = "sig";
  raw = ("kty", "OKP") ∷ ("crv", "Ed25519") ∷ ("x", x) ∷ [];
}

abbrev opts : Options
opts = record {
  lr = none;
  unchained = false;
  signer_key = some (key "entity");
  checkpoint_integration_time_ms = some 100;
  verify_migration = none;
}

abbrev signed : Signed
signed = record { signing_kid = "entity"; sig = "s"; operational_countersig = "c" }

abbrev entry : ℕ → Option String → Option String → LogEvent → VerifiedLifecycleEvent
entry n id state e = record {
  index = n;
  leaf_hash = [];
  data_bytes = n ∷ [];
  event = e;
  chain = record { seq = some n; prev_event_id = id; prev_state_hash = state };
  post_keys = none;
}

abbrev issued : VerifiedLifecycleEvent
issued = entry 0 none none (
    issuance (record {
      signed = signed;
      domain = "a.example";
      governance_id = "example";
      entity_key = some (key "entity");
      operational_key = some (key "first");
      timestamp = 10;
    }))

abbrev rotated : VerifiedLifecycleEvent
rotated = entry 1 (some "id") (some "state") (
    key_rotation (record {
      signed = signed;
      domain = "a.example";
      previous_kid = "first";
      previous_thumbprint = "first";
      previous_public_key = none;
      new_kid = "second";
      new_thumbprint = "second";
      new_public_key = some (key "second");
      new_operational_proof = "p";
      timestamp = 20;
    }))

abbrev ended : ℕ → VerifiedLifecycleEvent
ended n = entry n (some "id") (some "state") (
    revocation
      (record { signed = signed; domain = "a.example"; reason = "keyCompromise"; timestamp = 30 }))

accepted : verify_lifecycle toy opts (issued ∷ rotated ∷ ended 2 ∷ []) ≡ ok tt
unfolding verify_lifecycle verify_events verify_event take_event take_other take_entity_event
    take_rotation rotation_key take_issuance issuance_keys check_position assert_chain_fields
    assert_first_chain_fields active_state next_state signature_ok signed_of timestamp_of
    known_reason thumbprint compute_thumbprint member last_value
accepted = refl

after_the_end : verify_lifecycle toy opts (issued ∷ ended 1 ∷ ended 2 ∷ []) ≡ err after_terminal
unfolding verify_lifecycle verify_events verify_event take_event take_other take_entity_event
    take_issuance issuance_keys check_position assert_chain_fields assert_first_chain_fields
    active_state next_state signature_ok signed_of timestamp_of known_reason thumbprint
    compute_thumbprint member last_value
after_the_end = refl

verify_lifecycle-Continues_example :
    (entity : Jwk) × (operational : Jwk) × Founds toy opts issued issued.event entity operational
    × IsTrusted toy opts opts.signer_key entity
    × (issued.chain.seq ≡ some 0)
    × IsTimely toy opts issued
    × Continues toy opts issued entity operational (rotated ∷ ended 2 ∷ [])
verify_lifecycle-Continues_example =
    verify_lifecycle-Continues toy opts issued (rotated ∷ ended 2 ∷ []) accepted

authentic : candidate_is_authenticated toy opts rotated issued [] ≡ ok true
unfolding candidate_is_authenticated applied_keys last_rotation check_signers signature_ok
authentic = refl

candidate_is_authenticated-SignedByAll_example :
    (keys : Jwk × Jwk) × InCharge toy opts issued [] keys
    × SignedByAll toy opts rotated rotated.event keys
candidate_is_authenticated-SignedByAll_example =
    candidate_is_authenticated-SignedByAll toy opts rotated issued [] authentic
