-- ===== src/Lifecycle/Select/Runs.antt =====
-- Runs of the selection of a lifecycle (dnsid/c2sp_tlog/stream_verifier.py), on stand-ins for the
-- decoders: the first byte of an entry says what it is, a signature names the key that made it,
-- and an entry of 2 is an ISSUANCE that another entity has signed for itself.
use dnsid_py.Base.{
  ℕ, ◌≡◌, refl, str_eq, String, Bool, true, false, Option, none, some, List, [], ◌∷◌, Bytes,
  bytes_eq, ◌==◌, if◌then◌else◌, All, In,
}
use dnsid_py.Base.Result.{Result, ok, err}
use dnsid_py.Keys.{Jwk, member, compute_thumbprint, thumbprint}
use dnsid_py.Events.{LogEvent, Signed, issuance, key_rotation, domain_of, timestamp_of}
use dnsid_py.DomainLog.{known_reason}
use dnsid_py.DomainLog.Runs.{toy, key}
use dnsid_py.StreamBundle.{IndexedEntry, insert_entry, sort_entries}
use dnsid_py.Lifecycle.{
  Chain, VerifiedLifecycleEvent, migration_error, Options, Decoders, signature_ok,
  assert_first_chain_fields, assert_chain_fields, active_state, next_state, check_position,
  signed_of,
}
use dnsid_py.Lifecycle.Genesis.{issuance_keys, take_issuance}
use dnsid_py.Lifecycle.Verify.{
  rotation_key, take_rotation, take_other, take_event, verify_event, verify_events,
  verify_lifecycle,
}
use dnsid_py.Lifecycle.Candidate.{
  last_rotation, applied_keys, check_signers, candidate_is_authenticated,
}
use dnsid_py.Lifecycle.Select.{
  got, Codec, applied_event, up_to, issuance_is_authenticated, authenticated, apply_candidate,
  consider, select_new, select_entry, select_entries, verify_stream_lifecycle,
}
use dnsid_py.Lifecycle.Select.Selected.{UniqueIds, IsReadFrom, verify_stream_lifecycle-IsSelection}

abbrev kind_of : Bytes → ℕ
kind_of [] = 0
kind_of (b ∷ bs) = b

abbrev payload_of : ℕ → Bytes
payload_of n = if n == 1 then 1 ∷ [] else if n == 2 then 2 ∷ [] else 0 ∷ []

abbrev id_of : ℕ → String
id_of n = if n == 1 then "one" else if n == 2 then "two" else "zero"

abbrev tag : String → Bytes
tag t =
    if str_eq t "entity"
    then 1 ∷ []
    else if str_eq t "first"
    then 2 ∷ []
    else if str_eq t "second"
    then 3 ∷ []
    else 9 ∷ []

abbrev made_by : Option String → Bytes → Bool
made_by none s = false
made_by (some t) s = bytes_eq s (tag t)

abbrev decoders : Decoders
decoders = record {
  digest = toy;
  signed_bytes = λ b. some (payload_of (kind_of b));
  event_id = λ b. some (id_of (kind_of b));
  decode = λ s. some (tag s);
  verify = λ k p s. made_by (thumbprint toy k) s;
  state_hash = λ s. "state";
  millis = λ t. t;
}

abbrev opts : Options
opts = record {
  lr = none;
  unchained = false;
  signer_key = some (key "entity");
  checkpoint_integration_time_ms = some 100;
  verify_migration = some (λ e. err migration_error);
}

abbrev signed : String → String → Signed
signed by counter = record { signing_kid = by; sig = by; operational_countersig = counter }

abbrev issued : String → String → LogEvent
issued entity operational = issuance (record {
  signed = signed entity operational;
  domain = "a.example";
  governance_id = "example";
  entity_key = some (key entity);
  operational_key = some (key operational);
  timestamp = 10;
})

abbrev rotated : LogEvent
rotated = key_rotation (record {
  signed = signed "first" "";
  domain = "a.example";
  previous_kid = "first";
  previous_thumbprint = "first";
  previous_public_key = none;
  new_kid = "second";
  new_thumbprint = "second";
  new_public_key = some (key "second");
  new_operational_proof = "second";
  timestamp = 20;
})

abbrev event_of : ℕ → LogEvent
event_of n =
    if n == 1 then rotated else if n == 2 then issued "mallory" "eve" else issued "entity" "first"

abbrev chain_of : ℕ → Chain
chain_of n =
    if n == 1
    then record { seq = some 1; prev_event_id = some "zero"; prev_state_hash = some "state" }
    else record { seq = some 0; prev_event_id = none; prev_state_hash = none }

abbrev codec : Codec
codec = record {
  read_public = λ b. got (some "a.example");
  read_event = λ b. got (event_of (kind_of b));
  read_chain = λ b. got (chain_of (kind_of b));
  read_envelope = λ b. none;
  predecessor_id = λ b. "zero";
}

abbrev entry : ℕ → ℕ → IndexedEntry
entry n kind = record { index = n; data_bytes = kind ∷ [] }

abbrev scan : List IndexedEntry
scan = entry 7 1 ∷ entry 3 0 ∷ entry 8 1 ∷ []

abbrev no_leaf : Bytes → Bytes
no_leaf b = []

abbrev item : ℕ → ℕ → Jwk → VerifiedLifecycleEvent
item n kind operational = record {
  index = n;
  leaf_hash = [];
  data_bytes = kind ∷ [];
  event = event_of kind;
  chain = chain_of kind;
  post_keys = some (key "entity", operational);
}

abbrev selected : List VerifiedLifecycleEvent
selected = item 3 0 (key "first") ∷ item 7 1 (key "second") ∷ []

-- The entries are sorted, and the copy of the rotation is skipped.
selects : verify_stream_lifecycle decoders opts no_leaf codec 10 100 "a.example" scan ≡ ok selected
unfolding verify_stream_lifecycle sort_entries insert_entry select_entries select_entry
    applied_event select_new domain_of consider authenticated issuance_is_authenticated up_to
    apply_candidate candidate_is_authenticated applied_keys last_rotation check_signers
    verify_lifecycle verify_events verify_event take_event take_other take_rotation rotation_key
    take_issuance issuance_keys check_position assert_chain_fields assert_first_chain_fields
    active_state next_state signature_ok signed_of timestamp_of known_reason thumbprint
    compute_thumbprint member toy bytes_eq
selects = refl

abbrev of_id : String → Bytes
of_id t = if str_eq t "one" then 1 ∷ [] else if str_eq t "two" then 2 ∷ [] else 0 ∷ []

abbrev self_signed : IndexedEntry
self_signed = entry 1 2

-- The other entity has indeed signed it.
self_signed_ok : signature_ok decoders (item 1 2 (key "eve")) "mallory" (key "mallory") ≡ true
unfolding signature_ok bytes_eq thumbprint compute_thumbprint member toy
self_signed_ok = refl

verify_stream_lifecycle-IsSelection_example :
    (verify_lifecycle decoders opts selected ≡ ok tt)
    × UniqueIds decoders opts no_leaf codec "a.example" selected
    × All
        (λ v.
          (e : IndexedEntry) × In e scan × IsReadFrom decoders opts no_leaf codec "a.example" v e)
        selected
verify_stream_lifecycle-IsSelection_example =
    verify_stream_lifecycle-IsSelection decoders opts no_leaf codec "a.example" 10 100 scan selected
      selects
