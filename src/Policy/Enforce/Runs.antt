-- ===== src/Policy/Enforce/Runs.antt =====
-- Runs of dnsid/c2sp_tlog/policy.py, on a stand-in for the signature scheme that accepts every
-- signature.
use dnsid_py.Base.{
  ℕ, ◌≡◌, refl, ◌+◌, ◌≢◌, ◌⊎◌, Bool, true, false, Option, none, some, List, [], ◌∷◌, ◌++◌, Bytes,
  bytes_eq, replicate, String, str_eq, ◌&&◌, In, All,
}
use dnsid_py.Base.Result.{ok}
use dnsid_py.Base.Decimal.{Text, codes}
use dnsid_py.SignedNote.{
  NoteSignature, Checkpoint, SignedNoteKey, big_endian, cosigned_text, key_id_matches,
  verify_note_signature, any_signature, is_type, verify_checkpoint_signature, first_timestamp,
  verified_cosignature_timestamp,
}
use dnsid_py.SignedNote.Sound.{SignedBy}
use dnsid_py.Policy.{
  KeySpec, parsed, Rule, witness, threshold, also, end, evaluate_quorum, pick, witness_result,
  insert_by_key, sort_by_key, ge_key, count_rules, as_key, normalize_rule,
}
use dnsid_py.Policy.Quorum.{holds_from, accepted_from, evaluate_quorum-holds_from}
use dnsid_py.Policy.Enforce.{
  TlogPolicy, NormalizedPolicy, PolicyResult, same_identity, any_key, has_duplicate, share_keys,
  as_keys, witness_rules, flat_quorum_rule, collect_keys, top_level_threshold,
  normalized_origin_policy, accepts, earliest, wrong_scope, is_none, enforce_checkpoint_policy,
}
use dnsid_py.Policy.Enforce.Sound.{
  IsDistinct, IsLogType, Attested, normalized_origin_policy-IsSeparated,
  enforce_checkpoint_policy-Attested,
}

abbrev every : Bytes → Bytes → Text → Bool
every key sig message = true

abbrev key_of : String → ℕ → ℕ → SignedNoteKey
key_of name byte kind = record {
  name = name;
  key_bytes = replicate 32 byte;
  kind = "ed25519";
  key_id = none;
  signature_type = some (kind ∷ []);
}

abbrev one_log : List KeySpec
one_log = parsed (key_of "log" 1 1) ∷ []

abbrev two_witnesses : List KeySpec
two_witnesses = parsed (key_of "a" 2 4) ∷ parsed (key_of "b" 3 4) ∷ []

abbrev one_of_two : TlogPolicy
one_of_two = record {
  origins = λ o. some (record {
    log_keys = one_log;
    witness_keys = two_witnesses;
    quorum = some 1;
    quorum_rule = none;
    unchained = false;
  });
  scope = some "public";
}

abbrev rule : Rule
rule = threshold 1 (
    also (witness (some (parsed (key_of "a" 2 4))))
      (also (witness (some (parsed (key_of "b" 3 4)))) end))

abbrev normal : NormalizedPolicy
normal = record {
  log_keys = key_of "log" 1 1 ∷ [];
  witness_keys = key_of "a" 2 4 ∷ key_of "b" 3 4 ∷ [];
  quorum = 1;
  quorum_rule = rule;
  unchained = false;
}

abbrev cosignature : String → ℕ → NoteSignature
cosignature name t = record {
  name = name;
  signature = replicate 7 0 ++ (t ∷ replicate 64 2);
  key_hash = none;
}

abbrev checkpoint : Checkpoint
checkpoint = record {
  origin = "log";
  tree_size = 3;
  root_hash = replicate 32 1;
  signatures =
      record { name = "log"; signature = replicate 64 2; key_hash = none }
      ∷ cosignature "a" 5
      ∷ cosignature "b" 7
      ∷ [];
  signed_text = codes "log";
}

abbrev result : PolicyResult
result = record { accepted_witness_timestamps = 7 ∷ []; checkpoint_witness_time = some 7 }

abbrev stamp : SignedNoteKey → Option ℕ
stamp = verified_cosignature_timestamp every checkpoint

abbrev no_text : String → Option SignedNoteKey
no_text t = none

-- Of two witnesses, of which one is enough, the later one counts.
later_counts : evaluate_quorum stamp 8000 rule ≡ ok (some (7 ∷ []))
unfolding evaluate_quorum pick witness_result insert_by_key sort_by_key ge_key
    verified_cosignature_timestamp first_timestamp key_id_matches verify_note_signature bytes_eq
    big_endian cosigned_text
later_counts = refl

normalizes : normalized_origin_policy no_text one_of_two "log" ≡ ok normal
unfolding normalized_origin_policy as_keys as_key any_key has_duplicate share_keys same_identity
    flat_quorum_rule witness_rules normalize_rule count_rules collect_keys top_level_threshold
    bytes_eq
normalizes = refl

accepted :
    enforce_checkpoint_policy no_text (λ b. b) every checkpoint "log" one_of_two "public" 7000 1000
    ≡ ok result
unfolding enforce_checkpoint_policy wrong_scope accepts earliest any_key verify_checkpoint_signature
    any_signature verify_note_signature key_id_matches bytes_eq
accepted = rw (normalizes, later_counts) refl

evaluate_quorum-holds_from_example : holds_from stamp 8000 7 rule ≡ accepted_from 7 (some (7 ∷ []))
evaluate_quorum-holds_from_example =
    evaluate_quorum-holds_from stamp 8000 rule (some (7 ∷ [])) 7 later_counts

normalized_origin_policy-IsSeparated_example :
    (collect_keys normal.quorum_rule ≡ ok normal.witness_keys)
    × IsDistinct normal.log_keys
    × IsDistinct normal.witness_keys
    × All (λ w. All (λ k. same_identity w k ≡ false) normal.log_keys) normal.witness_keys
    × All (λ w. w.signature_type ≡ some (4 ∷ [])) normal.witness_keys
    × All (λ k. k.name ≡ "log") normal.log_keys
    × All (λ k. IsLogType k.signature_type) normal.log_keys
normalized_origin_policy-IsSeparated_example =
    normalized_origin_policy-IsSeparated no_text one_of_two "log" normal normalizes

enforce_checkpoint_policy-Attested_example :
    (p : NormalizedPolicy) × (normalized_origin_policy no_text one_of_two "log" ≡ ok p)
    × (checkpoint.origin ≡ "log")
    × ((k : SignedNoteKey) × In k p.log_keys
        × SignedBy every checkpoint k
        × ((◌≢◌ {A = String} "public" "public") ⊎ (is_type 1 k.signature_type ≡ true)))
    × ((str_eq "public" "public" && is_none p.quorum_rule) ≡ false)
    × All
        (Attested no_text (λ b. b) every checkpoint p.witness_keys (7000 + 1000))
        result.accepted_witness_timestamps
enforce_checkpoint_policy-Attested_example =
    enforce_checkpoint_policy-Attested no_text (λ b. b) every checkpoint "log" one_of_two "public"
      7000 1000 result accepted
