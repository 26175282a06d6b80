-- ===== src/StreamBundle/Runs.antt =====
-- Runs of the checkpoint check (dnsid/c2sp_tlog/stream_bundle.py) on a stand-in for the hash.
use dnsid_py.Base.{
  ℕ, ◌+◌, ◌*◌, ◌≡◌, refl, true, none, some, List, [], ◌∷◌, Bytes, bytes_eq, replicate,
}
use dnsid_py.Base.Result.{err}
use dnsid_py.Merkle.{leaf_hash, node_hash}
use dnsid_py.CheckpointStore.{
  TrustedCheckpoint, Table, Platform, rejected, put_origin, blank_origin, checkpoint_snapshot,
  stored_checkpoint, advance_locked, verify_and_advance,
}
use dnsid_py.StreamBundle.{
  IndexedEntry, Evidence, verify_checkpoint_prefix, check_stored, verify_stored,
  verify_and_advance_checkpoint,
}

checksum : ℕ → Bytes → ℕ
checksum acc [] = acc
checksum acc (b ∷ bs) = checksum (acc * 3 + b + 1) bs

toy_hash : Bytes → Bytes
toy_hash x = replicate 32 (checksum 0 x)

abbrev toy : Platform
toy = record {
  Datetime = ℕ;
  sha256 = toy_hash;
  strip = λ s. s;
  is_aware = λ t. true;
  as_utc = λ t. some t;
}

abbrev entry : ℕ → IndexedEntry
entry n = record { index = n; data_bytes = n ∷ [] }

abbrev leaf_of : ℕ → Bytes
leaf_of n = leaf_hash toy_hash (n ∷ [])

abbrev root_two : Bytes
root_two = node_hash toy_hash (leaf_of 0) (leaf_of 1)

abbrev at_size : ℕ → Bytes → TrustedCheckpoint ℕ
at_size n root = record {
  origin = "log.example";
  tree_size = n;
  root_hash = root;
  witness_time = 5;
}

abbrev one_trusted : Table ℕ
one_trusted = put_origin "log.example" (at_size 1 (leaf_of 0)) (λ k. none)

abbrev no_evidence : Evidence ℕ
no_evidence = record { fetch_consistency_proof = none; tile_consistency = none }

abbrev scan : List IndexedEntry
scan = entry 1 ∷ entry 0 ∷ []

abbrev two_trusted : Table ℕ
two_trusted = put_origin "log.example" (at_size 2 root_two) one_trusted

-- Growth without evidence is not accepted.
unproved :
    verify_and_advance_checkpoint toy one_trusted true true no_evidence none (at_size 2 root_two)
    ≡ err (rejected "missing consistency evidence")
unfolding verify_and_advance_checkpoint verify_and_advance checkpoint_snapshot blank_origin
    stored_checkpoint advance_locked verify_stored check_stored verify_checkpoint_prefix leaf_hash
    node_hash toy_hash checksum bytes_eq
unproved = refl
