-- ===== src/Lib.antt =====
-- DNSid for Python: the parts of the SDK that decide what a verifier believes.
--
-- The SDK publishes an agent's identity record in DNS and verifies those of others. A record names
-- two key sets: the entity's (ek) and the operational one (ku). The lifecycle of an identity, its
-- ISSUANCE, key rotations, revocation and so on, is a chain of signed events in a transparency log
-- of the C2SP tlog kind. A verifier reads the log's checkpoint, enforces its local policy for the
-- log's origin (signatures of the log and of a quorum of witnesses), refuses checkpoints that roll
-- back or fork what it has trusted before, checks that the entries stand in the Merkle tree of the
-- checkpoint, verifies the chain of events, and reads off the state of the domain at a time.
--
-- The parts, and the code that each models:
-- - Base: Boolean tests, lists, bytes, results with errors, decimal numerals.
-- - Merkle: dnsid/c2sp_tlog/merkle.py (leaf_hash, node_hash, inclusion_root, verify_inclusion,
--   verify_consistency in Merkle/Consistency.antt,
--   merkle_root_from_entries) and _inclusion_proof of dnsid/c2sp_tlog/stream_source.py. SHA-256 is
--   a parameter; a theorem that needs it to be injective has a collision as its other outcome.
-- - Tiles: parse_entry_bundle and encode_entry_bundle of dnsid/c2sp_tlog/tiles.py.
-- - SignedNote: verify_note_signature, verify_checkpoint_signature and
--   verified_cosignature_timestamp of dnsid/c2sp_tlog/signed_note.py, over the records of
--   dnsid/c2sp_tlog/checkpoint.py. Ed25519 is a parameter.
-- - Policy: dnsid/c2sp_tlog/policy.py. Policy.antt has the quorum rules, _normalize_quorum_rule and
--   _evaluate_quorum; Policy/Enforce.antt has normalized_origin_policy and
--   enforce_checkpoint_policy, which call SignedNote.
-- - CheckpointStore: the in-memory store of dnsid/c2sp_tlog/checkpoint_store.py. Its dictionary is a
--   function from origins. CheckpointStore/Interleaving.antt lets many threads run it step by step:
--   a step takes an origin's lock, makes the caller's check, writes, or gives up. Each origin has
--   its lock from the start (_lock_for is not modelled), and the write under the lock is one step.
-- - Keys and Jwks: JWK, JWKS and check_ek_ku_distinctness of dnsid/models.py, compute_thumbprint and
--   signature_alg_from_raw of dnsid/_crypto.py. A raw key is a list of members with texts; the hash
--   of the canonical members is a parameter.
-- - Events and DomainLog: the event classes and DomainLog.snapshot_at of dnsid/models.py, with the
--   enumerations of dnsid/enums.py. The local variables of snapshot_at are the record Replay, and a
--   round of its loop is `visit`. DomainLog/History.antt describes legal histories without it.
-- - Lifecycle: verify_lifecycle of dnsid/c2sp_tlog/stream_verifier.py with its helpers, _applied_keys
--   and _candidate_is_authenticated (Lifecycle/Candidate.antt, after selected events). The local
--   variables of its loop are the record Walk. The decoding of entries, base64 and the signature
--   scheme are the record Decoders, the verification of a previous log is an option.
--   Lifecycle/Select.antt has _verify_stream_lifecycle_steps without a cutoff index, with
--   _malformed_authenticated, _migration_signed_by and the rest of _candidate_is_authenticated;
--   the decoding of entries is the record Codec, whose answers tell apart an exception that is
--   skipped and a resource limit.
-- - TxtRecord: DnsIdTxtRecord of dnsid/models.py with parse, parse_unsigned_canonical (without an
--   identity_fqdn), _all_tags, canonical, known_tags_canonical, serialize and policy_flags. The
--   attributes are a function from their names; the string operations are TxtRecord/Texts.antt.
-- - StreamBundle: _verify_and_advance_checkpoint, _verify_checkpoint_prefix and
--   _verified_complete_scan_entries of dnsid/c2sp_tlog/stream_bundle.py, over CheckpointStore and
--   Merkle. The fetch of a consistency proof and the reading of hash tiles are options.
-- - Reader: _key_timestamp, _bilateral_binding, _operational_continuity, _non_revocation and
--   _assert_fresh of dnsid/c2sp_tlog/reader.py, over DomainLog; a verified history is their input.
--   Reader/Migration.antt has _MigrationBudget, _prior_reader, _validate_predecessor_history,
--   _external_prior, _prior_result and the branch of _verify_prior_history for a reader that is no
--   C2spTlogReader: what the factory and rebuild_history_through return are parameters.
-- - LedgerRef: parse_ledger_ref of dnsid/_utils.py.
-- - Retry: retry_transient of dnsid/retry.py; a callable is a function from the number of the call.
-- - Status: AgentStatus.validate of dnsid/models.py.
-- - Freshness: VerifiedDomain.expiry and _require_fresh_evidence of dnsid/models.py, and
--   _parse_ka_duration of dnsid/_utils.py.
--
-- Modules named Runs hold tests and, for each theorem with hypotheses, a case where they hold.
--
-- Fuel. These loops run on fuel: parse_entry_bundle takes two bytes at least in each round and has
-- as many rounds as there are bytes; the levels of a Merkle tree get shorter in each round, and
-- merkle_root_from_entries and _inclusion_proof have as many rounds as there are entries. For the
-- bundle and the root it is proved that this is enough. The two shifts of verify_consistency have
-- as many rounds as the number they shift. All other loops are recursion on a list.
--
-- Numbers and errors. Sizes, indices and instants are natural numbers; what the code says about
-- negative ones, about values of a wrong type and about time zones is left out, except in the
-- checkpoint store, where aware and naive times are told apart. Exceptions are values of an error
-- type for each part, without the text of the message.
--
-- Not modelled: network, DNS and TLS access, HTTP message signatures, tokens, key providers, the
-- registry client, configuration, time budgets, the JSON codecs of events and bundles, the text
-- formats of keys, checkpoints and policies, hash tiles, the semantic validation of an identity
-- record (URLs and IDNA), and the manager that calls all of this. They are input and output, or
-- stand on libraries for JSON, regular expressions and cryptography. Of the log reader, a previous
-- log that the same reader class reads is left out, and of the selection of a lifecycle the cutoff
-- index with verify_occurrence.
pub mod Base
pub mod Merkle
pub mod Tiles
pub mod TxtRecord
pub mod LedgerRef
pub mod Keys
pub mod Events
pub mod DomainLog
pub mod CheckpointStore
pub mod SignedNote
pub mod Policy
pub mod Lifecycle
pub mod Jwks
pub mod Freshness
pub mod Status
pub mod StreamBundle
pub mod Reader
pub mod Retry
