-- ===== src/Policy/Enforce.antt =====
-- The policy of an origin and its enforcement on a checkpoint (dnsid/c2sp_tlog/policy.py).
-- `sha256` and `ed25519` are the libraries'. Quorums, sizes, times and the clock skew are natural
-- numbers, so the tests for negative ones have no counterpart. The identity of a key, the text
-- `kind\0hex`, is read as the pair of the kind and the bytes.
pub mod Sound
pub mod Timestamps
mod Runs
use dnsid_py.Base.{
  ℕ, ◌+◌, ◌*◌, String, Bool, true, false, not, ◌&&◌, ◌||◌, Option, none, some, List, [], ◌∷◌, ◌++◌,
  Bytes, bytes_eq, length, ltb, ◌==◌, str_eq, if◌then◌else◌,
}
use dnsid_py.Base.Result.{Result, ok, err, ◌>>=◌, ◌>>◌, raise_if, some_or}
use dnsid_py.Base.Decimal.{Text}
use dnsid_py.SignedNote.{
  Checkpoint, SignedNoteKey, is_type, verify_checkpoint_signature, verified_cosignature_timestamp,
}
use dnsid_py.Policy.{
  KeySpec, parsed, text, Rule, Rules, no_rule, witness, threshold, unsupported, end, also,
  PolicyError, bad_key, missing_key, no_origin_policy, quorum_too_large, no_log_key, name_mismatch,
  bad_log_type, bad_witness_type, duplicate_keys, shared_keys, bad_scope, origin_mismatch,
  bad_empty_root, no_log_signature, no_public_quorum, quorum_not_met, as_key, normalize_rule,
  min_of, evaluate_quorum, witness_key,
}

pub record OriginPolicy : Type 0 where
  pub log_keys : List KeySpec
  pub witness_keys : List KeySpec
  pub quorum : Option ℕ
  pub quorum_rule : Option Rule
  pub unchained : Bool

pub record TlogPolicy : Type 0 where
  pub origins : String → Option OriginPolicy
  pub scope : Option String

pub record NormalizedPolicy : Type 0 where
  pub log_keys : List SignedNoteKey
  pub witness_keys : List SignedNoteKey
  pub quorum : ℕ
  pub quorum_rule : Rule
  pub unchained : Bool

pub record PolicyResult : Type 0 where
  pub accepted_witness_timestamps : List ℕ
  pub checkpoint_witness_time : Option ℕ

-- `_key_identity(a) == _key_identity(b)`
unfoldable pub same_identity : SignedNoteKey → SignedNoteKey → Bool
same_identity a b = str_eq a.kind b.kind && bytes_eq a.key_bytes b.key_bytes

pub any_key : (SignedNoteKey → Bool) → List SignedNoteKey → Bool
any_key p [] = false
any_key p (k ∷ ks) = p k || any_key p ks

-- `_assert_distinct_underlying_keys`
pub has_duplicate : List SignedNoteKey → Bool
has_duplicate [] = false
has_duplicate (k ∷ ks) = any_key (same_identity k) ks || has_duplicate ks

pub share_keys : List SignedNoteKey → List SignedNoteKey → Bool
share_keys ks logs = any_key (λ k. any_key (same_identity k) logs) ks

as_keys : (String → Option SignedNoteKey) → List KeySpec → Result PolicyError (List SignedNoteKey)
as_keys parse_key [] = ok []
as_keys parse_key (k ∷ ks) =
    as_key parse_key k >>= λ key. as_keys parse_key ks >>= λ keys. ok (key ∷ keys)

witness_rules : List SignedNoteKey → Rules
witness_rules [] = end
witness_rules (k ∷ ks) = also (witness (some (parsed k))) (witness_rules ks)

flat_quorum_rule : List SignedNoteKey → ℕ → Rule
flat_quorum_rule keys quorum =
    if quorum == 0 then no_rule else threshold quorum (witness_rules keys)

mutual
  -- `_collect_witness_keys`
  pub collect_keys : Rule → Result PolicyError (List SignedNoteKey)
  collect_keys no_rule = ok []
  collect_keys (witness k) = witness_key k >>= λ key. ok (key ∷ [])
  collect_keys (threshold n members) = collect_all members
  collect_keys (unsupported kind n members) = collect_all members

  pub collect_all : Rules → Result PolicyError (List SignedNoteKey)
  collect_all end = ok []
  collect_all (also r rs) = collect_keys r >>= λ keys. collect_all rs >>= λ more. ok (keys ++ more)

top_level_threshold : Rule → ℕ
top_level_threshold no_rule = 0
top_level_threshold (witness k) = 1
top_level_threshold (threshold n members) = n
top_level_threshold (unsupported kind n members) = n

abbrev is_none : Rule → Bool
is_none no_rule = true
is_none (witness k) = false
is_none (threshold n members) = false
is_none (unsupported kind n members) = false

abbrev pub bad_log_key_type : SignedNoteKey → Bool
bad_log_key_type k = elim k.signature_type [ none ↦ false | some t ↦ not (bytes_eq t (1 ∷ [])) ]

abbrev bad_witness_key_type : SignedNoteKey → Bool
bad_witness_key_type k = not (is_type 4 k.signature_type)

abbrev no_keys : List SignedNoteKey → Bool
no_keys [] = true
no_keys (k ∷ ks) = false

abbrev or_zero : Option ℕ → ℕ
or_zero none = 0
or_zero (some n) = n

abbrev or_rule : Option Rule → Rule → Rule
or_rule none r = r
or_rule (some q) r = q

module _ (parse_key : String → Option SignedNoteKey) where
  pub normalized_origin_policy : TlogPolicy → String → Result PolicyError NormalizedPolicy
  normalized_origin_policy policy origin = do
    p ← some_or (policy.origins origin) no_origin_policy
    log_keys ← as_keys parse_key p.log_keys
    witness_keys ← as_keys parse_key p.witness_keys
    let quorum = or_zero p.quorum
    raise_if (ltb (length witness_keys) quorum) quorum_too_large
    raise_if (no_keys log_keys) no_log_key
    raise_if (any_key (λ k. not (str_eq k.name origin)) log_keys) name_mismatch
    raise_if (any_key bad_log_key_type log_keys) bad_log_type
    raise_if (any_key bad_witness_key_type witness_keys) bad_witness_type
    raise_if (has_duplicate log_keys) duplicate_keys
    raise_if (has_duplicate witness_keys) duplicate_keys
    raise_if (share_keys witness_keys log_keys) shared_keys
    rule ← normalize_rule parse_key (or_rule p.quorum_rule (flat_quorum_rule witness_keys quorum))
    rule_keys ← collect_keys rule
    raise_if (any_key bad_witness_key_type rule_keys) bad_witness_type
    raise_if (has_duplicate rule_keys) duplicate_keys
    raise_if (share_keys rule_keys log_keys) shared_keys
    ok (record {
      log_keys = log_keys;
      witness_keys = rule_keys;
      quorum = top_level_threshold rule;
      quorum_rule = rule;
      unchained = p.unchained;
    })

  module _ (sha256 : Bytes → Bytes) (ed25519 : Bytes → Bytes → Text → Bool) where
    -- A log key that may sign in the scope, and that has signed the checkpoint.
    pub accepts : String → Checkpoint → SignedNoteKey → Bool
    accepts scope checkpoint k =
        (not (str_eq scope "public") || is_type 1 k.signature_type)
        && verify_checkpoint_signature ed25519 checkpoint k

    earliest : List ℕ → Option ℕ
    earliest [] = none
    earliest (t ∷ ts) = some (min_of t ts)

    wrong_scope : Option String → String → Bool
    wrong_scope none scope = false
    wrong_scope (some s) scope = not (str_eq s scope)

    pub enforce_checkpoint_policy :
        Checkpoint → String → TlogPolicy → String → ℕ → ℕ → Result PolicyError PolicyResult
    enforce_checkpoint_policy checkpoint origin policy scope now_ms max_clock_skew_ms = do
      raise_if (wrong_scope policy.scope scope) bad_scope
      raise_if (not (str_eq checkpoint.origin origin)) origin_mismatch
      raise_if ((checkpoint.tree_size == 0) && not (bytes_eq checkpoint.root_hash (sha256 [])))
          bad_empty_root
      p ← normalized_origin_policy policy origin
      raise_if (not (any_key (accepts scope checkpoint) p.log_keys)) no_log_signature
      raise_if (str_eq scope "public" && is_none p.quorum_rule) no_public_quorum
      evaluated ←
          evaluate_quorum (verified_cosignature_timestamp ed25519 checkpoint)
            (now_ms + max_clock_skew_ms) p.quorum_rule
      timestamps ← some_or evaluated quorum_not_met
      ok (record {
        accepted_witness_timestamps = timestamps;
        checkpoint_witness_time = earliest timestamps;
      })
