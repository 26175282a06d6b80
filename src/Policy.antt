-- ===== src/Policy.antt =====
-- dnsid/c2sp_tlog/policy.py: the local trust policy of a log origin. A quorum rule is a tree of
-- witnesses and thresholds. `parse_key` is parse_signed_note_verifier_key of
-- dnsid/c2sp_tlog/signed_note.py on a text key, with its error read as none.
pub mod Quorum
pub mod Enforce
use dnsid_py.Base.{
  ℕ, zero, ◌+◌, ◌*◌, String, Bool, true, false, not, ◌&&◌, ◌||◌, Option, none, some, List, [], ◌∷◌,
  ◌++◌, Bytes, bytes_eq, length, take, ltb, leb, ◌==◌, str_eq, if◌then◌else◌,
}
use dnsid_py.Base.Result.{Result, ok, err, ◌>>=◌, ◌>>◌, raise_if, some_or}
use dnsid_py.Base.Decimal.{Text}
use dnsid_py.SignedNote.{
  Checkpoint, SignedNoteKey, is_type, verify_checkpoint_signature, verified_cosignature_timestamp,
}

-- `SignedNoteKey | str`
pub data KeySpec : Type 0 where
  parsed : SignedNoteKey → KeySpec
  text : String → KeySpec

-- C2spTlogQuorumRule; `unsupported` is any other kind, and a witness rule may lack its key.
mutual
  pub data Rule : Type 0 where
    no_rule : Rule
    witness : Option KeySpec → Rule
    threshold : ℕ → Rules → Rule
    unsupported : String → ℕ → Rules → Rule

  pub data Rules : Type 0 where
    end : Rules
    also : Rule → Rules → Rules

-- The messages of the C2spTlogVerificationErrors.
pub data PolicyError : Type 0 where
  bad_key missing_key bad_threshold unsupported_kind no_origin_policy : PolicyError
  quorum_too_large no_log_key name_mismatch bad_log_type bad_witness_type : PolicyError
  duplicate_keys shared_keys bad_scope origin_mismatch bad_empty_root : PolicyError
  no_log_signature no_public_quorum quorum_not_met : PolicyError

unfoldable pub count_rules : Rules → ℕ
count_rules end = 0
count_rules (also r rs) = 1 + count_rules rs

unfoldable pub as_key : (String → Option SignedNoteKey) → KeySpec → Result PolicyError SignedNoteKey
as_key parse_key (parsed k) = ok k
as_key parse_key (text t) = some_or (parse_key t) bad_key

abbrev normal_threshold : ℕ → Rules → Result PolicyError Rules → Result PolicyError Rule
normal_threshold n members normal =
    if ltb n 1 || ltb (count_rules members) n
    then err bad_threshold
    else (normal >>= λ ms. ok (threshold n ms))

abbrev normal_also : Result PolicyError Rule → Result PolicyError Rules → Result PolicyError Rules
normal_also r rs = r >>= λ x. rs >>= λ xs. ok (also x xs)

abbrev normal_witness : (String → Option SignedNoteKey) → Option KeySpec → Result PolicyError Rule
normal_witness parse_key none = err missing_key
normal_witness parse_key (some k) = as_key parse_key k >>= λ key. ok (witness (some (parsed key)))

unfoldable mutual
  -- `_normalize_quorum_rule`
  pub normalize_rule : (String → Option SignedNoteKey) → Rule → Result PolicyError Rule
  normalize_rule parse_key no_rule = ok no_rule
  normalize_rule parse_key (witness k) = normal_witness parse_key k
  normalize_rule parse_key (threshold n members) =
      normal_threshold n members (normalize_rules parse_key members)
  normalize_rule parse_key (unsupported kind n members) = err unsupported_kind

  pub normalize_rules : (String → Option SignedNoteKey) → Rules → Result PolicyError Rules
  normalize_rules parse_key end = ok end
  normalize_rules parse_key (also r rs) =
      normal_also (normalize_rule parse_key r) (normalize_rules parse_key rs)

-- `min(ts)` of a list that starts with `t`.
abbrev pub min_of : ℕ → List ℕ → ℕ
min_of t [] = t
min_of t (u ∷ ts) = let m = min_of u ts in if leb t m then t else m

-- `key(a) >= key(b)` for the key `min(ts) if ts else inf`.
unfoldable pub ge_key : List ℕ → List ℕ → Bool
ge_key [] b = true
ge_key (x ∷ a) [] = false
ge_key (x ∷ a) (y ∷ b) = leb (min_of y b) (min_of x a)

-- A stable sort by falling keys: `sort(key=..., reverse=True)`.
pub insert_by_key : List ℕ → List (List ℕ) → List (List ℕ)
insert_by_key a [] = a ∷ []
insert_by_key a (b ∷ rest) =
    let deeper = b ∷ insert_by_key a rest in if ge_key a b then a ∷ b ∷ rest else deeper

pub sort_by_key : List (List ℕ) → List (List ℕ)
unfolding insert_by_key
sort_by_key [] = []
sort_by_key (a ∷ rest) = insert_by_key a (sort_by_key rest)

abbrev pub concat : List (List ℕ) → List ℕ
concat [] = []
concat (a ∷ rest) = a ++ concat rest

-- What follows the evaluation of the members.
pub pick : ℕ → List (List ℕ) → Option (List ℕ)
unfolding sort_by_key
pick n satisfied =
    if ltb (length satisfied) n then none else some (concat (take n (sort_by_key satisfied)))

abbrev pub add_satisfied : Option (List ℕ) → List (List ℕ) → List (List ℕ)
add_satisfied none rest = rest
add_satisfied (some ts) rest = ts ∷ rest

-- A witness counts with its timestamp, in seconds, if that is not after `limit` milliseconds.
pub witness_result : (SignedNoteKey → Option ℕ) → ℕ → SignedNoteKey → Option (List ℕ)
witness_result stamp limit key = elim (stamp key) [
  | none ↦ none
  | some t ↦ if leb (t * 1000) limit then some (t ∷ []) else none
]

abbrev pub witness_key : Option KeySpec → Result PolicyError SignedNoteKey
witness_key none = err missing_key
witness_key (some (text t)) = err missing_key
witness_key (some (parsed k)) = ok k

mutual
  unfolding pick witness_result

  -- `_evaluate_quorum`; `stamp` is the verified cosignature of a key on the checkpoint at hand.
  pub evaluate_quorum : (SignedNoteKey → Option ℕ) → ℕ → Rule → Result PolicyError (Option (List ℕ))
  evaluate_quorum stamp limit no_rule = ok (some [])
  evaluate_quorum stamp limit (witness k) =
      witness_key k >>= λ key. ok (witness_result stamp limit key)
  evaluate_quorum stamp limit (threshold n members) =
      evaluate_members stamp limit members >>= λ satisfied. ok (pick n satisfied)
  evaluate_quorum stamp limit (unsupported kind n members) =
      evaluate_members stamp limit members >>= λ satisfied. ok (pick n satisfied)

  -- The results of the members that are satisfied, in their order.
  pub evaluate_members : (SignedNoteKey → Option ℕ) → ℕ → Rules → Result PolicyError (List (List ℕ))
  evaluate_members stamp limit end = ok []
  evaluate_members stamp limit (also r rs) = evaluate_quorum stamp limit r >>= λ result.
      evaluate_members stamp limit rs >>= λ rest. ok (add_satisfied result rest)
