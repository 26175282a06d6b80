-- ===== src/Merkle.antt =====
-- dnsid/c2sp_tlog/merkle.py: RFC 6962 hashing, the root of an entry list, and inclusion proofs.
-- `sha256` is hashlib's, a parameter. Indices and sizes are natural numbers, so the tests for
-- negative ones have no counterpart.
pub mod Tree
pub mod Soundness
pub mod Completeness
pub mod Consistency
pub mod Runs
use dnsid_py.Base.{
  ℕ, zero, suc, ◌+◌, ◌-◌, ◌/◌, ◌%◌, Bool, Option, none, some, List, [], ◌∷◌, ◌++◌, map, Bytes,
  bytes_eq, length, ltb, leb, ◌==◌, if◌then◌else◌,
}

module _ (sha256 : Bytes → Bytes) where
  -- The one-byte prefixes keep leaves and inner nodes apart.
  unfoldable pub leaf_hash : Bytes → Bytes
  leaf_hash entry = sha256 (0 ∷ entry)

  unfoldable pub node_hash : Bytes → Bytes → Bytes
  node_hash left right = sha256 (1 ∷ (left ++ right))

  -- One round of the loop of `inclusion_root`.
  pub inclusion_step : ℕ → ℕ → Bytes → Bytes → Bytes
  inclusion_step i n hash sibling =
      if i % 2 == 1
      then node_hash sibling hash
      else if ltb i (n - 1)
      then node_hash hash sibling
      else node_hash sibling hash

  pub inclusion_loop : ℕ → ℕ → Bytes → List Bytes → Bytes
  inclusion_loop i n hash [] = hash
  inclusion_loop i n hash (sibling ∷ proof) =
      inclusion_loop (i / 2) ((n + 1) / 2) (inclusion_step i n hash sibling) proof

  -- `none` is the ValueError for an index outside the tree.
  pub inclusion_root : Bytes → ℕ → ℕ → List Bytes → Option Bytes
  inclusion_root leaf index tree_size proof =
      if leb tree_size index then none else some (inclusion_loop index tree_size leaf proof)

  pub verify_inclusion : Bytes → ℕ → ℕ → Bytes → List Bytes → Option Bool
  verify_inclusion entry index tree_size root_hash proof =
      elim (inclusion_root (leaf_hash entry) index tree_size proof) [
        | none ↦ none
        | some root ↦ some (bytes_eq root root_hash)
      ]

  -- One round of the `while` loop: neighbours are joined, a last odd hash is carried over.
  unfoldable pub next_level : List Bytes → List Bytes
  next_level [] = []
  next_level (x ∷ []) = x ∷ []
  next_level (x ∷ y ∷ rest) = node_hash x y ∷ next_level rest

  -- `while len(level) > 1`, on fuel; `none` is a level that ran out, or an empty one.
  unfoldable pub reduce_levels : ℕ → List Bytes → Option Bytes
  reduce_levels fuel [] = none
  reduce_levels fuel (x ∷ []) = some x
  reduce_levels zero (x ∷ y ∷ rest) = none
  reduce_levels (suc fuel) (x ∷ y ∷ rest) = reduce_levels fuel (next_level (x ∷ y ∷ rest))

  -- A level of n hashes is reduced in fewer than n rounds.
  unfoldable pub merkle_root_from_entries : List Bytes → Option Bytes
  merkle_root_from_entries [] = some (sha256 [])
  merkle_root_from_entries (e ∷ es) = reduce_levels (length (e ∷ es)) (map leaf_hash (e ∷ es))
