-- ===== src/Merkle/Consistency.antt =====
-- verify_consistency of dnsid/c2sp_tlog/merkle.py. The two loops that shift the indices run on
-- fuel; an index below `2 ^ k` has at most `k` bits, so the index itself is fuel enough.
use dnsid_py.Base.{
  ℕ, zero, suc, ◌+◌, ◌-◌, ◌*◌, ◌/◌, ◌%◌, Bool, true, false, not, ◌&&◌, ◌||◌, List, [], ◌∷◌, Bytes,
  bytes_eq, length, ltb, ◌==◌, if◌then◌else◌,
}
use dnsid_py.Merkle.{node_hash}

-- `a & b`, bit by bit
unfoldable pub bit_and : ℕ → ℕ → ℕ → ℕ
bit_and zero a b = 0
bit_and (suc fuel) a b = (a % 2) * (b % 2) + 2 * bit_and fuel (a / 2) (b / 2)

-- `while old_index & 1`
unfoldable pub shift_odd : ℕ → ℕ → ℕ → ℕ × ℕ
shift_odd zero o n = (o, n)
shift_odd (suc fuel) o n =
    let rest = shift_odd fuel (o / 2) (n / 2) in if o % 2 == 1 then rest else (o, n)

-- `while old_index and old_index & 1 == 0`
unfoldable pub shift_even : ℕ → ℕ → ℕ → ℕ × ℕ
shift_even zero o n = (o, n)
shift_even (suc fuel) o n =
    let rest = shift_even fuel (o / 2) (n / 2) in
    if not (o == 0) && (o % 2 == 0) then rest else (o, n)

abbrev is_hash : Bytes → Bool
is_hash b = length b == 32

abbrev all_hashes : List Bytes → Bool
all_hashes [] = true
all_hashes (b ∷ bs) = is_hash b && all_hashes bs

abbrev no_nodes : List Bytes → Bool
no_nodes [] = true
no_nodes (b ∷ bs) = false

module _ (sha256 : Bytes → Bytes) where
  -- The loop over the nodes, and the comparisons after it.
  unfoldable pub consistency_loop : Bytes → Bytes → ℕ × ℕ → Bytes → Bytes → List Bytes → Bool
  consistency_loop old_root new_root (o, n) old_hash new_hash [] =
      (n == 0) && (bytes_eq old_hash old_root && bytes_eq new_hash new_root)
  consistency_loop old_root new_root (o, n) old_hash new_hash (node ∷ nodes) =
      let (o', n') = shift_even o o n in
      let joined =
        consistency_loop old_root new_root (o' / 2, n' / 2) (node_hash sha256 node old_hash)
          (node_hash sha256 node new_hash) nodes in
      let carried =
        consistency_loop old_root new_root (o / 2, n / 2) old_hash (node_hash sha256 new_hash node)
          nodes in
      if n == 0 then false else if (o % 2 == 1) || (o == n) then joined else carried

  unfoldable pub consistency_start : Bytes → Bytes → ℕ × ℕ → List Bytes → Bool
  consistency_start old_root new_root indices [] = false
  consistency_start old_root new_root indices (first ∷ nodes) =
      consistency_loop old_root new_root indices first first nodes

  unfoldable pub verify_consistency : ℕ → ℕ → Bytes → Bytes → List Bytes → Bool
  verify_consistency old_size new_size old_root new_root proof =
      let indices = shift_odd old_size (old_size - 1) (new_size - 1) in
      if ltb new_size old_size
        || (not (is_hash old_root) || (not (is_hash new_root) || not (all_hashes proof)))
      then false
      else if old_size == 0
      then no_nodes proof
        && (bytes_eq old_root (sha256 []) && (ltb 0 new_size || bytes_eq new_root old_root))
      else if old_size == new_size
      then no_nodes proof && bytes_eq old_root new_root
      else if bit_and old_size old_size (old_size - 1) == 0
      then consistency_loop old_root new_root indices old_root old_root proof
      else consistency_start old_root new_root indices proof
