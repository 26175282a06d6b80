-- ===== src/Merkle/Runs.antt =====
-- Runs of the Merkle functions (dnsid/c2sp_tlog/merkle.py) over a toy hash of 32 bytes.
use dnsid_py.Base.{bytes_eq}
use dnsid_py.Merkle.Consistency.{
  bit_and, shift_odd, shift_even, consistency_loop, verify_consistency,
}
use dnsid_py.Base.{
  ℕ, ◌+◌, ◌*◌, ◌≡◌, refl, ◌⊎◌, true, some, List, [], ◌∷◌, Bytes, length, replicate, In, arith,
}
use dnsid_py.Merkle.{
  leaf_hash, node_hash, verify_inclusion, next_level, reduce_levels, merkle_root_from_entries,
}
use dnsid_py.Merkle.Tree.{Tree, leaves, tree_hash, root-tree}
use dnsid_py.Merkle.Soundness.{Collision, verify_inclusion-In}
use dnsid_py.Merkle.Completeness.{
  audit_path, inclusion_proof, verify_inclusion-inclusion_proof, verify_inclusion_last,
}

checksum : ℕ → Bytes → ℕ
checksum acc [] = acc
checksum acc (b ∷ bs) = checksum (acc * 3 + b + 1) bs

toy : Bytes → Bytes
toy x = replicate 32 (checksum 0 x)

length-toy : (x : Bytes) → length (toy x) ≡ 32
unfolding toy
length-toy x = refl

abbrev five : List Bytes
five = (1 ∷ []) ∷ (2 ∷ 2 ∷ []) ∷ (3 ∷ []) ∷ (4 ∷ []) ∷ (5 ∷ []) ∷ []

abbrev leaf_of : Bytes → Bytes
leaf_of = leaf_hash toy

abbrev root_four : Bytes
root_four =
    node_hash toy (node_hash toy (leaf_of (1 ∷ [])) (leaf_of (2 ∷ 2 ∷ [])))
      (node_hash toy (leaf_of (3 ∷ [])) (leaf_of (4 ∷ [])))

abbrev root_five : Bytes
root_five = node_hash toy root_four (leaf_of (5 ∷ []))

root_of_five : merkle_root_from_entries toy five ≡ some root_five
unfolding merkle_root_from_entries reduce_levels next_level
root_of_five = refl

proof_of_last : inclusion_proof toy five 4 ≡ some (root_four ∷ [])
unfolding inclusion_proof audit_path next_level
proof_of_last = refl

last_accepted : verify_inclusion toy (5 ∷ []) 4 5 root_five (root_four ∷ []) ≡ some true
last_accepted =
    let (proof, built, accepted) =
      verify_inclusion-inclusion_proof toy five 4 (5 ∷ []) root_five refl root_of_five in
    let same : proof ≡ root_four ∷ [] = cc (proof_of_last) in rw same at accepted

root-tree_example :
    (t : Tree) × (merkle_root_from_entries toy five ≡ some (tree_hash toy t)) × (leaves t ≡ five)
root-tree_example = root-tree toy (1 ∷ []) ((2 ∷ 2 ∷ []) ∷ (3 ∷ []) ∷ (4 ∷ []) ∷ (5 ∷ []) ∷ [])

verify_inclusion-inclusion_proof_example :
    (proof : List Bytes) × (inclusion_proof toy five 2 ≡ some proof)
    × (verify_inclusion toy (3 ∷ []) 2 5 root_five proof ≡ some true)
verify_inclusion-inclusion_proof_example =
    verify_inclusion-inclusion_proof toy five 2 (3 ∷ []) root_five refl root_of_five

verify_inclusion-In_example : In (5 ∷ []) five ⊎ Collision toy
verify_inclusion-In_example =
    verify_inclusion-In toy length-toy (1 ∷ []) ((2 ∷ 2 ∷ []) ∷ (3 ∷ []) ∷ (4 ∷ []) ∷ (5 ∷ []) ∷ [])
      (5 ∷ []) root_five 4 5 (root_four ∷ []) root_of_five last_accepted

verify_inclusion_last_example :
    verify_inclusion toy (5 ∷ []) 1 5 root_five (root_four ∷ []) ≡ some true
verify_inclusion_last_example =
    verify_inclusion_last toy (5 ∷ []) root_five root_four 5 (omega arith) last_accepted

four_then_five : verify_consistency toy 4 5 root_four root_five (leaf_hash toy (5 ∷ []) ∷ []) ≡ true
unfolding verify_consistency consistency_loop shift_odd shift_even bit_and leaf_hash node_hash toy
    checksum bytes_eq
four_then_five = refl

five_again : verify_consistency toy 5 5 root_five root_five [] ≡ true
unfolding verify_consistency leaf_hash node_hash toy checksum bytes_eq
five_again = refl
