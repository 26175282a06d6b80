-- ===== src/Merkle/Soundness.antt =====
-- An accepted inclusion proof (dnsid/c2sp_tlog/merkle.py) shows that the entry stands in the
-- tree, unless it exhibits a collision of the hash function.
use dnsid_py.Base.{
  ℕ, ◌+◌, ◌-◌, ◌/◌, ◌%◌, ◌≡◌, ◌≢◌, ◌⊎◌, inl, inr, refl, sym, ap, ◌∙◌, Bool, true, false, Bool-cases,
  some, List, [], ◌∷◌, ◌++◌, Bytes, bytes_eq, bytes_eq_iff, length, append-cancel, length-append,
  In, In-append, leb, ◌==◌, ◌||◌, arith,
}
use mathlib.Core.Path.{subst}
use dnsid_py.Merkle.{
  leaf_hash, node_hash, inclusion_step, inclusion_loop, inclusion_root, verify_inclusion,
  merkle_root_from_entries,
}
use dnsid_py.Merkle.Tree.{Tree, leaf, node, leaves, tree_hash, root-tree}

-- Two inputs with one hash.
abbrev pub Collision : (Bytes → Bytes) → Type 0
Collision sha256 = (x : Bytes) × (y : Bytes) × (x ≢ y) × (sha256 x ≡ sha256 y)

-- The siblings of a path, the one at the root first; `true` marks a left sibling.
abbrev Steps : Type 0
Steps = List (Bool × Bytes)

steps : ℕ → ℕ → List Bytes → Steps → Steps
steps i n [] above = above
steps i n (s ∷ proof) above =
    steps (i / 2) ((n + 1) / 2) proof (((i % 2 == 1) || leb (n - 1) i, s) ∷ above)

module _ (sha256 : Bytes → Bytes) where
  abbrev hash_step : Bool → Bytes → Bytes → Bytes
  hash_step true s h = node_hash sha256 s h
  hash_step false s h = node_hash sha256 h s

  abbrev climb : Bytes → Steps → Bytes
  climb h [] = h
  climb h ((left, s) ∷ below) = hash_step left s (climb h below)

  inclusion_step-hash_step :
      (i n : ℕ) (h s : Bytes)
      → inclusion_step sha256 i n h s ≡ hash_step ((i % 2 == 1) || leb (n - 1) i) s h
  unfolding inclusion_step
  inclusion_step-hash_step i n h s = ground arith

  inclusion_loop-climb :
      (i n : ℕ) (h : Bytes) (proof : List Bytes) (above : Steps)
      → inclusion_loop sha256 i n (climb h above) proof ≡ climb h (steps i n proof above)
  unfolding inclusion_loop steps
  inclusion_loop-climb i n h [] above = refl
  inclusion_loop-climb i n h (s ∷ proof) above = rw inclusion_step-hash_step (
      inclusion_loop-climb (i / 2) ((n + 1) / 2) h proof
        (((i % 2 == 1) || leb (n - 1) i, s) ∷ above))

  same_input : (x y : Bytes) → sha256 x ≡ sha256 y → (x ≡ y) ⊎ Collision sha256
  same_input x y e = elim (Bool-cases (bytes_eq x y)) [
    | inl same ↦ inl ((bytes_eq_iff x y).0 same)
    | inr other ↦ inr (x, y, (λ p. cc (other, (bytes_eq_iff x y).1 p)), e)
  ]

  -- A parent's hash fixes both children, if one of each pair has the length of a hash.
  same_children :
      (a b c d : Bytes)
      → node_hash sha256 a b ≡ node_hash sha256 c d
      → (length a ≡ length c) ⊎ (length b ≡ length d)
      → ((a ≡ c) × (b ≡ d)) ⊎ Collision sha256
  unfolding node_hash
  same_children a b c d e sizes = elim (same_input (1 ∷ (a ++ b)) (1 ∷ (c ++ d)) e) [
    | inr found ↦ inr found
    | inl same ↦
        let joined : a ++ b ≡ c ++ d = cc in
        inl (
          append-cancel a b c d
            (omega (arith, sizes, ap length joined, length-append {0} a b, length-append {0} c d))
            joined)
  ]

  -- The prefixes keep leaves and inner nodes apart.
  leaf_or_node : (x a b : Bytes) → leaf_hash sha256 x ≡ node_hash sha256 a b → Collision sha256
  unfolding leaf_hash node_hash
  leaf_or_node x a b h = (0 ∷ x, 1 ∷ (a ++ b), (λ p. cc), h)

  same_leaf : (x y : Bytes) → leaf_hash sha256 x ≡ leaf_hash sha256 y → (x ≡ y) ⊎ Collision sha256
  unfolding leaf_hash
  same_leaf x y h = elim (same_input (0 ∷ x) (0 ∷ y) h) [
    | inl same ↦ inl (cc)
    | inr found ↦ inr found
  ]

  node_or_leaf :
      (left : Bool) (s h x : Bytes) → hash_step left s h ≡ leaf_hash sha256 x → Collision sha256
  node_or_leaf true s h x e = leaf_or_node x s h (sym e)
  node_or_leaf false s h x e = leaf_or_node x h s (sym e)

  module _ (size : (x : Bytes) → length (sha256 x) ≡ 32) where
    length-tree_hash : (t : Tree) → length (tree_hash sha256 t) ≡ 32
    unfolding leaf_hash node_hash
    length-tree_hash (leaf e) = size _
    length-tree_hash (node l r) = size _

    length-climb : (e : Bytes) (p : Steps) → length (climb (leaf_hash sha256 e) p) ≡ 32
    unfolding leaf_hash node_hash
    length-climb e [] = size _
    length-climb e ((true, s) ∷ below) = size _
    length-climb e ((false, s) ∷ below) = size _

    either_side :
        (e : Bytes) (ls rs : List Bytes)
        → (In e ls ⊎ In e rs) ⊎ Collision sha256
        → In e (ls ++ rs) ⊎ Collision sha256
    either_side e ls rs (inl m) = inl ((In-append e ls rs).1 m)
    either_side e ls rs (inr found) = inr found

    climb-In :
        (e : Bytes) (t : Tree) (p : Steps)
        → climb (leaf_hash sha256 e) p ≡ tree_hash sha256 t
        → In e (leaves t) ⊎ Collision sha256
    climb-In e (leaf x) [] h = elim (same_leaf e x h) [
      | inl same ↦ inl (inl same)
      | inr found ↦ inr found
    ]
    climb-In e (leaf x) ((left, s) ∷ below) h = inr (node_or_leaf left s _ x h)
    climb-In e (node l r) [] h = inr (leaf_or_node e _ _ h)
    climb-In e (node l r) ((true, s) ∷ below) h =
        elim (same_children s _ _ _ h (inr (length-climb e below ∙ sym (length-tree_hash r)))) [
          | inl (hs, hb) ↦
              either_side e (leaves l) (leaves r)
                (elim (climb-In e r below hb) [ inl m ↦ inl (inr m) | inr found ↦ inr found ])
          | inr found ↦ inr found
        ]
    climb-In e (node l r) ((false, s) ∷ below) h =
        elim (same_children _ s _ _ h (inl (length-climb e below ∙ sym (length-tree_hash l)))) [
          | inl (hb, hs) ↦
              either_side e (leaves l) (leaves r)
                (elim (climb-In e l below hb) [ inl m ↦ inl (inl m) | inr found ↦ inr found ])
          | inr found ↦ inr found
        ]

    -- If an inclusion proof of `entry`, at any index and of any length, is accepted against the
    -- root that `merkle_root_from_entries` computes from a list with an entry, then `entry` is in
    -- that list, or two different inputs with one hash are at hand. It is assumed that hashes
    -- have 32 bytes.
    pub verify_inclusion-In :
        (e : Bytes) (es : List Bytes) (entry root_hash : Bytes) (index tree_size : ℕ)
        (proof : List Bytes)
        → merkle_root_from_entries sha256 (e ∷ es) ≡ some root_hash
        → verify_inclusion sha256 entry index tree_size root_hash proof ≡ some true
        → In entry (e ∷ es) ⊎ Collision sha256
    unfolding verify_inclusion inclusion_root
    verify_inclusion-In e es entry root_hash index tree_size proof built accepted =
        let (t, hash, ls) = root-tree sha256 e es in
        let computed : bytes_eq
              (inclusion_loop sha256 index tree_size (leaf_hash sha256 entry) proof) root_hash
            ≡ true =
          ground arith in
        let same = (bytes_eq_iff _ _).0 computed in
        subst (λ listed. In entry listed ⊎ Collision sha256) ls
          (climb-In entry t (steps index tree_size proof []) (
            sym (inclusion_loop-climb index tree_size (leaf_hash sha256 entry) proof [])
            ∙ same
            ∙ cc))
