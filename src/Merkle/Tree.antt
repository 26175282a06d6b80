-- ===== src/Merkle/Tree.antt =====
-- The tree that the root of an entry list stands for, as an independent description of
-- `merkle_root_from_entries` (dnsid/c2sp_tlog/merkle.py).
use dnsid_py.Base.{
  ℕ, zero, suc, ◌≤◌, ◌≡◌, refl, sym, ap, ◌∙◌, some, List, [], ◌∷◌, ◌++◌, map, append_assoc,
  append-nil, Bytes, length, arith,
}
use dnsid_py.Merkle.{leaf_hash, node_hash, next_level, reduce_levels, merkle_root_from_entries}

pub data Tree : Type 0 where
  leaf : Bytes → Tree
  node : Tree → Tree → Tree

abbrev pub leaves : Tree → List Bytes
leaves (leaf e) = e ∷ []
leaves (node l r) = leaves l ++ leaves r

abbrev all_leaves : List Tree → List Bytes
all_leaves [] = []
all_leaves (t ∷ ts) = leaves t ++ all_leaves ts

next_trees : List Tree → List Tree
next_trees [] = []
next_trees (x ∷ []) = x ∷ []
next_trees (x ∷ y ∷ rest) = node x y ∷ next_trees rest

all_leaves-next_trees : (ts : List Tree) → all_leaves (next_trees ts) ≡ all_leaves ts
unfolding next_trees
all_leaves-next_trees [] = refl
all_leaves-next_trees (x ∷ []) = refl
all_leaves-next_trees (x ∷ y ∷ rest) = simp (append_assoc, all_leaves-next_trees rest)

length-next_trees : (ts : List Tree) → length (next_trees ts) ≤ length ts
unfolding next_trees
length-next_trees [] = omega arith
length-next_trees (x ∷ []) = omega arith
length-next_trees (x ∷ y ∷ rest) = omega (arith, length-next_trees rest)

all_leaves-map : (es : List Bytes) → all_leaves (map leaf es) ≡ es
all_leaves-map [] = refl
all_leaves-map (e ∷ es) = ap (λ r. e ∷ r) (all_leaves-map es)

length-map-leaf : (es : List Bytes) → length (map leaf es) ≡ length es
length-map-leaf [] = refl
length-map-leaf (e ∷ es) = ap suc (length-map-leaf es)

module _ (sha256 : Bytes → Bytes) where
  abbrev pub tree_hash : Tree → Bytes
  tree_hash (leaf e) = leaf_hash sha256 e
  tree_hash (node l r) = node_hash sha256 (tree_hash l) (tree_hash r)

  map-next_trees :
      (ts : List Tree) → map tree_hash (next_trees ts) ≡ next_level sha256 (map tree_hash ts)
  unfolding next_trees next_level
  map-next_trees [] = refl
  map-next_trees (x ∷ []) = refl
  map-next_trees (x ∷ y ∷ rest) =
      ap (λ r. node_hash sha256 (tree_hash x) (tree_hash y) ∷ r) (map-next_trees rest)

  map-leaf : (es : List Bytes) → map tree_hash (map leaf es) ≡ map (leaf_hash sha256) es
  map-leaf [] = refl
  map-leaf (e ∷ es) = ap (λ r. leaf_hash sha256 e ∷ r) (map-leaf es)

  reduce_levels-tree :
      (fuel : ℕ) (t : Tree) (ts : List Tree)
      → length ts ≤ fuel
      → (r : Tree) × (reduce_levels sha256 fuel (map tree_hash (t ∷ ts)) ≡ some (tree_hash r))
        × (leaves r ≡ all_leaves (t ∷ ts))
  unfolding reduce_levels next_trees next_level
  reduce_levels-tree fuel t [] h = (t, refl, sym (append-nil (leaves t)))
  reduce_levels-tree zero t (u ∷ ts) h = absurd (omega arith)
  reduce_levels-tree (suc fuel) t (u ∷ ts) h =
      let (r, e, l) =
        reduce_levels-tree fuel (node t u) (next_trees ts) (omega (arith, length-next_trees ts)) in
      (r, rw (← map-next_trees ts) e, l ∙ all_leaves-next_trees (t ∷ u ∷ ts))

  -- A list with an entry has a root, and it is the hash of a tree whose leaves, from left to
  -- right, are the entries.
  pub root-tree :
      (e : Bytes) (es : List Bytes)
      → (t : Tree) × (merkle_root_from_entries sha256 (e ∷ es) ≡ some (tree_hash t))
        × (leaves t ≡ e ∷ es)
  unfolding merkle_root_from_entries
  root-tree e es =
      let (t, h, l) =
        reduce_levels-tree (length (e ∷ es)) (leaf e) (map leaf es)
          (omega (arith, length-map-leaf es)) in
      (t, rw (← map-leaf es) h, l ∙ ap (λ r. e ∷ r) (all_leaves-map es))

  -- The root of no entries is the hash of the empty text.
  pub root-nil : merkle_root_from_entries sha256 [] ≡ some (sha256 [])
  unfolding merkle_root_from_entries
  root-nil = refl
