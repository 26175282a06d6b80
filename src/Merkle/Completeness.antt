-- ===== src/Merkle/Completeness.antt =====
-- `_inclusion_proof` of dnsid/c2sp_tlog/stream_source.py, and what `verify_inclusion` of
-- dnsid/c2sp_tlog/merkle.py makes of the proofs it builds.
use dnsid_py.Base.{
  ℕ, zero, suc, ◌+◌, ◌-◌, ◌*◌, ◌/◌, ◌%◌, ◌≤◌, ◌<◌, ◌≡◌, refl, sym, ap, ◌∙◌, true, Bool-cases,
  Option-cases, Option, none, some, List, [], ◌∷◌, ◌++◌, map, inl, inr, Bytes, bytes_eq_refl,
  length, get_elem?, ◌==◌, leb, ==_iff, if◌then◌else◌, arith,
}
use mathlib.Core.Path.{subst}
use dnsid_py.Merkle.{
  leaf_hash, node_hash, inclusion_step, inclusion_loop, inclusion_root, verify_inclusion,
  next_level, reduce_levels, merkle_root_from_entries,
}

get_elem?-some {ℓ} :
    {A : Type ℓ} (xs : List A) (i : ℕ) → i < length xs → (a : A) × (get_elem? xs i ≡ some a)
get_elem?-some [] i h = elim h [ ]
get_elem?-some (x ∷ xs) zero h = (x, refl)
get_elem?-some (x ∷ xs) (suc i) h = get_elem?-some xs i (omega arith)

lt_of_get_elem? {ℓ} :
    {A : Type ℓ} (xs : List A) (i : ℕ) {a : A} → get_elem? xs i ≡ some a → i < length xs
lt_of_get_elem? [] i h = cc
lt_of_get_elem? (x ∷ xs) zero h = omega arith
lt_of_get_elem? (x ∷ xs) (suc i) h = omega (arith, lt_of_get_elem? xs i h)

le_of_get_elem? {ℓ} : {A : Type ℓ} (xs : List A) (i : ℕ) → get_elem? xs i ≡ none → length xs ≤ i
le_of_get_elem? [] i h = omega arith
le_of_get_elem? (x ∷ xs) zero h = cc
le_of_get_elem? (x ∷ xs) (suc i) h = omega (arith, le_of_get_elem? xs i h)

-- The neighbour that is hashed with the node at `i`, if the level has one.
abbrev to_list : Option Bytes → List Bytes
to_list none = []
to_list (some s) = s ∷ []

abbrev sibling : List Bytes → ℕ → List Bytes
sibling level i = to_list (get_elem? level (if i % 2 == 1 then i - 1 else i + 1))

module _ (sha256 : Bytes → Bytes) where
  -- The siblings on the way from place `i` of a level to the root, as RFC 6962 defines PATH.
  unfoldable pub audit_path : ℕ → List Bytes → ℕ → List Bytes
  audit_path fuel [] i = []
  audit_path fuel (x ∷ []) i = []
  audit_path zero (x ∷ y ∷ rest) i = []
  audit_path (suc fuel) (x ∷ y ∷ rest) i =
      sibling (x ∷ y ∷ rest) i ++ audit_path fuel (next_level sha256 (x ∷ y ∷ rest)) (i / 2)

  length-next_level : (l : List Bytes) → length (next_level sha256 l) ≡ (length l + 1) / 2
  unfolding next_level
  length-next_level [] = omega arith
  length-next_level (x ∷ []) = omega arith
  length-next_level (x ∷ y ∷ rest) = omega (arith, length-next_level rest)

  next_level-pair :
      (l : List Bytes) (i k : ℕ) (a b : Bytes)
      → i ≡ 2 * k
      → get_elem? l i ≡ some a
      → get_elem? l (suc i) ≡ some b
      → get_elem? (next_level sha256 l) k ≡ some (node_hash sha256 a b)
  unfolding next_level
  next_level-pair [] i k a b e ha hb = cc
  next_level-pair (x ∷ []) i k a b e ha hb = cc
  next_level-pair (x ∷ y ∷ rest) zero zero a b e ha hb = cc
  next_level-pair (x ∷ y ∷ rest) zero (suc k) a b e ha hb = absurd (omega arith)
  next_level-pair (x ∷ y ∷ rest) (suc zero) k a b e ha hb = absurd (omega arith)
  next_level-pair (x ∷ y ∷ rest) (suc (suc i)) zero a b e ha hb = absurd (omega arith)
  next_level-pair (x ∷ y ∷ rest) (suc (suc i)) (suc k) a b e ha hb =
      next_level-pair rest i k a b (omega arith) ha hb

  next_level-last :
      (l : List Bytes) (i k : ℕ) (a : Bytes)
      → i ≡ 2 * k
      → length l ≡ suc i
      → get_elem? l i ≡ some a
      → get_elem? (next_level sha256 l) k ≡ some a
  unfolding next_level
  next_level-last [] i k a e n h = cc
  next_level-last (x ∷ []) zero zero a e n h = h
  next_level-last (x ∷ []) zero (suc k) a e n h = absurd (omega arith)
  next_level-last (x ∷ []) (suc i) k a e n h = absurd (omega arith)
  next_level-last (x ∷ y ∷ rest) zero k a e n h = absurd (omega arith)
  next_level-last (x ∷ y ∷ rest) (suc zero) k a e n h = absurd (omega arith)
  next_level-last (x ∷ y ∷ rest) (suc (suc i)) zero a e n h = absurd (omega arith)
  next_level-last (x ∷ y ∷ rest) (suc (suc i)) (suc k) a e n h =
      next_level-last rest i k a (omega arith) (omega arith) h

  -- From the last place of a level on, every sibling is a left one.
  all_left : Bytes → List Bytes → Bytes
  all_left h [] = h
  all_left h (s ∷ proof) = all_left (node_hash sha256 s h) proof

  inclusion_loop-last :
      (i n : ℕ) (h : Bytes) (proof : List Bytes)
      → suc i ≡ n
      → inclusion_loop sha256 i n h proof ≡ all_left h proof
  unfolding inclusion_loop all_left
  inclusion_loop-last i n h [] e = refl
  inclusion_loop-last i n h (s ∷ proof) e =
      rw (left) (inclusion_loop-last (i / 2) ((n + 1) / 2) _ proof (omega arith))
    where
      left : inclusion_step sha256 i n h s ≡ node_hash sha256 s h
      left = unfold inclusion_step in ground arith

  step-odd :
      (i n : ℕ) (h s : Bytes) → i % 2 ≡ 1 → inclusion_step sha256 i n h s ≡ node_hash sha256 s h
  unfolding inclusion_step
  step-odd i n h s e = ground arith

  step-even :
      (i n : ℕ) (h s : Bytes)
      → i % 2 ≡ 0
      → suc i < n
      → inclusion_step sha256 i n h s ≡ node_hash sha256 h s
  unfolding inclusion_step
  step-even i n h s e lt = ground arith

  -- One level: the rest of the path serves whatever hash stands above place `i`.
  level_step :
      (level : List Bytes) (i : ℕ) (h root : Bytes) (path : List Bytes)
      → get_elem? level i ≡ some h
      → ((p : Bytes)
          → get_elem? (next_level sha256 level) (i / 2) ≡ some p
          → inclusion_loop sha256 (i / 2) (length (next_level sha256 level)) p path ≡ root)
      → inclusion_loop sha256 i (length level) h (sibling level i ++ path) ≡ root
  level_step level i h root path at above = elim (Bool-cases (i % 2 == 1)) [
    | inl odd ↦
        let i-odd : i % 2 ≡ 1 = (==_iff _ _).0 odd in
        let (s, e) = get_elem?-some level (i - 1) (omega (arith, lt_of_get_elem? level i at)) in
        let at' : get_elem? level (suc (i - 1)) ≡ some h =
          subst (λ (j : ℕ). get_elem? level j ≡ some h) (omega arith) at in
        let up = next_level-pair level (i - 1) (i / 2) s h (omega arith) e at' in
        rw (odd, e)
          (unfold inclusion_loop in
            rw (step-odd i (length level) h s i-odd, ← length-next_level level) (above _ up))
    | inr even ↦
        let i-even : i % 2 ≡ 0 = ground arith in
        elim (Option-cases (get_elem? level (i + 1))) [
          | inl missing ↦
              let whole : length level ≡ suc i =
                omega (arith, lt_of_get_elem? level i at, le_of_get_elem? level (i + 1) missing) in
              let up = next_level-last level i (i / 2) h (omega arith) whole at in
              rw (even, missing)
                (inclusion_loop-last i (length level) h path (sym whole)
                  ∙ sym (
                      inclusion_loop-last (i / 2) (length (next_level sha256 level)) h path
                        (omega (arith, length-next_level level)))
                  ∙ above h up)
          | inr (s, e) ↦
              let e' : get_elem? level (suc i) ≡ some s =
                subst (λ (j : ℕ). get_elem? level j ≡ some s) (omega arith) e in
              let up = next_level-pair level i (i / 2) h s (omega arith) at e' in
              rw (even, e)
                (unfold inclusion_loop in
                  rw
                    (
                      step-even i (length level) h s i-even (lt_of_get_elem? level (suc i) e'),
                      ← length-next_level level,
                    )
                    (above _ up))
        ]
  ]

  audit_path_lem :
      (fuel : ℕ) (level : List Bytes) (i : ℕ) (h root : Bytes)
      → get_elem? level i ≡ some h
      → reduce_levels sha256 fuel level ≡ some root
      → inclusion_loop sha256 i (length level) h (audit_path fuel level i) ≡ root
  unfolding reduce_levels audit_path inclusion_loop
  audit_path_lem fuel [] i h root at built = cc
  audit_path_lem fuel (x ∷ []) zero h root at built = cc
  audit_path_lem fuel (x ∷ []) (suc i) h root at built = cc
  audit_path_lem zero (x ∷ y ∷ rest) i h root at built = cc
  audit_path_lem (suc fuel) (x ∷ y ∷ rest) i h root at built =
      level_step (x ∷ y ∷ rest) i h root
        (audit_path fuel (next_level sha256 (x ∷ y ∷ rest)) (i / 2)) at
        (λ p up. audit_path_lem fuel (next_level sha256 (x ∷ y ∷ rest)) (i / 2) p root up built)

  get_elem?-map_leaf :
      (es : List Bytes) (i : ℕ) {e : Bytes}
      → get_elem? es i ≡ some e
      → get_elem? (map (leaf_hash sha256) es) i ≡ some (leaf_hash sha256 e)
  get_elem?-map_leaf [] i h = cc
  get_elem?-map_leaf (x ∷ es) zero h = cc
  get_elem?-map_leaf (x ∷ es) (suc i) h = get_elem?-map_leaf es i h

  length-map_leaf : (es : List Bytes) → length (map (leaf_hash sha256) es) ≡ length es
  length-map_leaf [] = refl
  length-map_leaf (x ∷ es) = ap suc (length-map_leaf es)

  -- `_inclusion_proof`; `none` is the error for an index out of range.
  unfoldable pub inclusion_proof : List Bytes → ℕ → Option (List Bytes)
  inclusion_proof es index =
      if leb (length es) index
      then none
      else some (audit_path (length es) (map (leaf_hash sha256) es) index)

  accepted :
      (entry root : Bytes) (index size : ℕ) (proof : List Bytes)
      → index < size
      → inclusion_loop sha256 index size (leaf_hash sha256 entry) proof ≡ root
      → verify_inclusion sha256 entry index size root proof ≡ some true
  unfolding verify_inclusion inclusion_root
  accepted entry root index size proof inside e = ground (arith, bytes_eq_refl root)

  -- At every index of an entry list `_inclusion_proof` builds a proof, and `verify_inclusion`
  -- accepts it for the entry there against the root that `merkle_root_from_entries` computes.
  pub verify_inclusion-inclusion_proof :
      (es : List Bytes) (index : ℕ) (entry root : Bytes)
      → get_elem? es index ≡ some entry
      → merkle_root_from_entries sha256 es ≡ some root
      → (proof : List Bytes) × (inclusion_proof es index ≡ some proof)
        × (verify_inclusion sha256 entry index (length es) root proof ≡ some true)
  unfolding inclusion_proof merkle_root_from_entries
  verify_inclusion-inclusion_proof [] index entry root at built = cc
  verify_inclusion-inclusion_proof (e ∷ es) index entry root at built =
      let level = map (leaf_hash sha256) (e ∷ es) in
      let climbed =
        audit_path_lem (length (e ∷ es)) level index (leaf_hash sha256 entry) root
          (get_elem?-map_leaf (e ∷ es) index at) built in
      let proof = audit_path (length (e ∷ es)) level index in
      let inside = lt_of_get_elem? (e ∷ es) index at in
      (
        proof,
        ground (arith, inside),
        accepted entry root index (length (e ∷ es)) proof inside (
            subst (λ (n : ℕ). inclusion_loop sha256 index n (leaf_hash sha256 entry) proof ≡ root)
              (length-map_leaf (e ∷ es)) climbed),
      )

  -- The length of a proof is not checked: a proof of one sibling that is accepted for the last
  -- entry of a tree of two or more is also accepted for the same entry at index 1.
  pub verify_inclusion_last :
      (entry root sibling : Bytes) (n : ℕ)
      → 1 < n
      → verify_inclusion sha256 entry (n - 1) n root (sibling ∷ []) ≡ some true
      → verify_inclusion sha256 entry 1 n root (sibling ∷ []) ≡ some true
  unfolding verify_inclusion inclusion_root inclusion_loop inclusion_step
  verify_inclusion_last entry root sibling n h e = ground arith
