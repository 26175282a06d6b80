-- ===== src/Policy/Enforce/Timestamps.antt =====
-- Where the timestamps of an accepted quorum come from (dnsid/c2sp_tlog/policy.py).
use dnsid_py.Base.{ap}
use dnsid_py.Base.{◌∙◌}
use dnsid_py.Base.{
  ℕ, zero, suc, ◌*◌, ◌≤◌, ◌≡◌, refl, Option, none, some, List, [], ◌∷◌, ◌++◌, length, take, ltb,
  leb, leb→le, Bool-cases, Option-cases, inl, inr, In, In-append, All, arith,
}
use dnsid_py.Base.Result.{ok, bind_ok}
use dnsid_py.SignedNote.{SignedNoteKey}
use dnsid_py.Policy.{
  parsed, text, Rule, Rules, no_rule, witness, threshold, unsupported, end, also, ge_key,
  insert_by_key, sort_by_key, concat, pick, witness_result, evaluate_quorum, evaluate_members,
  add_satisfied,
}
use dnsid_py.Policy.Enforce.{collect_keys, collect_all}

module _ {A : Type 0} where
  pub All-map : (P Q : A → Type 0) (l : List A) → ((a : A) → P a → Q a) → All P l → All Q l
  All-map P Q [] f h = tt
  All-map P Q (a ∷ l) f (h, hs) = (f a h, All-map P Q l f hs)

  All-append : (P : A → Type 0) (a b : List A) → All P a → All P b → All P (a ++ b)
  All-append P [] b h k = k
  All-append P (x ∷ a) b (h, hs) k = (h, All-append P a b hs k)

  All-take : (P : A → Type 0) (n : ℕ) (l : List A) → All P l → All P (take n l)
  All-take P zero l h = tt
  All-take P (suc n) [] h = tt
  All-take P (suc n) (a ∷ l) (h, hs) = (h, All-take P n l hs)

module _ (P : ℕ → Type 0) where
  All-insert_by_key :
      (a : List ℕ) (l : List (List ℕ)) → All P a → All (All P) l → All (All P) (insert_by_key a l)
  unfolding insert_by_key
  All-insert_by_key a [] h hs = (h, tt)
  All-insert_by_key a (b ∷ l) h (k, hs) = elim (Bool-cases (ge_key a b)) [
    | inl g ↦ rw g (h, (k, hs))
    | inr g ↦ rw g (k, All-insert_by_key a l h hs)
  ]

  All-sort_by_key : (l : List (List ℕ)) → All (All P) l → All (All P) (sort_by_key l)
  unfolding sort_by_key
  All-sort_by_key [] h = tt
  All-sort_by_key (a ∷ l) (h, hs) = All-insert_by_key a (sort_by_key l) h (All-sort_by_key l hs)

  All-concat : (l : List (List ℕ)) → All (All P) l → All P (concat l)
  All-concat [] h = tt
  All-concat (a ∷ l) (h, hs) = All-append P a (concat l) h (All-concat l hs)

  All-pick :
      (n : ℕ) (l : List (List ℕ)) (ts : List ℕ) → pick n l ≡ some ts → All (All P) l → All P ts
  unfolding pick
  All-pick n l ts e h = elim (Bool-cases (ltb (length l) n)) [
    | inl few ↦ absurd (ground arith)
    | inr enough ↦
        let same : concat (take n (sort_by_key l)) ≡ ts = ground arith in
        rw (← same) (
          All-concat (take n (sort_by_key l))
            (All-take (All P) n (sort_by_key l) (All-sort_by_key l h)))
  ]

module _ (stamp : SignedNoteKey → Option ℕ) (limit : ℕ) where
  -- One of the keys has a verified cosignature with this timestamp, not after the limit.
  abbrev pub Vouched : List SignedNoteKey → ℕ → Type 0
  Vouched keys t = (k : SignedNoteKey) × In k keys × (stamp k ≡ some t) × (t * 1000 ≤ limit)

  left : (a b : List SignedNoteKey) (t : ℕ) → Vouched a t → Vouched (a ++ b) t
  left a b t (k, m, p, q) = (k, (In-append k a b).1 (inl m), p, q)

  right : (a b : List SignedNoteKey) (t : ℕ) → Vouched b t → Vouched (a ++ b) t
  right a b t (k, m, p, q) = (k, (In-append k a b).1 (inr m), p, q)

  witness_vouched :
      (k : SignedNoteKey) (ts : List ℕ)
      → witness_result stamp limit k ≡ some ts
      → All (Vouched (k ∷ [])) ts
  unfolding witness_result
  witness_vouched k ts h = elim (Option-cases (stamp k)) [
    | inl e ↦ absurd (ground arith)
    | inr (t, e) ↦ elim (Bool-cases (leb (t * 1000) limit)) [
      | inl early ↦
          let same : t ∷ [] ≡ ts = ground arith in
          rw (← same) ((k, inl refl, e, leb→le _ _ early), tt)
      | inr late ↦ absurd (ground arith)
    ]
  ]

  add_lem :
      (o : Option (List ℕ)) (rest : List (List ℕ)) (a b : List SignedNoteKey)
      → ((ts : List ℕ) → o ≡ some ts → All (Vouched a) ts)
      → All (All (Vouched b)) rest
      → All (All (Vouched (a ++ b))) (add_satisfied o rest)
  add_lem none rest a b here there =
      All-map (All (Vouched b)) (All (Vouched (a ++ b))) rest
        (λ l. All-map (Vouched b) (Vouched (a ++ b)) l (right a b)) there
  add_lem (some ts) rest a b here there = (
    All-map (Vouched a) (Vouched (a ++ b)) ts (left a b) (here ts refl),
    All-map (All (Vouched b)) (All (Vouched (a ++ b))) rest
        (λ l. All-map (Vouched b) (Vouched (a ++ b)) l (right a b)) there,
  )

  mutual
    unfolding evaluate_quorum collect_keys

    pub evaluate_quorum-Vouched :
        (r : Rule) (ts : List ℕ) (keys : List SignedNoteKey)
        → evaluate_quorum stamp limit r ≡ ok (some ts)
        → collect_keys r ≡ ok keys
        → All (Vouched keys) ts
    evaluate_quorum-Vouched no_rule ts keys h c = let same : [] ≡ ts = cc in rw (← same) tt
    evaluate_quorum-Vouched (witness none) ts keys h c = cc
    evaluate_quorum-Vouched (witness (some (text k))) ts keys h c = cc
    evaluate_quorum-Vouched (witness (some (parsed k))) ts keys h c =
        let same : k ∷ [] ≡ keys = cc in rw (← same) (witness_vouched k ts (cc))
    evaluate_quorum-Vouched (threshold n members) ts keys h c =
        let (l, e, p) = bind_ok (evaluate_members stamp limit members) _ h in
        All-pick (Vouched keys) n l ts (cc) (evaluate_members-Vouched members l keys e c)
    evaluate_quorum-Vouched (unsupported kind n members) ts keys h c =
        let (l, e, p) = bind_ok (evaluate_members stamp limit members) _ h in
        All-pick (Vouched keys) n l ts (cc) (evaluate_members-Vouched members l keys e c)

    evaluate_members-Vouched :
        (rs : Rules) (l : List (List ℕ)) (keys : List SignedNoteKey)
        → evaluate_members stamp limit rs ≡ ok l
        → collect_all rs ≡ ok keys
        → All (All (Vouched keys)) l
    evaluate_members-Vouched end l keys h c = let same : [] ≡ l = cc in rw (← same) tt
    evaluate_members-Vouched (also r rs) l keys h c =
        let (o, e, p) = bind_ok (evaluate_quorum stamp limit r) _ h in
        let (rest, f, q) = bind_ok (evaluate_members stamp limit rs) _ p in
        let (a, g, u) = bind_ok (collect_keys r) _ c in
        let (b, i, v) = bind_ok (collect_all rs) _ u in
        let same : add_satisfied o rest ≡ l = cc in
        let keys-same : a ++ b ≡ keys = cc in
        rw (← same, ← keys-same)
          (add_lem o rest a b (λ ts w. evaluate_quorum-Vouched r ts a (e ∙ ap ok w) g)
            (evaluate_members-Vouched rs rest b f i))
