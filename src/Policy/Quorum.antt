-- ===== src/Policy/Quorum.antt =====
-- Which times a quorum rule vouches for (dnsid/c2sp_tlog/policy.py).
use dnsid_py.Base.{
  ℕ, zero, suc, ◌+◌, ◌*◌, ◌≤◌, ◌≡◌, refl, sym, ap, ◌∙◌, Bool, true, false, ◌&&◌, Option, none, some,
  List, [], ◌∷◌, ◌++◌, length, take, ltb, leb, Bool-cases, inl, inr, arith,
}
use mathlib.Core.Path.{ap₂}
use dnsid_py.Base.Result.{ok, bind_ok}
use dnsid_py.SignedNote.{SignedNoteKey}
use dnsid_py.Policy.{
  KeySpec, parsed, text, Rule, Rules, no_rule, witness, threshold, unsupported, end, also, min_of,
  ge_key, insert_by_key, sort_by_key, concat, pick, witness_result, evaluate_quorum,
  evaluate_members, add_satisfied,
}

abbrev one_if : Bool → ℕ
one_if true = 1
one_if false = 0

-- All timestamps of a result are at least `t`.
abbrev pub all_from : ℕ → List ℕ → Bool
all_from t [] = true
all_from t (u ∷ us) = leb t u && all_from t us

count_from : ℕ → List (List ℕ) → ℕ
count_from t [] = 0
count_from t (r ∷ rs) = one_if (all_from t r) + count_from t rs

min_of-all_from : (t u : ℕ) (us : List ℕ) → all_from t (u ∷ us) ≡ leb t (min_of u us)
min_of-all_from t u [] = ground arith
min_of-all_from t u (v ∷ us) = ground (arith, min_of-all_from t v us)

-- A result with a larger key is good where the other is.
ge_key-all_from :
    (t : ℕ) (a b : List ℕ) → ge_key a b ≡ true → all_from t b ≡ true → all_from t a ≡ true
unfolding ge_key
ge_key-all_from t [] b g h = refl
ge_key-all_from t (x ∷ a) [] g h = cc
ge_key-all_from t (x ∷ a) (y ∷ b) g h = ground (arith, min_of-all_from t x a, min_of-all_from t y b)

not-ge_key-all_from :
    (t : ℕ) (a b : List ℕ) → ge_key a b ≡ false → all_from t a ≡ true → all_from t b ≡ true
unfolding ge_key
not-ge_key-all_from t [] b g h = cc
not-ge_key-all_from t (x ∷ a) [] g h = refl
not-ge_key-all_from t (x ∷ a) (y ∷ b) g h =
    ground (arith, min_of-all_from t x a, min_of-all_from t y b)

count_from-insert :
    (t : ℕ) (a : List ℕ) (l : List (List ℕ))
    → count_from t (insert_by_key a l) ≡ one_if (all_from t a) + count_from t l
unfolding insert_by_key count_from
count_from-insert t a [] = refl
count_from-insert t a (b ∷ l) = elim (Bool-cases (ge_key a b)) [
  | inl g ↦ rw g refl
  | inr g ↦ rw g (omega (arith, count_from-insert t a l))
]

count_from-sort : (t : ℕ) (l : List (List ℕ)) → count_from t (sort_by_key l) ≡ count_from t l
unfolding sort_by_key count_from
count_from-sort t [] = refl
count_from-sort t (a ∷ l) =
    omega (arith, count_from-insert t a (sort_by_key l), count_from-sort t l)

length-insert_by_key :
    (a : List ℕ) (l : List (List ℕ)) → length (insert_by_key a l) ≡ suc (length l)
unfolding insert_by_key
length-insert_by_key a [] = refl
length-insert_by_key a (b ∷ l) = elim (Bool-cases (ge_key a b)) [
  | inl g ↦ rw g refl
  | inr g ↦ rw g (ap suc (length-insert_by_key a l))
]

length-sort_by_key : (l : List (List ℕ)) → length (sort_by_key l) ≡ length l
unfolding sort_by_key
length-sort_by_key [] = refl
length-sort_by_key (a ∷ l) = length-insert_by_key a (sort_by_key l) ∙ ap suc (length-sort_by_key l)

-- Behind a result that is not good stands none that is.
abbrev GoodFirst : ℕ → List (List ℕ) → Type 0
GoodFirst t [] = Unit
GoodFirst t (a ∷ l) = (all_from t a ≡ false → count_from t l ≡ 0) × GoodFirst t l

insert-GoodFirst :
    (t : ℕ) (a : List ℕ) (l : List (List ℕ)) → GoodFirst t l → GoodFirst t (insert_by_key a l)
unfolding insert_by_key count_from
insert-GoodFirst t a [] h = (λ e. refl, tt)
insert-GoodFirst t a (b ∷ l) (h, hs) = elim (Bool-cases (ge_key a b)) [
  | inl g ↦ rw g (λ e. none_behind a b l g h e, (h, hs))
  | inr g ↦ rw g (
    λ e.
        let a-bad : all_from t a ≡ false = not_good a b g e in
        rw count_from-insert (omega (arith, h e, ap one_if a-bad)),
    insert-GoodFirst t a l hs,
  )
]
  where
    not_good : (a b : List ℕ) → ge_key a b ≡ false → all_from t b ≡ false → all_from t a ≡ false
    not_good a b g e = elim (Bool-cases (all_from t a)) [
      | inl good ↦ absurd (ground (arith, not-ge_key-all_from t a b g good))
      | inr bad ↦ bad
    ]

    none_behind :
        (a b : List ℕ) (l : List (List ℕ))
        → ge_key a b ≡ true
        → (all_from t b ≡ false → count_from t l ≡ 0)
        → all_from t a ≡ false
        → count_from t (b ∷ l) ≡ 0
    none_behind a b l g h e = elim (Bool-cases (all_from t b)) [
      | inl good ↦ absurd (ground (arith, ge_key-all_from t a b g good))
      | inr bad ↦ omega (arith, h bad, ap one_if bad)
    ]

sort-GoodFirst : (t : ℕ) (l : List (List ℕ)) → GoodFirst t (sort_by_key l)
unfolding sort_by_key
sort-GoodFirst t [] = tt
sort-GoodFirst t (a ∷ l) = insert-GoodFirst t a (sort_by_key l) (sort-GoodFirst t l)

all_from-append : (t : ℕ) (a b : List ℕ) → all_from t (a ++ b) ≡ (all_from t a && all_from t b)
all_from-append t [] b = refl
all_from-append t (x ∷ a) b = ground (arith, all_from-append t a b)

-- The first `n` are all good exactly if at least `n` are good.
take-GoodFirst :
    (t n : ℕ) (l : List (List ℕ))
    → GoodFirst t l
    → n ≤ length l
    → all_from t (concat (take n l)) ≡ leb n (count_from t l)
unfolding count_from
take-GoodFirst t zero l h fits = ground arith
take-GoodFirst t (suc n) [] h fits = absurd (omega arith)
take-GoodFirst t (suc n) (a ∷ l) (h, hs) fits = elim (Bool-cases (all_from t a)) [
  | inl good ↦
      rw (all_from-append t a (concat (take n l)), good)
        (take-GoodFirst t n l hs (omega arith) ∙ ground arith)
  | inr bad ↦ rw (all_from-append t a (concat (take n l)), bad) (ground (arith, h bad))
]

abbrev pub accepted_from : ℕ → Option (List ℕ) → Bool
accepted_from t none = false
accepted_from t (some ts) = all_from t ts

count_from-le : (t : ℕ) (l : List (List ℕ)) → count_from t l ≤ length l
unfolding count_from
count_from-le t [] = omega arith
count_from-le t (a ∷ l) = ground (arith, count_from-le t l)

pick-accepted_from :
    (t n : ℕ) (l : List (List ℕ)) → accepted_from t (pick n l) ≡ leb n (count_from t l)
unfolding pick
pick-accepted_from t n l = elim (Bool-cases (ltb (length l) n)) [
  | inl few ↦ rw few (ground (arith, count_from-le t l))
  | inr enough ↦ rw enough (
      rw (← count_from-sort t l) (
        take-GoodFirst t n (sort_by_key l) (sort-GoodFirst t l)
          (ground (arith, length-sort_by_key l))))
]

-- An independent reading of a rule: the witnesses that count are those whose verified timestamp
-- is at least `t` and not after the limit.
module _ (stamp : SignedNoteKey → Option ℕ) (limit : ℕ) where
  abbrev pub timely : ℕ → Option ℕ → Bool
  timely t none = false
  timely t (some u) = leb t u && leb (u * 1000) limit

  abbrev pub witness_from : ℕ → Option KeySpec → Bool
  witness_from t none = false
  witness_from t (some (text k)) = false
  witness_from t (some (parsed k)) = timely t (stamp k)

  unfoldable mutual
    pub holds_from : ℕ → Rule → Bool
    holds_from t no_rule = true
    holds_from t (witness k) = witness_from t k
    holds_from t (threshold n members) = leb n (count_members t members)
    holds_from t (unsupported kind n members) = leb n (count_members t members)

    pub count_members : ℕ → Rules → ℕ
    count_members t end = 0
    count_members t (also r rs) = one_if (holds_from t r) + count_members t rs

  add_satisfied_lem :
      (t : ℕ) (o : Option (List ℕ)) (rest : List (List ℕ))
      → count_from t (add_satisfied o rest) ≡ one_if (accepted_from t o) + count_from t rest
  unfolding count_from
  add_satisfied_lem t none rest = omega arith
  add_satisfied_lem t (some ts) rest = refl

  mutual
    unfolding holds_from evaluate_quorum witness_result count_members count_from

    evaluate_lem :
        (r : Rule) (o : Option (List ℕ))
        → evaluate_quorum stamp limit r ≡ ok o
        → (t : ℕ) → holds_from t r ≡ accepted_from t o
    evaluate_lem no_rule o h t = ground arith
    evaluate_lem (witness none) o h t = cc
    evaluate_lem (witness (some (text k))) o h t = cc
    evaluate_lem (witness (some (parsed k))) o h t = ground arith
    evaluate_lem (threshold n members) o h t =
        let (l, e, p) = bind_ok (evaluate_members stamp limit members) _ h in
        let same : pick n l ≡ o = cc in
        ap (leb n) (evaluate_members_lem members l e t)
        ∙ sym (pick-accepted_from t n l)
        ∙ ap (accepted_from t) same
    evaluate_lem (unsupported kind n members) o h t =
        let (l, e, p) = bind_ok (evaluate_members stamp limit members) _ h in
        let same : pick n l ≡ o = cc in
        ap (leb n) (evaluate_members_lem members l e t)
        ∙ sym (pick-accepted_from t n l)
        ∙ ap (accepted_from t) same

    evaluate_members_lem :
        (rs : Rules) (l : List (List ℕ))
        → evaluate_members stamp limit rs ≡ ok l
        → (t : ℕ) → count_members t rs ≡ count_from t l
    evaluate_members_lem end l h t = let same : [] ≡ l = cc in ap (count_from t) same
    evaluate_members_lem (also r rs) l h t =
        let (o, e, p) = bind_ok (evaluate_quorum stamp limit r) _ h in
        let (rest, f, q) = bind_ok (evaluate_members stamp limit rs) _ p in
        let same : add_satisfied o rest ≡ l = cc in
        ap₂ (λ a b. one_if a + b) (evaluate_lem r o e t) (evaluate_members_lem rs rest f t)
        ∙ sym (add_satisfied_lem t o rest)
        ∙ ap (count_from t) same

-- If a rule can be evaluated at all, then for every time `t` these are equivalent: the rule holds
-- with the witnesses that cosigned at `t` or later, and not after the limit, alone; and
-- `_evaluate_quorum` accepts the checkpoint with timestamps that are all at least `t`. So the
-- earliest accepted timestamp is the latest time for which the rule vouches.
pub evaluate_quorum-holds_from :
    (stamp : SignedNoteKey → Option ℕ) (limit : ℕ) (r : Rule) (o : Option (List ℕ)) (t : ℕ)
    → evaluate_quorum stamp limit r ≡ ok o
    → holds_from stamp limit t r ≡ accepted_from t o
evaluate_quorum-holds_from stamp limit r o t h = evaluate_lem stamp limit r o h t
