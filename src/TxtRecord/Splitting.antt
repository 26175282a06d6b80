-- ===== src/TxtRecord/Splitting.antt =====
-- Splitting and joining texts (the string operations of dnsid/models.py), where the separator
-- does not occur in the parts.
use dnsid_py.Base.{
  ℕ, ◌≡◌, ◌↔◌, refl, ap, ◌∙◌, Bool, true, false, some, List, [], ◌∷◌, ◌++◌, All, bytes_eq, ◌==◌,
  arith, Bool-cases, Option-cases, inl, inr,
}
use dnsid_py.Base.Decimal.{Text}
use dnsid_py.TxtRecord.Texts.{
  all_of, split, join, cut, is_space, lstrip, rstrip, strip, starts_with,
}

abbrev pub Lacks : ℕ → Text → Type 0
Lacks c t = All (λ x. (x == c) ≡ false) t

all_of_there :
    {A : Type 0} (p : A → Bool) (xs : List A) → all_of p xs ≡ true → All (λ x. p x ≡ true) xs
unfolding all_of
all_of_there p [] h = tt
all_of_there p (x ∷ xs) h = (ground arith, all_of_there p xs (ground arith))

all_of_back :
    {A : Type 0} (p : A → Bool) (xs : List A) → All (λ x. p x ≡ true) xs → all_of p xs ≡ true
unfolding all_of
all_of_back p [] h = refl
all_of_back p (x ∷ xs) (h, hs) = ground (arith, all_of_back p xs hs)

pub all_of-All :
    {A : Type 0} (p : A → Bool) (xs : List A) → (all_of p xs ≡ true) ↔ All (λ x. p x ≡ true) xs
all_of-All p xs = (all_of_there p xs, all_of_back p xs)

pub All-map :
    {A : Type 0} {P Q : A → Type 0} (f : (x : A) → P x → Q x) (xs : List A) → All P xs → All Q xs
All-map f [] h = tt
All-map f (x ∷ xs) (h, hs) = (f x h, All-map f xs hs)

split_last : (c : ℕ) (t : Text) → Lacks c t → split c t ≡ t ∷ []
unfolding split
split_last c [] h = refl
split_last c (x ∷ t) (h, hs) = ground (arith, split_last c t hs)

split_first : (c : ℕ) (t rest : Text) → Lacks c t → split c (t ++ (c ∷ rest)) ≡ t ∷ split c rest
unfolding split
split_first c [] rest h = ground arith
split_first c (x ∷ t) rest (h, hs) = ground (arith, split_first c t rest hs)

pub split-join :
    (c : ℕ) (t : Text) (ts : List Text)
    → All (Lacks c) (t ∷ ts)
    → split c (join c (t ∷ ts)) ≡ t ∷ ts
unfolding join
split-join c t [] (h, hs) = split_last c t h
split-join c t (u ∷ us) (h, hs) =
    split_first c t (join c (u ∷ us)) h ∙ ap (λ l. t ∷ l) (split-join c u us hs)

pub cut-append : (c : ℕ) (t rest : Text) → Lacks c t → cut c (t ++ (c ∷ rest)) ≡ some (t, rest)
unfolding cut
cut-append c [] rest h = ground arith
cut-append c (x ∷ t) rest (h, hs) = ground (arith, cut-append c t rest hs)

pub cut_parts : (c : ℕ) (t a b : Text) → cut c t ≡ some (a, b) → t ≡ a ++ (c ∷ b)
unfolding cut
cut_parts c [] a b h = cc
cut_parts c (x ∷ t) a b h = elim (Bool-cases (x == c)) [
  | inl q ↦
      let nothing : a ≡ [] = ground arith in
      let rest : b ≡ t = ground arith in let same : x ≡ c = ground arith in cc
  | inr q ↦ elim (Option-cases (cut c t)) [
    | inl r ↦ absurd (ground arith)
    | inr ((d, e), r) ↦
        let head : a ≡ x ∷ d = ground arith in
        let rest : b ≡ e = ground arith in let more = cut_parts c t d e r in cc
  ]
]

abbrev pub IsDense : Text → Type 0
IsDense t = All (λ x. is_space x ≡ false) t

lstrip-IsDense : (t : Text) → IsDense t → lstrip t ≡ t
unfolding lstrip
lstrip-IsDense [] h = refl
lstrip-IsDense (x ∷ t) (h, hs) = rw h refl

rstrip-IsDense : (t : Text) → IsDense t → rstrip t ≡ t
unfolding rstrip
rstrip-IsDense [] h = refl
rstrip-IsDense (x ∷ t) (h, hs) = rw h (ap (λ l. x ∷ l) (rstrip-IsDense t hs))

pub strip-IsDense : (t : Text) → IsDense t → strip t ≡ t
strip-IsDense t h = ap rstrip (lstrip-IsDense t h) ∙ rstrip-IsDense t h

-- A tag decides what its element starts with.
pub starts_with-tag :
    (c : ℕ) (p t rest : Text)
    → Lacks c p
    → Lacks c t
    → starts_with (p ++ (c ∷ [])) (t ++ (c ∷ rest)) ≡ bytes_eq t p
unfolding starts_with bytes_eq
starts_with-tag c [] [] rest hp ht = ground arith
starts_with-tag c [] (y ∷ t) rest hp (h, ht) = ground arith
starts_with-tag c (x ∷ p) [] rest (h, hp) ht = ground arith
starts_with-tag c (x ∷ p) (y ∷ t) rest (h, hp) (k, ht) =
    ground (arith, starts_with-tag c p t rest hp ht)

pub All-every : {A : Type 0} (P : A → Type 0) → ((x : A) → P x) → (xs : List A) → All P xs
All-every P f [] = tt
All-every P f (x ∷ xs) = (f x, All-every P f xs)
