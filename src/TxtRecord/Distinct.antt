-- ===== src/TxtRecord/Distinct.antt =====
-- Sets and dict keys as lists of texts (dnsid/models.py): membership, and lists without
-- repetition.
use dnsid_py.Base.{sym}
use dnsid_py.Base.{bytes_eq_refl}
use dnsid_py.Base.{true}
use dnsid_py.Base.{
  ◌≡◌, refl, ap, ◌∙◌, Bool, false, ◌&&◌, ◌||◌, List, [], ◌∷◌, ◌++◌, All, bytes_eq, bytes_eq_iff,
  arith, Bool-cases, inl, inr,
}
use mathlib.Core.Path.{subst}
use dnsid_py.Base.Decimal.{Text}
use dnsid_py.TxtRecord.Texts.{mem, filter}

-- No text stands twice.
abbrev pub Distinct : List Text → Type 0
Distinct [] = Unit {0}
Distinct (t ∷ ts) = (mem t ts ≡ false) × Distinct ts

-- None of the texts is seen.
abbrev pub Unseen : List Text → List Text → Type 0
Unseen seen ts = All (λ t. mem t seen ≡ false) ts

pub bytes_eq_sym : (a b : Text) → bytes_eq a b ≡ bytes_eq b a
bytes_eq_sym a b = ground (arith, bytes_eq_iff a b, bytes_eq_iff b a)

pub mem-append : (t : Text) (xs ys : List Text) → mem t (xs ++ ys) ≡ (mem t xs || mem t ys)
unfolding mem
mem-append t [] ys = refl
mem-append t (x ∷ xs) ys = ground (arith, mem-append t xs ys)

pub Unseen-cons :
    (t : Text) (seen ts : List Text) → mem t ts ≡ false → Unseen seen ts → Unseen (t ∷ seen) ts
unfolding mem
Unseen-cons t seen [] h hs = tt
Unseen-cons t seen (u ∷ us) h (k, ks) =
    (ground (arith, bytes_eq_sym t u), Unseen-cons t seen us (ground arith) ks)

pub Distinct-append :
    (xs ys : List Text) → Distinct xs → Distinct ys → Unseen ys xs → Distinct (xs ++ ys)
Distinct-append [] ys hx hy h = hy
Distinct-append (x ∷ xs) ys (p, hx) hy (q, h) =
    (mem-append x xs ys ∙ ground arith, Distinct-append xs ys hx hy h)

pub mem-filter :
    (p : Text → Bool) (t : Text) (ts : List Text) → mem t (filter p ts) ≡ (mem t ts && p t)
unfolding mem filter
mem-filter p t [] = refl
mem-filter p t (x ∷ xs) = elim (Bool-cases (bytes_eq t x)) [
  | inl q ↦
      let same : t ≡ x = ground (arith, bytes_eq_iff t x) in
      ground (arith, mem-filter p t xs, ap p same)
  | inr q ↦ ground (arith, mem-filter p t xs)
]

pub Distinct-filter : (p : Text → Bool) (ts : List Text) → Distinct ts → Distinct (filter p ts)
unfolding filter
Distinct-filter p [] h = tt
Distinct-filter p (x ∷ xs) (h, hs) = elim (Bool-cases (p x)) [
  | inl q ↦ rw q ((mem-filter p x xs ∙ ground arith, Distinct-filter p xs hs))
  | inr q ↦ rw q (Distinct-filter p xs hs)
]

pub Distinct-snoc :
    (ts : List Text) (t : Text) → Distinct ts → mem t ts ≡ false → Distinct (ts ++ (t ∷ []))
unfolding mem
Distinct-snoc [] t h k = (refl, tt)
Distinct-snoc (x ∷ xs) t (h, hs) k = (
  mem-append x xs (t ∷ []) ∙ ground (arith, bytes_eq_sym x t),
  Distinct-snoc xs t hs (ground arith),
)

-- A property of every text of a list, by membership.
pub All-at : (P : Text → Type 0) (t : Text) (ts : List Text) → All P ts → mem t ts ≡ true → P t
unfolding mem
All-at P t [] h m = absurd (cc m)
All-at P t (x ∷ xs) (h, hs) m = elim (Bool-cases (bytes_eq t x)) [
  | inl q ↦ subst P (sym ((bytes_eq_iff t x).0 q)) h
  | inr q ↦ All-at P t xs hs (ground arith)
]

pub All-members :
    (P : Text → Type 0) (ts : List Text) → ((t : Text) → mem t ts ≡ true → P t) → All P ts
unfolding mem
All-members P [] f = tt
All-members P (x ∷ xs) f =
    (f x (ground (arith, bytes_eq_refl x)), All-members P xs (λ t m. f t (ground (arith, m))))
