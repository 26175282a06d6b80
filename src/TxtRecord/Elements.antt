-- ===== src/TxtRecord/Elements.antt =====
-- One element of an identity record (dnsid/models.py): what its parser accepts, and that it reads
-- back an element as it is written.
use dnsid_py.Base.{
  ℕ, ◌≡◌, Bool, true, false, not, ◌&&◌, List, [], ◌∷◌, ◌++◌, All, if◌then◌else◌, arith,
  Option-cases, inl, inr, drop,
}
use dnsid_py.Base.Decimal.{Text, codes}
use dnsid_py.Base.Result.{ok}
use dnsid_py.TxtRecord.Texts.{cut, is_space, starts_with}
use dnsid_py.TxtRecord.Splitting.{Lacks, IsDense, all_of-All, All-map, cut-append, cut_parts}
use dnsid_py.TxtRecord.{
  Pair, is_name_char, is_valid_tag_name, is_value_char, is_valid_tag_value, parse_element, shown,
}

-- A tag and a value of the ABNF.
abbrev pub IsElement : Pair → Type 0
IsElement (tag, value) = (is_valid_tag_name tag ≡ true) × (is_valid_tag_value value ≡ true)

name_chars : (t : Text) → is_valid_tag_name t ≡ true → All (λ c. is_name_char c ≡ true) t
unfolding is_valid_tag_name
name_chars [] h = tt
name_chars (c ∷ cs) h = (ground arith, (all_of-All is_name_char cs).0 (ground arith))

value_chars : (t : Text) → is_valid_tag_value t ≡ true → All (λ c. is_value_char c ≡ true) t
unfolding is_valid_tag_value
value_chars t h = (all_of-All is_value_char t).0 h

name_char_dense : (c : ℕ) → is_name_char c ≡ true → is_space c ≡ false
name_char_dense c h = ground arith

value_char_dense : (c : ℕ) → is_value_char c ≡ true → is_space c ≡ false
value_char_dense c h = ground arith

pub name-Lacks : (t : Text) → is_valid_tag_name t ≡ true → Lacks 61 t
name-Lacks t h = All-map {P = λ c. is_name_char c ≡ true} (λ c p. ground arith) t (name_chars t h)

name-Lacks-separator : (t : Text) → is_valid_tag_name t ≡ true → Lacks 59 t
name-Lacks-separator t h =
    All-map {P = λ c. is_name_char c ≡ true} (λ c p. ground arith) t (name_chars t h)

value-Lacks-separator : (t : Text) → is_valid_tag_value t ≡ true → Lacks 59 t
value-Lacks-separator t h =
    All-map {P = λ c. is_value_char c ≡ true} (λ c p. ground arith) t (value_chars t h)

pub All-join :
    {A : Type 0} (P : A → Type 0) (xs ys : List A) → All P xs → All P ys → All P (xs ++ ys)
All-join P [] ys h k = k
All-join P (x ∷ xs) ys (h, hs) k = (h, All-join P xs ys hs k)

pub shown-Lacks : (p : Pair) → IsElement p → Lacks 59 (shown p)
shown-Lacks (tag, value) (n, v) =
    All-join _ tag (61 ∷ value) (name-Lacks-separator tag n)
      (ground arith, value-Lacks-separator value v)

pub shown-IsDense : (p : Pair) → IsElement p → IsDense (shown p)
shown-IsDense (tag, value) (n, v) =
    All-join _ tag (61 ∷ value) (All-map name_char_dense tag (name_chars tag n))
      (ground arith, All-map value_char_dense value (value_chars value v))

abbrev stripped : Bool → Text → Text
stripped first pair = if not first && starts_with (codes " ") pair then drop 1 pair else pair

pub parse_element-IsElement :
    (first : Bool) (pair : Text) (p : Pair)
    → parse_element first pair ≡ ok p
    → IsElement p × (stripped first pair ≡ shown p)
unfolding parse_element
parse_element-IsElement first pair (tag, value) h =
    elim (Option-cases (cut 61 (stripped first pair))) [
      | inl q ↦ absurd (ground arith)
      | inr ((a, b), q) ↦
          let parts = cut_parts 61 (stripped first pair) a b q in
          let one : a ≡ tag = ground arith in
          let two : b ≡ value = ground arith in ((ground arith, ground arith), cc)
    ]

no_space :
    (tag value : Text)
    → is_valid_tag_name tag ≡ true
    → starts_with (codes " ") (shown (tag, value)) ≡ false
unfolding starts_with is_valid_tag_name
no_space [] value n = absurd (ground arith)
no_space (c ∷ tag) value n = ground arith

pub parse_element-shown :
    (first : Bool) (p : Pair) → IsElement p → parse_element first (shown p) ≡ ok p
unfolding parse_element
parse_element-shown first (tag, value) (n, v) =
    ground (arith, no_space tag value n, cut-append 61 tag value (name-Lacks tag n))
