-- ===== src/TxtRecord/Rebuilt.antt =====
-- The record that the elements of a valid record build (dnsid/models.py, DnsIdTxtRecord).
use dnsid_py.Base.{
  ◌≡◌, refl, ap, ◌∙◌, bytes_eq_refl, List, Bool, true, false, not, ◌&&◌, ◌||◌, [], ◌∷◌, ◌++◌, All,
  bytes_eq, if◌then◌else◌, arith, Bool-cases, inl, inr,
}
use dnsid_py.Base.Decimal.{Text, codes}
use dnsid_py.TxtRecord.Texts.{mem, is_nil, filter}
use dnsid_py.TxtRecord.Splitting.{All-map}
use dnsid_py.TxtRecord.Distinct.{All-at, All-members}
use dnsid_py.TxtRecord.Sound.{tag_of, IsExtension, IsValid}
use dnsid_py.TxtRecord.Refilled.{
  store_pairs-append, returns, known-value_of, known-unknown_tags, known-parsed_optional_tags,
  extensions-stored,
}
use dnsid_py.TxtRecord.Reread.{elements}
use dnsid_py.TxtRecord.{
  known_tags, required_tags, DnsIdTxtRecord, default_value, fresh_record, store_pairs, set_pairs,
  is_set, all_tags,
}

empty_value : (value : Text) → is_nil value ≡ true → [] ≡ value
unfolding is_nil
empty_value [] h = refl
empty_value (c ∷ cs) h = absurd (cc h)

-- A valid record has no empty required value.
pub empty-optional :
    (r : DnsIdTxtRecord) (t : Text)
    → IsValid r
    → is_nil (r.value_of t) ≡ true
    → mem t required_tags ≡ false
empty-optional r t (v, full, values, ext, dist) empty = elim (Bool-cases (mem t required_tags)) [
  | inr q ↦ q
  | inl q ↦
      absurd (clash (All-at (λ u. is_nil (r.value_of u) ≡ false) t required_tags full q) empty)
]
  where
    clash : {b : Bool} → b ≡ false → b ≡ true → ⊥
    clash h k = cc

default-optional : (t : Text) → mem t required_tags ≡ false → default_value t ≡ []
unfolding mem
default-optional t h = let other : bytes_eq t (codes "v") ≡ false = ground arith in rw other refl

-- Whatever was set comes back.
refilled-value_of :
    (r : DnsIdTxtRecord) (t : Text)
    → IsValid r
    → (if returns required_tags r t then r.value_of t else default_value t) ≡ r.value_of t
unfolding is_set
refilled-value_of r t valid = elim (Bool-cases (is_nil (r.value_of t))) [
  | inr q ↦ rw q refl
  | inl q ↦
      let optional = empty-optional r t valid q in
      let off : returns required_tags r t ≡ false = ground (arith, optional) in
      rw off (default-optional t optional ∙ empty_value (r.value_of t) q)
]

refilled-is_set :
    (r : DnsIdTxtRecord) (t : Text) (value : Text)
    → IsValid r
    → value ≡ r.value_of t
    → (not (is_nil value) || ((is_set r t && not (mem t required_tags)) || false)) ≡ is_set r t
unfolding is_set
refilled-is_set r t value valid same = elim (Bool-cases (is_nil (r.value_of t))) [
  | inr q ↦ ground (arith, same, ap is_nil same)
  | inl q ↦ ground (arith, ap is_nil same, empty-optional r t valid q)
]

unfoldable pub refilled : DnsIdTxtRecord → DnsIdTxtRecord
refilled r = store_pairs required_tags (elements r) fresh_record

known-AreKnown : All (λ t. mem t known_tags ≡ true) known_tags
known-AreKnown = All-members (λ t. mem t known_tags ≡ true) known_tags (λ t k. k)

-- The known tags of a record, stored.
known_part : DnsIdTxtRecord → DnsIdTxtRecord
known_part r = store_pairs required_tags (set_pairs r known_tags) fresh_record

refilled-known_part :
    (r : DnsIdTxtRecord)
    → IsValid r
    → refilled r ≡ record (known_part r) { unknown_tags = r.unknown_tags }
unfolding refilled known_part
refilled-known_part r (v, full, values, ext, dist) =
    store_pairs-append required_tags (set_pairs r known_tags) r.unknown_tags fresh_record
    ∙ (extensions-stored required_tags r r.unknown_tags _ (
          All-map {P = IsExtension} {Q = λ p. mem (tag_of p) known_tags ≡ false} (λ p e. e.1)
            r.unknown_tags ext)
        ∙ ap (λ l. record (known_part r) { unknown_tags = l ++ r.unknown_tags })
            (known-unknown_tags required_tags r known_tags fresh_record known-AreKnown))

known_part-value_of :
    (r : DnsIdTxtRecord) (t : Text)
    → IsValid r
    → mem t known_tags ≡ true
    → (known_part r).value_of t ≡ r.value_of t
unfolding known_part
known_part-value_of r t valid k =
    known-value_of required_tags r known_tags fresh_record t known-AreKnown
    ∙ rw k (refilled-value_of r t valid)

known_part-is_set :
    (r : DnsIdTxtRecord) (t : Text)
    → IsValid r
    → mem t known_tags ≡ true
    → is_set (known_part r) t ≡ is_set r t
unfolding known_part mem is_set
known_part-is_set r t valid k =
    let optional =
      known-parsed_optional_tags required_tags r known_tags fresh_record t known-AreKnown in
    let value = known_part-value_of r t valid k in
    ap (λ b. not (is_nil ((known_part r).value_of t)) || b) (optional ∙ rw k refl)
    ∙ refilled-is_set r t ((known_part r).value_of t) valid value

pub refilled-value :
    (r : DnsIdTxtRecord)
    → IsValid r
    → (t : Text) → mem t known_tags ≡ true
    → (refilled r).value_of t ≡ r.value_of t
refilled-value r valid t k =
    ap (λ (s : DnsIdTxtRecord). s.value_of t) (refilled-known_part r valid)
    ∙ known_part-value_of r t valid k

pub refilled-unknown_tags :
    (r : DnsIdTxtRecord) → IsValid r → (refilled r).unknown_tags ≡ r.unknown_tags
refilled-unknown_tags r valid =
    ap (λ (s : DnsIdTxtRecord). s.unknown_tags) (refilled-known_part r valid)

same_pairs :
    (r s : DnsIdTxtRecord) (ks : List Text)
    → ((t : Text) → mem t ks ≡ true → s.value_of t ≡ r.value_of t)
    → ((t : Text) → mem t ks ≡ true → is_set s t ≡ is_set r t)
    → set_pairs s ks ≡ set_pairs r ks
unfolding filter mem
same_pairs r s [] values sets = refl
same_pairs r s (k ∷ ks) values sets =
    let here : (bytes_eq k k || mem k ks) ≡ true = ground (arith, bytes_eq_refl k) in
    let rest =
      same_pairs r s ks (λ t m. values t (ground (arith, m))) (λ t m. sets t (ground (arith, m))) in
    elim (Bool-cases (is_set r k)) [
      | inl q ↦ rw (sets k here, q, values k here) (ap (λ l. (k, r.value_of k) ∷ l) rest)
      | inr q ↦ rw (sets k here, q) rest
    ]

is_set_part :
    (r : DnsIdTxtRecord) (t : Text)
    → IsValid r
    → mem t known_tags ≡ true
    → is_set (record (known_part r) { unknown_tags = r.unknown_tags }) t ≡ is_set r t
unfolding is_set
is_set_part r t valid k = unfold is_set in known_part-is_set r t valid k

pub refilled-all_tags : (r : DnsIdTxtRecord) → IsValid r → all_tags (refilled r) ≡ all_tags r
unfolding all_tags filter is_set
refilled-all_tags r valid =
    rw
      (
        refilled-unknown_tags r valid,
        same_pairs r (refilled r) known_tags (refilled-value r valid)
            (λ t k. ap (λ s. is_set s t) (refilled-known_part r valid) ∙ is_set_part r t valid k),
      )
      refl
