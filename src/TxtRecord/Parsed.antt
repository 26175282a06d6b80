-- ===== src/TxtRecord/Parsed.antt =====
-- Every record that `DnsIdTxtRecord.parse` (dnsid/models.py) returns is valid.
use dnsid_py.Base.{
  ◌≡◌, refl, ap, ◌∙◌, sym, Bool, true, false, not, ◌&&◌, List, [], ◌∷◌, bytes_eq, bytes_eq_iff,
  if◌then◌else◌, arith, Bool-cases, inl, inr, drop,
}
use mathlib.Core.Path.{subst}
use dnsid_py.Base.Decimal.{Text, codes}
use dnsid_py.Base.Result.{ok, Result-cases}
use dnsid_py.TxtRecord.Texts.{mem, is_nil, all_of, split, strip, starts_with, lstrip, rstrip}
use dnsid_py.TxtRecord.Splitting.{all_of-All, All-map, All-every, strip-IsDense, starts_with-tag}
use dnsid_py.TxtRecord.Elements.{IsElement, shown-IsDense, name-Lacks, parse_element-IsElement}
use dnsid_py.TxtRecord.Stored.{sets, store-value}
use dnsid_py.TxtRecord.Sound.{
  IsValid, IsConsistent, tag_of, mem-head, fresh_record-IsConsistent, store-IsConsistent,
  parse_pairs-keeps,
}
use dnsid_py.TxtRecord.{
  Pair, known_tags, required_tags, is_supported_version, DnsIdTxtRecord, fresh_record,
  parse_element, store, parse_pairs, first_of, parse, shown,
}

abbrev HasVersion : Text → List Text → DnsIdTxtRecord → Type 0
HasVersion version seen r = (mem (codes "v") seen ≡ true) × (r.value_of (codes "v") ≡ version)

store-HasVersion :
    (version : Text) (p : Pair) (seen : List Text) (r : DnsIdTxtRecord)
    → IsElement p
    → mem (tag_of p) seen ≡ false
    → HasVersion version seen r
    → HasVersion version (tag_of p ∷ seen) (store required_tags p r)
unfolding mem
store-HasVersion version (tag, value) seen r element unseen (there, is) =
    let other : bytes_eq (codes "v") tag ≡ false = elim (Bool-cases (bytes_eq (codes "v") tag)) [
      | inr q ↦ q
      | inl q ↦
          let same : codes "v" ≡ tag = (bytes_eq_iff (codes "v") tag).0 q in
          absurd (cc (there, unseen, same))
    ] in
    (
      ground (arith, there),
      store-value required_tags tag value r (codes "v")
          ∙ if_lem (sets required_tags (tag, value)) other,
    )
  where
    if_lem :
        (b : Bool) {c : Bool}
        → c ≡ false
        → (if b && c then value else r.value_of (codes "v")) ≡ version
    if_lem true h = rw h is
    if_lem false h = is

-- The first element is the version, stripped or not.
first_element :
    (pair : Text) (p : Pair)
    → starts_with (codes "v=") (strip pair) ≡ true
    → parse_element true pair ≡ ok p
    → (tag_of p ≡ codes "v") × (drop 2 (strip pair) ≡ p.1)
first_element pair (tag, value) starts h =
    let ((n, v), is) = parse_element-IsElement true pair (tag, value) h in
    let whole : strip pair ≡ shown (tag, value) =
      ap strip is ∙ strip-IsDense (shown (tag, value)) (shown-IsDense (tag, value) (n, v)) in
    let test : bytes_eq tag (codes "v") ≡ true =
      sym (starts_with-tag 61 (codes "v") tag value (ground arith, tt) (name-Lacks tag n))
      ∙ (sym (ap (starts_with (codes "v=")) whole) ∙ starts) in
    let same : tag ≡ codes "v" = (bytes_eq_iff tag (codes "v")).0 test in
    (same, ap (drop 2) whole ∙ ap (λ t. drop 2 (shown (t, value))) same)

version_stored :
    (value : Text)
    → (store required_tags (codes "v", value) fresh_record).value_of (codes "v") ≡ value
unfolding mem bytes_eq
version_stored value =
    store-value required_tags (codes "v") value fresh_record (codes "v")
    ∙ elim (Bool-cases (is_nil value)) [ inl q ↦ rw q refl | inr q ↦ rw q refl ]

pairs_version :
    (pairs : List Text) (seen : List Text) (r : DnsIdTxtRecord)
    → starts_with (codes "v=") (strip (first_of pairs)) ≡ true
    → parse_pairs true pairs [] fresh_record ≡ ok (seen, r)
    → r.value_of (codes "v") ≡ drop 2 (strip (first_of pairs))
unfolding parse_pairs
pairs_version [] seen r starts h = unfold starts_with lstrip rstrip in absurd (cc starts)
pairs_version ([] ∷ ts) seen r starts h = unfold starts_with lstrip rstrip in absurd (cc starts)
pairs_version ((c ∷ cs) ∷ ts) seen r starts h = elim (Result-cases (parse_element true (c ∷ cs))) [
  | inr (x, q) ↦ absurd (ground arith)
  | inl ((tag, value), q) ↦
      let (same, rest) = first_element (c ∷ cs) (tag, value) starts q in
      let begun : HasVersion value (tag ∷ []) (store required_tags (tag, value) fresh_record) =
        rw same ((mem-head (codes "v") [], version_stored value)) in
      let (there, is) =
        parse_pairs-keeps (HasVersion value) (store-HasVersion value) false ts (tag ∷ [])
          (store required_tags (tag, value) fresh_record) seen r (ground arith) begun in
      is ∙ sym rest
]

-- A parsed record is of a supported profile and has a value for every required tag; the values of
-- its known tags are of the ABNF; and its extensions have names and values of the ABNF, no
-- protocol tag is among them and none is repeated.
pub parse-IsValid : (raw : Text) (r : DnsIdTxtRecord) → parse raw ≡ ok r → IsValid r
unfolding parse
parse-IsValid raw r h = elim (Result-cases (parse_pairs true (split 59 raw) [] fresh_record)) [
  | inr (x, q) ↦ absurd (ground arith)
  | inl ((seen, found), q) ↦
      let same : found ≡ r = ground arith in
      let starts : starts_with (codes "v=") (strip (first_of (split 59 raw))) ≡ true =
        ground arith in
      let supported : is_supported_version (drop 2 (strip (first_of (split 59 raw)))) ≡ true =
        ground arith in
      let full : all_of (λ t. not (is_nil (found.value_of t))) required_tags ≡ true =
        ground arith in
      subst IsValid same (
        found_lem seen found q
          (ap is_supported_version (pairs_version (split 59 raw) seen found starts q) ∙ supported)
          full)
]
  where
    found_lem :
        (seen : List Text) (found : DnsIdTxtRecord)
        → parse_pairs true (split 59 raw) [] fresh_record ≡ ok (seen, found)
        → is_supported_version (found.value_of (codes "v")) ≡ true
        → all_of (λ t. not (is_nil (found.value_of t))) required_tags ≡ true
        → IsValid found
    found_lem seen found q supported full =
        let (values, ext, dist, among) =
          parse_pairs-keeps IsConsistent (store-IsConsistent required_tags) true (split 59 raw) []
            fresh_record seen found q fresh_record-IsConsistent in
        (
          supported,
          All-map {P = λ t. not (is_nil (found.value_of t)) ≡ true}
              {Q = λ t. is_nil (found.value_of t) ≡ false} (λ t h. ground arith) required_tags
              ((all_of-All (λ t. not (is_nil (found.value_of t))) required_tags).0 full),
          All-every _ values known_tags,
          ext,
          dist,
        )
