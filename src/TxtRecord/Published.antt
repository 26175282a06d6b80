-- ===== src/TxtRecord/Published.antt =====
-- From an unsigned canonical form to the published record and back (dnsid/models.py): the
-- signature is over the text that verifiers compute from the record.
use dnsid_py.Base.{
  ◌≡◌, refl, ap, ◌∙◌, Bool, true, false, not, List, [], ◌∷◌, ◌++◌, All, bytes_eq, arith, Bool-cases,
  inl, inr, map,
}
use dnsid_py.Base.Decimal.{Text, codes}
use dnsid_py.Base.Result.{ok}
use dnsid_py.TxtRecord.Texts.{mem, is_nil, filter, starts_with}
use dnsid_py.TxtRecord.Splitting.{starts_with-tag, All-map}
use dnsid_py.TxtRecord.Distinct.{All-at}
use dnsid_py.TxtRecord.Elements.{name-Lacks}
use dnsid_py.TxtRecord.Sound.{IsValid}
use dnsid_py.TxtRecord.Unsigned.{IsUnsigned, parse_unsigned_canonical-IsUnsigned}
use dnsid_py.TxtRecord.Reread.{known-names}
use dnsid_py.TxtRecord.RoundTrip.{parse-serialize}
use dnsid_py.TxtRecord.{
  known_tags, is_valid_tag_name, is_valid_tag_value, DnsIdTxtRecord, with_value, set_pairs, is_set,
  shown, all_tags, canonical, serialize, parse, parse_unsigned_canonical,
}

-- `record.sg = sg`
abbrev pub with_sg : Text → DnsIdTxtRecord → DnsIdTxtRecord
with_sg sg r = with_value (codes "sg") sg r

abbrev is_unsigned : Text → Bool
is_unsigned t = not (starts_with (codes "sg=") t)

filter-append :
    (p : Text → Bool) (xs ys : List Text) → filter p (xs ++ ys) ≡ filter p xs ++ filter p ys
unfolding filter
filter-append p [] ys = refl
filter-append p (x ∷ xs) ys = elim (Bool-cases (p x)) [
  | inl q ↦ rw q (ap (λ l. x ∷ l) (filter-append p xs ys))
  | inr q ↦ rw q (filter-append p xs ys)
]

-- Setting `sg` changes no other element.
unsigned_pairs :
    (sg : Text) (r : DnsIdTxtRecord) (ks : List Text)
    → All (λ t. is_valid_tag_name t ≡ true) ks
    → filter is_unsigned (map shown (set_pairs (with_sg sg r) ks))
      ≡ filter is_unsigned (map shown (set_pairs r ks))
unfolding filter
unsigned_pairs sg r [] h = refl
unsigned_pairs sg r (k ∷ ks) (h, hs) = elim (Bool-cases (bytes_eq k (codes "sg"))) [
  | inl q ↦
      let dropped : (value : Text) → is_unsigned (shown (k, value)) ≡ false = (λ value. ap not (
        starts_with-tag 61 (codes "sg") k value (ground arith, (ground arith, tt)) (name-Lacks k h)
        ∙ q)) in
      let rest = unsigned_pairs sg r ks hs in
      elim (Bool-cases (is_set (with_sg sg r) k)) [
        | inl a ↦ elim (Bool-cases (is_set r k)) [
          | inl b ↦ rw (a, b, dropped ((with_sg sg r).value_of k), dropped (r.value_of k)) rest
          | inr b ↦ rw (a, b, dropped ((with_sg sg r).value_of k)) rest
        ]
        | inr a ↦ elim (Bool-cases (is_set r k)) [
          | inl b ↦ rw (a, b, dropped (r.value_of k)) rest
          | inr b ↦ rw (a, b) rest
        ]
      ]
  | inr q ↦
      let rest = unsigned_pairs sg r ks hs in
      let same : is_set (with_sg sg r) k ≡ is_set r k = (unfold is_set in rw q refl) in
      elim (Bool-cases (is_set r k)) [
        | inl b ↦
            rw (same, b, q)
              (elim (Bool-cases (is_unsigned (shown (k, r.value_of k)))) [
                | inl kept ↦ rw kept (ap (λ l. shown (k, r.value_of k) ∷ l) rest)
                | inr kept ↦ rw kept rest
              ])
        | inr b ↦ rw (same, b) rest
      ]
]

pub canonical-with_sg : (sg : Text) (r : DnsIdTxtRecord) → canonical (with_sg sg r) ≡ canonical r
unfolding canonical all_tags
canonical-with_sg sg r =
    rw
      (
        filter-append is_unsigned (map shown (set_pairs (with_sg sg r) known_tags))
            (map shown r.unknown_tags),
        filter-append is_unsigned (map shown (set_pairs r known_tags)) (map shown r.unknown_tags),
        unsigned_pairs sg r known_tags known-names,
      )
      refl

with_sg-IsValid :
    (raw sg : Text) (r : DnsIdTxtRecord)
    → IsUnsigned raw r
    → is_nil sg ≡ false
    → is_valid_tag_value sg ≡ true
    → IsValid (with_sg sg r)
unfolding bytes_eq
with_sg-IsValid raw sg r (v, (a, (b, (c, (d, (e, (f, u)))))), values, ext, dist, form) full
      printable =
    (
      v,
      (a, (b, (c, (d, (e, (f, (full, tt))))))),
      All-map {P = λ t. is_valid_tag_value (r.value_of t) ≡ true}
          {Q = λ t. is_valid_tag_value ((with_sg sg r).value_of t) ≡ true}
          (λ t h. elim (Bool-cases (bytes_eq t (codes "sg"))) [
            | inl q ↦ rw q printable
            | inr q ↦ rw q h
          ])
          known_tags values,
      ext,
      dist,
    )

-- If the registry's text `raw` parses as an unsigned canonical form, and a non-empty `sg` value of the ABNF is set on the parsed record, then the
-- serialization of the signed record parses, the parsed record's canonical form, over which a
-- verifier checks the signature, is `raw` again, and its `sg` is the one that was set.
pub parse-serialize-parse_unsigned_canonical :
    (raw sg : Text) (r : DnsIdTxtRecord)
    → parse_unsigned_canonical raw ≡ ok r
    → is_nil sg ≡ false
    → is_valid_tag_value sg ≡ true
    → (s : DnsIdTxtRecord) × (parse (serialize (with_sg sg r)) ≡ ok s)
      × (canonical s ≡ raw)
      × (s.value_of (codes "sg") ≡ sg)
unfolding bytes_eq
parse-serialize-parse_unsigned_canonical raw sg r h some printable =
    let unsigned = parse_unsigned_canonical-IsUnsigned raw r h in
    let (s, parsed, values, ext, same, again) =
      parse-serialize (with_sg sg r) (with_sg-IsValid raw sg r unsigned some printable) in
    let (v, filled, vals, exts, dist, form) = unsigned in
    (
      s,
      parsed,
      same ∙ (canonical-with_sg sg r ∙ form),
      All-at (λ t. s.value_of t ≡ (with_sg sg r).value_of t) (codes "sg") known_tags values
          (unfold mem in refl),
    )
