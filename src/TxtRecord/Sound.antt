-- ===== src/TxtRecord/Sound.antt =====
-- What a parsed identity record is (`DnsIdTxtRecord.parse`, dnsid/models.py).
use dnsid_py.Base.{
  ◌≡◌, refl, Bool, true, false, ◌&&◌, List, [], ◌∷◌, All, bytes_eq, bytes_eq_iff, bytes_eq_refl,
  if◌then◌else◌, arith, Bool-cases, inl, inr, map, map-append,
}
use mathlib.Core.Path.{subst}
use dnsid_py.Base.Decimal.{Text, codes}
use dnsid_py.Base.Result.{ok, Result-cases}
use dnsid_py.TxtRecord.Texts.{mem, is_nil, all_of}
use dnsid_py.TxtRecord.Distinct.{Distinct, Distinct-snoc}
use dnsid_py.TxtRecord.Elements.{IsElement, All-join, parse_element-IsElement}
use dnsid_py.TxtRecord.Stored.{sets, store-value, store-unknown_tags}
use dnsid_py.TxtRecord.{
  Pair, known_tags, required_tags, is_supported_version, is_valid_tag_value, DnsIdTxtRecord,
  default_value, fresh_record, parse_element, store, parse_pairs,
}

abbrev pub tag_of : Pair → Text
tag_of (tag, value) = tag

-- An extension: an element whose tag the protocol does not know.
abbrev pub IsExtension : Pair → Type 0
IsExtension p = IsElement p × (mem (tag_of p) known_tags ≡ false)

-- A record of a supported profile with every required value, values of the ABNF and distinct
-- extensions.
abbrev pub IsValid : DnsIdTxtRecord → Type 0
IsValid r =
    (is_supported_version (r.value_of (codes "v")) ≡ true)
    × All (λ t. is_nil (r.value_of t) ≡ false) required_tags
    × All (λ t. is_valid_tag_value (r.value_of t) ≡ true) known_tags
    × All IsExtension r.unknown_tags
    × Distinct (map tag_of r.unknown_tags)

-- What holds of the loop variables `seen` and `record`.
abbrev HasExtensions : List Text → List Pair → Type 0
HasExtensions seen ps =
    All IsExtension ps × Distinct (map tag_of ps) × All (λ p. mem (tag_of p) seen ≡ true) ps

abbrev pub IsConsistent : List Text → DnsIdTxtRecord → Type 0
IsConsistent seen r =
    ((t : Text) → is_valid_tag_value (r.value_of t) ≡ true)
    × All IsExtension r.unknown_tags
    × Distinct (map tag_of r.unknown_tags)
    × All (λ p. mem (tag_of p) seen ≡ true) r.unknown_tags

default-valid : (t : Text) → is_valid_tag_value (default_value t) ≡ true
unfolding is_valid_tag_value all_of
default-valid t = elim (Bool-cases (bytes_eq t (codes "v"))) [
  | inl q ↦ rw q refl
  | inr q ↦ rw q refl
]

pub fresh_record-IsConsistent : IsConsistent [] fresh_record
fresh_record-IsConsistent = (default-valid, tt, tt, tt)

seen_more :
    (t : Text) (seen : List Text) (ps : List Pair)
    → All (λ p. mem (tag_of p) seen ≡ true) ps
    → All (λ p. mem (tag_of p) (t ∷ seen) ≡ true) ps
unfolding mem
seen_more t seen [] h = tt
seen_more t seen (p ∷ ps) (h, hs) = (ground arith, seen_more t seen ps hs)

-- A tag that was not seen is not among the extensions.
unseen_extension :
    (t : Text) (seen : List Text) (ps : List Pair)
    → mem t seen ≡ false
    → All (λ p. mem (tag_of p) seen ≡ true) ps
    → mem t (map tag_of ps) ≡ false
unfolding mem
unseen_extension t seen [] h hs = refl
unseen_extension t seen ((tag, value) ∷ ps) h (k, ks) =
    let different : bytes_eq t tag ≡ false = elim (Bool-cases (bytes_eq t tag)) [
      | inr q ↦ q
      | inl q ↦ let same : t ≡ tag = (bytes_eq_iff t tag).0 q in absurd (cc (h, k, same))
    ] in
    ground (arith, different, unseen_extension t seen ps h ks)

pub mem-head : (t : Text) (ts : List Text) → mem t (t ∷ ts) ≡ true
unfolding mem
mem-head t ts = ground (arith, bytes_eq_refl t)

-- The value of every tag once a known tag is stored.
stored_value :
    (required : List Text) (tag value : Text) (r : DnsIdTxtRecord) (t : Text)
    → is_valid_tag_value value ≡ true
    → is_valid_tag_value (r.value_of t) ≡ true
    → is_valid_tag_value ((store required (tag, value) r).value_of t) ≡ true
stored_value required tag value r t h k =
    rw (store-value required tag value r t) (if_lem (sets required (tag, value) && bytes_eq t tag))
  where
    if_lem : (b : Bool) → is_valid_tag_value (if b then value else r.value_of t) ≡ true
    if_lem true = h
    if_lem false = k

stored_extensions :
    (required : List Text) (p : Pair) (seen : List Text) (r : DnsIdTxtRecord)
    → IsElement p
    → mem (tag_of p) seen ≡ false
    → HasExtensions seen r.unknown_tags
    → HasExtensions (tag_of p ∷ seen) (store required p r).unknown_tags
stored_extensions required (tag, value) seen r element unseen (ext, dist, among) =
    rw (store-unknown_tags required tag value r) (elim (Bool-cases (mem tag known_tags)) [
      | inl p ↦ rw p (ext, dist, seen_more tag seen r.unknown_tags among)
      | inr p ↦ rw p (
        All-join _ r.unknown_tags _ ext ((element, p), tt),
        rw (map-append tag_of r.unknown_tags ((tag, value) ∷ []))
            (Distinct-snoc _ tag dist (unseen_extension tag seen r.unknown_tags unseen among)),
        All-join _ r.unknown_tags _ (seen_more tag seen r.unknown_tags among)
            (mem-head tag seen, tt),
      )
    ])

-- The loop variables stay consistent.
pub store-IsConsistent :
    (required : List Text) (p : Pair) (seen : List Text) (r : DnsIdTxtRecord)
    → IsElement p
    → mem (tag_of p) seen ≡ false
    → IsConsistent seen r
    → IsConsistent (tag_of p ∷ seen) (store required p r)
store-IsConsistent required (tag, value) seen r (n, v) unseen (values, ext, dist, among) =
    let (a, b, c) =
      stored_extensions required (tag, value) seen r (n, v) unseen (ext, dist, among) in
    (λ t. stored_value required tag value r t v (values t), a, b, c)

-- A property of the loop variables that every stored tag keeps holds at the end of the loop.
pub parse_pairs-keeps :
    (P : List Text → DnsIdTxtRecord → Type 0)
    → ((p : Pair) (seen : List Text) (r : DnsIdTxtRecord)
        → IsElement p
        → mem (tag_of p) seen ≡ false
        → P seen r
        → P (tag_of p ∷ seen) (store required_tags p r))
    → (first : Bool) (pairs : List Text) (seen : List Text) (r : DnsIdTxtRecord) (seen' : List Text)
      (r' : DnsIdTxtRecord)
    → parse_pairs first pairs seen r ≡ ok (seen', r')
    → P seen r
    → P seen' r'
unfolding parse_pairs
parse_pairs-keeps P step first [] seen r seen' r' h base =
    let a : seen ≡ seen' = ground arith in
    let b : r ≡ r' = ground arith in subst (P seen') b (subst (λ l. P l r) a base)
parse_pairs-keeps P step first ([] ∷ []) seen r seen' r' h base =
    let a : seen ≡ seen' = ground arith in
    let b : r ≡ r' = ground arith in subst (P seen') b (subst (λ l. P l r) a base)
parse_pairs-keeps P step first ([] ∷ t ∷ ts) seen r seen' r' h base = absurd (cc h)
parse_pairs-keeps P step first ((c ∷ cs) ∷ ts) seen r seen' r' h base =
    elim (Result-cases (parse_element first (c ∷ cs))) [
      | inr (x, q) ↦ absurd (ground arith)
      | inl ((tag, value), q) ↦
          let unseen : mem tag seen ≡ false = ground arith in
          let (element, same) = parse_element-IsElement first (c ∷ cs) (tag, value) q in
          parse_pairs-keeps P step false ts (tag ∷ seen) (store required_tags (tag, value) r) seen'
            r' (ground (arith, unseen)) (step (tag, value) seen r element unseen base)
    ]
