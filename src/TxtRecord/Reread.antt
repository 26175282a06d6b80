-- ===== src/TxtRecord/Reread.antt =====
-- The parser's loop over the elements that a valid record writes (dnsid/models.py,
-- DnsIdTxtRecord).
use dnsid_py.Base.{
  ◌≡◌, refl, ap, ◌∙◌, sym, Bool, true, false, ◌||◌, List, [], ◌∷◌, ◌++◌, All, bytes_eq,
  bytes_eq_iff, arith, Bool-cases, inl, inr, map, map-append,
}
use dnsid_py.Base.Decimal.{Text}
use dnsid_py.Base.Result.{ok}
use dnsid_py.TxtRecord.Texts.{mem, filter, all_of}
use dnsid_py.TxtRecord.Splitting.{all_of-All}
use dnsid_py.TxtRecord.Distinct.{
  Distinct, Unseen, Unseen-cons, mem-append, mem-filter, All-at, Distinct-filter, Distinct-append,
  All-at, All-members,
}
use dnsid_py.TxtRecord.Elements.{IsElement, All-join, parse_element-shown}
use dnsid_py.TxtRecord.Sound.{tag_of, IsExtension, IsValid}
use dnsid_py.TxtRecord.{
  Pair, known_tags, required_tags, is_valid_tag_name, is_valid_tag_value, DnsIdTxtRecord, store,
  store_pairs, set_pairs, is_set, shown, parse_pairs,
}

-- The tags seen after the elements.
abbrev pub seen_after : List Pair → List Text → List Text
seen_after [] seen = seen
seen_after ((tag, value) ∷ ps) seen = seen_after ps (tag ∷ seen)

pub mem-seen_after :
    (t : Text) (ps : List Pair) (seen : List Text)
    → mem t (seen_after ps seen) ≡ (mem t (map tag_of ps) || mem t seen)
unfolding mem
mem-seen_after t [] seen = refl
mem-seen_after t ((tag, value) ∷ ps) seen = ground (arith, mem-seen_after t ps (tag ∷ seen))

pub parse_pairs-shown :
    (first : Bool) (ps : List Pair) (seen : List Text) (r : DnsIdTxtRecord)
    → All IsElement ps
    → Distinct (map tag_of ps)
    → Unseen seen (map tag_of ps)
    → parse_pairs first (map shown ps) seen r
      ≡ ok (seen_after ps seen, store_pairs required_tags ps r)
unfolding parse_pairs store_pairs
parse_pairs-shown first [] seen r h dist unseen = refl
parse_pairs-shown first (([], value) ∷ ps) seen r ((n, v), hs) dist unseen =
    unfold is_valid_tag_name in absurd (cc n)
parse_pairs-shown first ((c ∷ cs, value) ∷ ps) seen r (h, hs) (d, dist) (u, unseen) =
    let rest =
      parse_pairs-shown false ps ((c ∷ cs) ∷ seen) (store required_tags (c ∷ cs, value) r) hs dist
        (Unseen-cons (c ∷ cs) seen (map tag_of ps) d unseen) in
    rw (parse_element-shown first (c ∷ cs, value) h, u) rest

-- The elements of a record.
abbrev pub elements : DnsIdTxtRecord → List Pair
elements r = set_pairs r known_tags ++ r.unknown_tags

set_pairs-tags :
    (r : DnsIdTxtRecord) (ks : List Text) → map tag_of (set_pairs r ks) ≡ filter (is_set r) ks
unfolding filter
set_pairs-tags r [] = refl
set_pairs-tags r (k ∷ ks) = elim (Bool-cases (is_set r k)) [
  | inl q ↦ rw q (ap (λ l. k ∷ l) (set_pairs-tags r ks))
  | inr q ↦ rw q (set_pairs-tags r ks)
]

set_pairs-elements :
    (r : DnsIdTxtRecord) (ks : List Text)
    → All (λ t. is_valid_tag_name t ≡ true) ks
    → All (λ t. is_valid_tag_value (r.value_of t) ≡ true) ks
    → All IsElement (set_pairs r ks)
unfolding filter
set_pairs-elements r [] n v = tt
set_pairs-elements r (k ∷ ks) (n, ns) (v, vs) = elim (Bool-cases (is_set r k)) [
  | inl q ↦ rw q (((n, v), set_pairs-elements r ks ns vs))
  | inr q ↦ rw q (set_pairs-elements r ks ns vs)
]

extension-elements : (ps : List Pair) → All IsExtension ps → All IsElement ps
extension-elements [] h = tt
extension-elements (p ∷ ps) ((e, k), hs) = (e, extension-elements ps hs)

pub known-names : All (λ t. is_valid_tag_name t ≡ true) known_tags
unfolding is_valid_tag_name all_of
known-names = (all_of-All is_valid_tag_name known_tags).0 refl

known-Distinct : Distinct known_tags
unfolding mem bytes_eq
known-Distinct = (refl, (refl, (refl, (refl, (refl, (refl, (refl, (refl, (refl, (refl, tt))))))))))

extension_lem :
    (x tag : Text) (tags : List Text)
    → mem x known_tags ≡ true
    → mem tag known_tags ≡ false
    → mem x tags ≡ false
    → mem x (tag ∷ tags) ≡ false
unfolding mem
extension_lem x tag tags k u rest = elim (Bool-cases (bytes_eq x tag)) [
  | inr q ↦ ground (arith, rest)
  | inl q ↦
      let same : x ≡ tag = (bytes_eq_iff x tag).0 q in
      absurd (clash (sym k ∙ (ap (λ t. mem t known_tags) same ∙ u)))
]
  where
    clash : true ≡ false → ⊥
    clash h = cc

-- Known tags are not extensions.
known-Unseen :
    (ps : List Pair) (ks : List Text)
    → All IsExtension ps
    → All (λ t. mem t known_tags ≡ true) ks
    → Unseen (map tag_of ps) ks
known-Unseen ps [] h k = tt
known-Unseen ps (x ∷ ks) h (k, hs) = (one ps h, known-Unseen ps ks h hs)
  where
    one : (ps : List Pair) → All IsExtension ps → mem x (map tag_of ps) ≡ false
    one [] h = unfold mem in refl
    one ((tag, value) ∷ ps) ((e, u), h) = extension_lem x tag (map tag_of ps) k u (one ps h)

pub elements-IsElement : (r : DnsIdTxtRecord) → IsValid r → All IsElement (elements r)
elements-IsElement r (v, full, values, ext, dist) =
    All-join IsElement (set_pairs r known_tags) r.unknown_tags
      (set_pairs-elements r known_tags known-names values) (extension-elements r.unknown_tags ext)

pub elements-Distinct : (r : DnsIdTxtRecord) → IsValid r → Distinct (map tag_of (elements r))
elements-Distinct r (v, full, values, ext, dist) =
    rw (map-append tag_of (set_pairs r known_tags) r.unknown_tags, set_pairs-tags r known_tags)
      (Distinct-append (filter (is_set r) known_tags) (map tag_of r.unknown_tags)
        (Distinct-filter (is_set r) known_tags known-Distinct) dist
        (known-Unseen r.unknown_tags (filter (is_set r) known_tags) ext (
          All-members _ (filter (is_set r) known_tags)
            (λ t m. ground (arith, m, mem-filter (is_set r) t known_tags)))))

-- A known tag that is set is among the elements.
pub mem-elements :
    (r : DnsIdTxtRecord) (t : Text)
    → mem t known_tags ≡ true
    → is_set r t ≡ true
    → mem t (map tag_of (elements r)) ≡ true
mem-elements r t k set =
    rw
      (
        map-append tag_of (set_pairs r known_tags) r.unknown_tags,
        set_pairs-tags r known_tags,
        mem-append t (filter (is_set r) known_tags) (map tag_of r.unknown_tags),
        mem-filter (is_set r) t known_tags,
        k,
        set,
      )
      refl

pub required-known : (t : Text) → mem t required_tags ≡ true → mem t known_tags ≡ true
unfolding mem all_of bytes_eq
required-known t h =
    All-at (λ u. mem u known_tags ≡ true) t required_tags
      ((all_of-All (λ u. mem u known_tags) required_tags).0 refl) h
