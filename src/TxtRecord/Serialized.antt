-- ===== src/TxtRecord/Serialized.antt =====
-- What a valid record writes (dnsid/models.py, `serialize`).
use dnsid_py.Base.{
  ◌≡◌, refl, ap, ◌∙◌, true, false, not, List, [], ◌∷◌, ◌++◌, All, arith, map, map-append, drop,
}
use mathlib.Core.Path.{subst}
use dnsid_py.Base.Decimal.{Text, codes}
use dnsid_py.TxtRecord.Texts.{mem, filter, join, starts_with}
use dnsid_py.TxtRecord.Splitting.{starts_with-tag}
use dnsid_py.TxtRecord.Distinct.{Distinct, bytes_eq_sym}
use dnsid_py.TxtRecord.Elements.{IsElement, name-Lacks}
use dnsid_py.TxtRecord.Sound.{tag_of, IsValid}
use dnsid_py.TxtRecord.Reread.{elements, elements-IsElement, elements-Distinct}
use dnsid_py.TxtRecord.{
  Pair, known_tags, DnsIdTxtRecord, set_pairs, is_set, shown, all_tags, serialize,
}

abbrev pub v_pair : DnsIdTxtRecord → Pair
v_pair r = (codes "v", r.value_of (codes "v"))

abbrev pub gi_pair : DnsIdTxtRecord → Pair
gi_pair r = (codes "gi", r.value_of (codes "gi"))

abbrev pub others : DnsIdTxtRecord → List Pair
others r = gi_pair r ∷ (set_pairs r (drop 2 known_tags) ++ r.unknown_tags)

pub elements-head : (r : DnsIdTxtRecord) → IsValid r → elements r ≡ v_pair r ∷ others r
unfolding filter
elements-head r (v, (has_v, (has_gi, full)), values, ext, dist) =
    let set_v : is_set r (codes "v") ≡ true = unfold is_set in ground (arith, has_v) in
    let set_gi : is_set r (codes "gi") ≡ true = unfold is_set in ground (arith, has_gi) in
    rw (set_v, set_gi) refl

kept :
    (ps : List Pair)
    → All IsElement ps
    → mem (codes "v") (map tag_of ps) ≡ false
    → filter (λ t. not (starts_with (codes "v=") t)) (map shown ps) ≡ map shown ps
unfolding filter mem
kept [] h m = refl
kept ((tag, value) ∷ ps) ((n, v), hs) m =
    let other : starts_with (codes "v=") (shown (tag, value)) ≡ false =
      starts_with-tag 61 (codes "v") tag value (ground arith, tt) (name-Lacks tag n)
      ∙ (bytes_eq_sym tag (codes "v") ∙ ground arith) in
    rw other (ap (λ l. shown (tag, value) ∷ l) (kept ps hs (ground arith)))

without_version :
    (value : Text) (ps : List Pair)
    → All IsElement ps
    → mem (codes "v") (map tag_of ps) ≡ false
    → filter (λ t. not (starts_with (codes "v=") t)) (map shown ((codes "v", value) ∷ ps))
      ≡ map shown ps
unfolding filter starts_with
without_version value ps h m = kept ps h m

-- The serialization of a valid record is its elements, joined.
pub serialize-elements :
    (r : DnsIdTxtRecord) → IsValid r → serialize r ≡ join 59 (map shown (elements r))
unfolding serialize all_tags join
serialize-elements r valid =
    let head = elements-head r valid in
    let (e, es) = subst (All IsElement) head (elements-IsElement r valid) in
    let (d, ds) = subst (λ l. Distinct (map tag_of l)) head (elements-Distinct r valid) in
    rw (← map-append shown (set_pairs r known_tags) r.unknown_tags, head)
      (ap (λ l. codes "v=" ++ (r.value_of (codes "v") ++ (59 ∷ join 59 l)))
        (without_version (r.value_of (codes "v")) (others r) es d))
