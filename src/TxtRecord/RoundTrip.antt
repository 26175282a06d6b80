-- ===== src/TxtRecord/RoundTrip.antt =====
-- A valid record is parsed back from its serialization (dnsid/models.py, DnsIdTxtRecord).
use dnsid_py.Base.{
  ◌≡◌, refl, ap, ◌∙◌, Bool, true, false, not, List, [], ◌∷◌, All, bytes_eq, arith, map,
}
use mathlib.Core.Path.{subst}
use dnsid_py.Base.Decimal.{Text, codes}
use dnsid_py.Base.Result.{ok}
use dnsid_py.TxtRecord.Texts.{mem, is_nil, filter, all_of, join, split, starts_with, strip}
use dnsid_py.TxtRecord.Splitting.{Lacks, all_of-All, strip-IsDense, split-join}
use dnsid_py.TxtRecord.Distinct.{Unseen, All-at, All-members}
use dnsid_py.TxtRecord.Elements.{IsElement, shown-Lacks, shown-IsDense}
use dnsid_py.TxtRecord.Sound.{IsValid}
use dnsid_py.TxtRecord.Reread.{
  seen_after, mem-seen_after, parse_pairs-shown, elements, elements-IsElement, elements-Distinct,
  mem-elements, required-known,
}
use dnsid_py.TxtRecord.Serialized.{v_pair, others, elements-head, serialize-elements}
use dnsid_py.TxtRecord.Rebuilt.{refilled, refilled-value, refilled-unknown_tags, refilled-all_tags}
use dnsid_py.TxtRecord.{
  Pair, known_tags, required_tags, DnsIdTxtRecord, fresh_record, store_pairs, is_set, shown,
  canonical, first_of, parse_pairs, parse, serialize, missing,
}

none_left : (p : Text → Bool) (ts : List Text) → All (λ t. p t ≡ false) ts → filter p ts ≡ []
unfolding filter
none_left p [] h = refl
none_left p (t ∷ ts) (h, hs) = rw h (none_left p ts hs)

map-shown-Lacks : (ps : List Pair) → All IsElement ps → All (Lacks 59) (map shown ps)
map-shown-Lacks [] h = tt
map-shown-Lacks (p ∷ ps) (h, hs) = (shown-Lacks p h, map-shown-Lacks ps hs)

nil-Unseen : (ts : List Text) → Unseen [] ts
unfolding mem
nil-Unseen [] = tt
nil-Unseen (t ∷ ts) = (refl, nil-Unseen ts)

-- The elements are split apart again, the version first.
split-elements :
    (r : DnsIdTxtRecord)
    → IsValid r
    → split 59 (join 59 (map shown (elements r))) ≡ map shown (elements r)
split-elements r valid =
    let head = elements-head r valid in
    rw head (
      split-join 59 (shown (v_pair r)) (map shown (others r)) (
        map-shown-Lacks (v_pair r ∷ others r)
          (subst (All IsElement) head (elements-IsElement r valid))))

first-elements :
    (r : DnsIdTxtRecord) → IsValid r → strip (first_of (map shown (elements r))) ≡ shown (v_pair r)
first-elements r valid =
    let head = elements-head r valid in
    let (element, rest) = subst (All IsElement) head (elements-IsElement r valid) in
    rw head (strip-IsDense (shown (v_pair r)) (shown-IsDense (v_pair r) element))

-- No required tag is missing, and none is empty.
nothing_missing :
    (r : DnsIdTxtRecord) → IsValid r → missing required_tags (seen_after (elements r) []) ≡ []
unfolding mem is_set
nothing_missing r (v, full, values, ext, dist) =
    none_left (λ t. not (mem t (seen_after (elements r) []))) required_tags
      (All-members (λ t. not (mem t (seen_after (elements r) [])) ≡ false) required_tags
        (λ t q.
          let there : is_set r t ≡ true =
            ground (arith, All-at (λ u. is_nil (r.value_of u) ≡ false) t required_tags full q) in
          rw (mem-seen_after t (elements r) [], mem-elements r t (required-known t q) there) refl))

nothing_empty :
    (r : DnsIdTxtRecord)
    → IsValid r
    → all_of (λ t. not (is_nil ((refilled r).value_of t))) required_tags ≡ true
nothing_empty r (v, full, values, ext, dist) =
    (all_of-All (λ t. not (is_nil ((refilled r).value_of t))) required_tags).1 (
      All-members (λ t. not (is_nil ((refilled r).value_of t)) ≡ true) required_tags
        (λ t q.
          rw
            (
              refilled-value r (v, full, values, ext, dist) t (required-known t q),
              All-at (λ u. is_nil (r.value_of u) ≡ false) t required_tags full q,
            )
            refl))

-- What a parser returns for a record, if it is rebuilt from its elements.
pub parse-join :
    (r : DnsIdTxtRecord) → IsValid r → parse (join 59 (map shown (elements r))) ≡ ok (refilled r)
unfolding parse starts_with refilled store_pairs is_nil
parse-join r valid =
    let looped : parse_pairs true (map shown (elements r)) [] fresh_record
        ≡ ok (seen_after (elements r) [], refilled r) =
      parse_pairs-shown true (elements r) [] fresh_record (elements-IsElement r valid)
        (elements-Distinct r valid) (nil-Unseen _) in
    rw
      (
        split-elements r valid,
        first-elements r valid,
        valid.0,
        looped,
        nothing_missing r valid,
        nothing_empty r valid,
      )
      refl

-- The serialization of a valid record parses, to a record with the same value for every known
-- tag, the same extensions in their order, the same canonical form for the signature, and the
-- same serialization.
pub parse-serialize :
    (r : DnsIdTxtRecord)
    → IsValid r
    → (s : DnsIdTxtRecord) × (parse (serialize r) ≡ ok s)
      × All (λ t. s.value_of t ≡ r.value_of t) known_tags
      × (s.unknown_tags ≡ r.unknown_tags)
      × (canonical s ≡ canonical r)
      × (serialize s ≡ serialize r)
unfolding canonical serialize
parse-serialize r valid =
    let tags = refilled-all_tags r valid in
    (
      refilled r,
      ap parse (serialize-elements r valid) ∙ parse-join r valid,
      All-members _ known_tags (λ t k. refilled-value r valid t k),
      refilled-unknown_tags r valid,
      rw tags refl,
      rw (tags, refilled-value r valid (codes "v") (unfold mem bytes_eq in refl)) refl,
    )
