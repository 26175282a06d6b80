-- ===== src/TxtRecord/Unsigned.antt =====
-- What `parse_unsigned_canonical` returns (dnsid/models.py, DnsIdTxtRecord).
use dnsid_py.Base.{
  ◌≡◌, refl, ap, ◌∙◌, sym, Bool, true, false, List, [], ◌∷◌, ◌++◌, All, bytes_eq, bytes_eq_iff,
  if◌then◌else◌, arith, Bool-cases, inl, inr, ◌⊎◌, map,
}
use mathlib.Core.Path.{subst}
use dnsid_py.Base.Decimal.{Text, codes}
use dnsid_py.Base.Result.{ok, Result-cases}
use dnsid_py.TxtRecord.Texts.{mem, is_nil, split, filter}
use dnsid_py.TxtRecord.Splitting.{All-every}
use dnsid_py.TxtRecord.Distinct.{Distinct, bytes_eq_sym, All-at, All-members}
use dnsid_py.TxtRecord.Elements.{IsElement, parse_element-IsElement}
use dnsid_py.TxtRecord.Stored.{sets, store-value}
use dnsid_py.TxtRecord.Filled.{AreOptional, store_pairs-AreOptional, canonical-filled}
use dnsid_py.TxtRecord.Refilled.{store_pairs-append}
use dnsid_py.TxtRecord.Sound.{
  tag_of, IsExtension, IsConsistent, mem-head, fresh_record-IsConsistent, store-IsConsistent,
}
use dnsid_py.TxtRecord.{
  Pair, known_tags, required_unsigned, is_supported_version, is_valid_tag_value, DnsIdTxtRecord,
  fresh_record, store, store_pairs, parse_element, Collected, collect_pairs,
  parse_unsigned_canonical, canonical, missing,
}

abbrev built : List Pair → DnsIdTxtRecord
built ps = store_pairs required_unsigned ps fresh_record

abbrev Noted : Text → List Text → DnsIdTxtRecord → Type 0
Noted version seen r =
    ((mem (codes "v") seen ≡ true) × (r.value_of (codes "v") ≡ version)) ⊎ (version ≡ [])

-- The pairs collected so far build a consistent record, whose version is the one noted.
abbrev Builds : Collected → Type 0
Builds s =
    IsConsistent s.seen (built s.parsed_pairs) × Noted s.version s.seen (built s.parsed_pairs)

abbrev collected : Pair → Collected → Collected
collected (tag, value) s = record {
  seen = tag ∷ s.seen;
  parsed_pairs = s.parsed_pairs ++ ((tag, value) ∷ []);
  version = if bytes_eq tag (codes "v") then value else s.version;
}

store-Noted :
    (value : Text) (seen : List Text) (r : DnsIdTxtRecord)
    → Noted value (codes "v" ∷ seen) (store required_unsigned (codes "v", value) r)
unfolding mem bytes_eq
store-Noted value seen r = inl (
  mem-head (codes "v") seen,
  store-value required_unsigned (codes "v") value r (codes "v")
      ∙ elim (Bool-cases (is_nil value)) [ inl q ↦ rw q refl | inr q ↦ rw q refl ],
)

store-keeps :
    (tag value version : Text) (seen : List Text) (r : DnsIdTxtRecord)
    → bytes_eq tag (codes "v") ≡ false
    → Noted version seen r
    → Noted version (tag ∷ seen) (store required_unsigned (tag, value) r)
unfolding mem
store-keeps tag value version seen r other (inr e) = inr e
store-keeps tag value version seen r other (inl (there, is)) =
    let apart : bytes_eq (codes "v") tag ≡ false = bytes_eq_sym (codes "v") tag ∙ other in
    inl (
      ground (arith, there),
      store-value required_unsigned tag value r (codes "v")
          ∙ rw apart (elim (Bool-cases (sets required_unsigned (tag, value))) [
            | inl q ↦ rw q is
            | inr q ↦ rw q is
          ]),
    )

collect-step :
    (p : Pair) (s : Collected)
    → IsElement p
    → mem (tag_of p) s.seen ≡ false
    → Builds s
    → Builds (collected p s)
collect-step (tag, value) s element unseen (consistent, version) =
    let grown : built (s.parsed_pairs ++ ((tag, value) ∷ []))
        ≡ store required_unsigned (tag, value) (built s.parsed_pairs) =
      store_pairs-append required_unsigned s.parsed_pairs ((tag, value) ∷ []) fresh_record
      ∙ (unfold store_pairs in refl) in
    (
      rw grown (
          store-IsConsistent required_unsigned (tag, value) s.seen (built s.parsed_pairs) element
            unseen consistent),
      rw grown elim (Bool-cases (bytes_eq tag (codes "v"))) [
        | inl q ↦
            rw (q, (bytes_eq_iff tag (codes "v")).0 q)
              (store-Noted value s.seen (built s.parsed_pairs))
        | inr q ↦ rw q (store-keeps tag value s.version s.seen (built s.parsed_pairs) q version)
      ],
    )

collect_pairs-Builds :
    (first : Bool) (pairs : List Text) (s s' : Collected)
    → collect_pairs first pairs s ≡ ok s'
    → Builds s
    → Builds s'
unfolding collect_pairs
collect_pairs-Builds first [] s s' h base = subst Builds (ground arith) base
collect_pairs-Builds first ([] ∷ []) s s' h base = subst Builds (ground arith) base
collect_pairs-Builds first ([] ∷ t ∷ ts) s s' h base = absurd (cc h)
collect_pairs-Builds first ((c ∷ cs) ∷ ts) s s' h base =
    elim (Result-cases (parse_element first (c ∷ cs))) [
      | inr (x, q) ↦ absurd (ground arith)
      | inl ((tag, value), q) ↦
          let unseen : mem tag s.seen ≡ false = ground arith in
          let unsigned : bytes_eq tag (codes "sg") ≡ false = ground arith in
          let (element, same) = parse_element-IsElement first (c ∷ cs) (tag, value) q in
          collect_pairs-Builds false ts (collected (tag, value) s) s'
            (ground (arith, unseen, unsigned)) (collect-step (tag, value) s element unseen base)
    ]

abbrev start : Collected
start = record { seen = []; parsed_pairs = []; version = [] }

start-Builds : Builds start
unfolding store_pairs
start-Builds =
    let (values, ext, dist, among) = fresh_record-IsConsistent in
    ((values, ext, dist, among), inr refl)

version_lem :
    (version : Text) (seen : List Text) (b : DnsIdTxtRecord)
    → is_supported_version version ≡ true
    → Noted version seen b
    → is_supported_version (b.value_of (codes "v")) ≡ true
unfolding mem bytes_eq
version_lem version seen b supported (inl (there, is)) = ap is_supported_version is ∙ supported
version_lem version seen b supported (inr missing') =
    absurd (clash (sym (ap is_supported_version missing') ∙ supported))
  where
    clash : false ≡ true → ⊥
    clash h = cc

none_missing :
    (seen ts : List Text) → is_nil (missing ts seen) ≡ true → All (λ t. mem t seen ≡ true) ts
unfolding filter is_nil
none_missing seen [] h = tt
none_missing seen (t ∷ ts) h = elim (Bool-cases (mem t seen)) [
  | inl q ↦ (q, none_missing seen ts (ground arith))
  | inr q ↦ absurd (ground arith)
]

start-AreOptional : AreOptional fresh_record
start-AreOptional = tt

-- The record that an unsigned canonical form describes.
abbrev pub IsUnsigned : Text → DnsIdTxtRecord → Type 0
IsUnsigned raw r =
    (is_supported_version (r.value_of (codes "v")) ≡ true)
    × All (λ t. is_nil (r.value_of t) ≡ false) required_unsigned
    × All (λ t. is_valid_tag_value (r.value_of t) ≡ true) known_tags
    × All IsExtension r.unknown_tags
    × Distinct (map tag_of r.unknown_tags)
    × (canonical r ≡ raw)

pub parse_unsigned_canonical-IsUnsigned :
    (raw : Text) (r : DnsIdTxtRecord) → parse_unsigned_canonical raw ≡ ok r → IsUnsigned raw r
unfolding parse_unsigned_canonical
parse_unsigned_canonical-IsUnsigned raw r h =
    elim (Result-cases (collect_pairs true (split 59 raw) start)) [
      | inr (x, q) ↦ absurd (ground arith)
      | inl (s, q) ↦
          let same : built s.parsed_pairs ≡ r = ground arith in
          let supported : is_supported_version s.version ≡ true = ground arith in
          let (consistent, version) =
            collect_pairs-Builds true (split 59 raw) start s q start-Builds in
          let form : canonical r ≡ raw = ground (arith, bytes_eq_iff (canonical r) raw) in
          let (values, ext, dist, among) = consistent in
          let raw_is : raw ≡ canonical (built s.parsed_pairs) = sym (ap canonical same ∙ form) in
          let full : is_nil (missing required_unsigned s.seen) ≡ true = ground arith in
          let whole : IsUnsigned (canonical (built s.parsed_pairs)) (built s.parsed_pairs) = (
            version_lem s.version s.seen (built s.parsed_pairs) supported version,
            All-members (λ t. is_nil ((built s.parsed_pairs).value_of t) ≡ false) required_unsigned
                (λ t required.
                  canonical-filled (built s.parsed_pairs) start s t
                    (store_pairs-AreOptional s.parsed_pairs fresh_record start-AreOptional)
                    (All-every _ values known_tags) ext
                    (subst (λ l. collect_pairs true (split 59 l) start ≡ ok s) raw_is q) refl
                    required
                    (All-at (λ u. mem u s.seen ≡ true) t required_unsigned
                      (none_missing s.seen required_unsigned full) required)),
            All-every _ values known_tags,
            ext,
            dist,
            refl,
          ) in
          subst (λ l. IsUnsigned l r) form (subst (λ b. IsUnsigned (canonical b) b) same whole)
    ]
