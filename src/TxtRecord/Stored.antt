-- ===== src/TxtRecord/Stored.antt =====
-- What storing one tag does to each part of a record (dnsid/models.py, DnsIdTxtRecord).
use dnsid_py.Base.{
  ◌≡◌, refl, Bool, not, ◌&&◌, ◌||◌, List, [], ◌∷◌, ◌++◌, bytes_eq, if◌then◌else◌, Bool-cases, inl,
  inr,
}
use dnsid_py.Base.Decimal.{Text}
use dnsid_py.TxtRecord.Texts.{mem, is_nil}
use dnsid_py.TxtRecord.{Pair, known_tags, DnsIdTxtRecord, store}

-- The attribute is set.
abbrev pub sets : List Text → Pair → Bool
sets required (tag, value) = mem tag known_tags && (not (is_nil value) || mem tag required)

pub store-value :
    (required : List Text) (tag value : Text) (r : DnsIdTxtRecord) (t : Text)
    → (store required (tag, value) r).value_of t
      ≡ (if sets required (tag, value) && bytes_eq t tag then value else r.value_of t)
unfolding store
store-value required tag value r t = elim (Bool-cases (mem tag known_tags)) [
  | inr p ↦ rw p refl
  | inl p ↦ elim (Bool-cases (mem tag required)) [
    | inl q ↦ rw (p, q) (elim (Bool-cases (is_nil value)) [ inl s ↦ rw s refl | inr s ↦ rw s refl ])
    | inr q ↦ rw (p, q) (elim (Bool-cases (is_nil value)) [ inl s ↦ rw s refl | inr s ↦ rw s refl ])
  ]
]

pub store-unknown_tags :
    (required : List Text) (tag value : Text) (r : DnsIdTxtRecord)
    → (store required (tag, value) r).unknown_tags
      ≡ (if mem tag known_tags then r.unknown_tags else r.unknown_tags ++ ((tag, value) ∷ []))
unfolding store
store-unknown_tags required tag value r = elim (Bool-cases (mem tag known_tags)) [
  | inr p ↦ rw p refl
  | inl p ↦ elim (Bool-cases (mem tag required)) [
    | inl q ↦ rw (p, q) (elim (Bool-cases (is_nil value)) [ inl s ↦ rw s refl | inr s ↦ rw s refl ])
    | inr q ↦ rw (p, q) (elim (Bool-cases (is_nil value)) [ inl s ↦ rw s refl | inr s ↦ rw s refl ])
  ]
]

pub store-parsed_optional_tags :
    (required : List Text) (tag value : Text) (r : DnsIdTxtRecord)
    → (store required (tag, value) r).parsed_optional_tags ≡ (
        if mem tag known_tags && not (mem tag required)
        then tag ∷ r.parsed_optional_tags
        else r.parsed_optional_tags)
unfolding store
store-parsed_optional_tags required tag value r = elim (Bool-cases (mem tag known_tags)) [
  | inr p ↦ rw p refl
  | inl p ↦ elim (Bool-cases (mem tag required)) [
    | inl q ↦ rw (p, q) (elim (Bool-cases (is_nil value)) [ inl s ↦ rw s refl | inr s ↦ rw s refl ])
    | inr q ↦ rw (p, q) (elim (Bool-cases (is_nil value)) [ inl s ↦ rw s refl | inr s ↦ rw s refl ])
  ]
]
