-- ===== src/TxtRecord/Refilled.antt =====
-- Storing the tags that a record shows gives the record back (dnsid/models.py, DnsIdTxtRecord).
use dnsid_py.Base.{
  ◌≡◌, refl, ap, ◌∙◌, sym, Bool, true, false, not, ◌&&◌, ◌||◌, List, [], ◌∷◌, ◌++◌, All, bytes_eq,
  bytes_eq_iff, if◌then◌else◌, arith, Bool-cases, inl, inr, append-nil, append_assoc,
}
use dnsid_py.Base.Decimal.{Text}
use dnsid_py.TxtRecord.Texts.{mem, is_nil, filter}
use dnsid_py.TxtRecord.Stored.{store-value, store-unknown_tags, store-parsed_optional_tags}
use dnsid_py.TxtRecord.Sound.{tag_of}
use dnsid_py.TxtRecord.{Pair, known_tags, DnsIdTxtRecord, store, store_pairs, set_pairs, is_set}

pub store_pairs-append :
    (required : List Text) (ps qs : List Pair) (base : DnsIdTxtRecord)
    → store_pairs required (ps ++ qs) base ≡ store_pairs required qs (store_pairs required ps base)
unfolding store_pairs
store_pairs-append required [] qs base = refl
store_pairs-append required (p ∷ ps) qs base =
    store_pairs-append required ps qs (store required p base)

abbrev AreKnown : List Text → Type 0
AreKnown ts = All (λ t. mem t known_tags ≡ true) ts

-- The tag is shown and read back into its attribute.
abbrev pub returns : List Text → DnsIdTxtRecord → Text → Bool
returns required r t = is_set r t && (not (is_nil (r.value_of t)) || mem t required)

module _ (required : List Text) (r : DnsIdTxtRecord) where
  pub known-value_of :
      (ks : List Text) (base : DnsIdTxtRecord) (t : Text)
      → AreKnown ks
      → (store_pairs required (set_pairs r ks) base).value_of t
        ≡ (if mem t ks && returns required r t then r.value_of t else base.value_of t)
  unfolding store_pairs filter mem
  known-value_of [] base t h = refl
  known-value_of (k ∷ ks) base t (h, hs) = elim (Bool-cases (is_set r k)) [
    | inr q ↦ rw q (
        known-value_of ks base t hs ∙ elim (Bool-cases (bytes_eq t k)) [
          | inl s ↦
              let same : t ≡ k = (bytes_eq_iff t k).0 s in
              ground (arith, ap (is_set r) same, ap r.value_of same, ap (λ x. mem x required) same)
          | inr s ↦ ground (arith)
        ])
    | inl q ↦ rw q (
        known-value_of ks (store required (k, r.value_of k) base) t hs
        ∙ elim (Bool-cases (bytes_eq t k)) [
          | inl s ↦
              let same : t ≡ k = (bytes_eq_iff t k).0 s in
              ground (
                arith,
                ap (is_set r) same,
                ap r.value_of same,
                ap (λ x. mem x required) same,
                store-value required k (r.value_of k) base t,
              )
          | inr s ↦ ground (arith, store-value required k (r.value_of k) base t)
        ])
  ]

  pub known-unknown_tags :
      (ks : List Text) (base : DnsIdTxtRecord)
      → AreKnown ks
      → (store_pairs required (set_pairs r ks) base).unknown_tags ≡ base.unknown_tags
  unfolding store_pairs filter
  known-unknown_tags [] base h = refl
  known-unknown_tags (k ∷ ks) base (h, hs) = elim (Bool-cases (is_set r k)) [
    | inr q ↦ rw q (known-unknown_tags ks base hs)
    | inl q ↦ rw q (
        known-unknown_tags ks (store required (k, r.value_of k) base) hs
        ∙ store-unknown_tags required k (r.value_of k) base
        ∙ rw h refl)
  ]

  pub known-parsed_optional_tags :
      (ks : List Text) (base : DnsIdTxtRecord) (t : Text)
      → AreKnown ks
      → mem t (store_pairs required (set_pairs r ks) base).parsed_optional_tags
        ≡ ((mem t ks && (is_set r t && not (mem t required))) || mem t base.parsed_optional_tags)
  unfolding store_pairs filter mem
  known-parsed_optional_tags [] base t h = refl
  known-parsed_optional_tags (k ∷ ks) base t (h, hs) = elim (Bool-cases (is_set r k)) [
    | inr q ↦ rw q (
        known-parsed_optional_tags ks base t hs ∙ elim (Bool-cases (bytes_eq t k)) [
          | inl s ↦
              let same : t ≡ k = (bytes_eq_iff t k).0 s in
              ground (arith, ap (is_set r) same, ap r.value_of same, ap (λ x. mem x required) same)
          | inr s ↦ ground (arith)
        ])
    | inl q ↦ rw q (
        known-parsed_optional_tags ks (store required (k, r.value_of k) base) t hs
        ∙ elim (Bool-cases (bytes_eq t k)) [
          | inl s ↦
              let same : t ≡ k = (bytes_eq_iff t k).0 s in
              ground (
                arith,
                ap (is_set r) same,
                ap r.value_of same,
                ap (λ x. mem x required) same,
                ap (mem t) (store-parsed_optional_tags required k (r.value_of k) base),
              )
          | inr s ↦
              ground (arith, ap (mem t) (store-parsed_optional_tags required k (r.value_of k) base))
        ])
  ]

  -- Extensions are kept in order and change nothing else.
  pub extensions-stored :
      (us : List Pair) (base : DnsIdTxtRecord)
      → All (λ p. mem (tag_of p) known_tags ≡ false) us
      → store_pairs required us base ≡ record base { unknown_tags = base.unknown_tags ++ us }
  unfolding store_pairs store
  extensions-stored [] base h = ap (λ l. record base { unknown_tags = l }) (sym (append-nil _))
  extensions-stored ((tag, value) ∷ us) base (h, hs) = rw h (
      extensions-stored us _ hs
      ∙ ap (λ l. record base { unknown_tags = l })
          (append_assoc base.unknown_tags ((tag, value) ∷ []) us))
