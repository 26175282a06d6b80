-- ===== src/TxtRecord/Filled.antt =====
-- An unsigned canonical form has no empty required value (dnsid/models.py,
-- `parse_unsigned_canonical`): its text would not be the canonical form of the record.
use dnsid_py.Base.{
  ◌≡◌, refl, ap, ◌∙◌, sym, Bool, true, false, not, List, [], ◌∷◌, ◌++◌, All, bytes_eq, bytes_eq_iff,
  if◌then◌else◌, arith, Bool-cases, inl, inr, ◌⊎◌, map,
}
use mathlib.Core.Path.{subst}
use dnsid_py.Base.Decimal.{Text, codes}
use dnsid_py.Base.Result.{ok}
use dnsid_py.TxtRecord.Texts.{mem, is_nil, filter, all_of, split, join, text_le, starts_with}
use dnsid_py.TxtRecord.Splitting.{Lacks, all_of-All, split-join}
use dnsid_py.TxtRecord.Distinct.{All-at}
use dnsid_py.TxtRecord.Elements.{IsElement, All-join, shown-Lacks, parse_element-shown}
use dnsid_py.TxtRecord.Stored.{store-parsed_optional_tags}
use dnsid_py.TxtRecord.Sound.{tag_of, IsExtension}
use dnsid_py.TxtRecord.Reread.{known-names}
use dnsid_py.TxtRecord.{
  Pair, known_tags, required_unsigned, is_valid_tag_name, is_valid_tag_value, DnsIdTxtRecord, store,
  store_pairs, parse_element, Collected, collect_pairs, set_pairs, is_set, shown, all_tags,
  insert_by, sorted_by, tag_part, canonical,
}

-- Tags that are not required are all that `_parsed_optional_tags` gets.
abbrev pub AreOptional : DnsIdTxtRecord → Type 0
AreOptional r = All (λ t. mem t required_unsigned ≡ false) r.parsed_optional_tags

store-AreOptional :
    (p : Pair) (r : DnsIdTxtRecord) → AreOptional r → AreOptional (store required_unsigned p r)
store-AreOptional (tag, value) r h =
    rw (store-parsed_optional_tags required_unsigned tag value r)
      (elim (Bool-cases (mem tag known_tags)) [
        | inr p ↦ rw p h
        | inl p ↦ elim (Bool-cases (mem tag required_unsigned)) [
          | inl q ↦ rw (p, q) h
          | inr q ↦ rw (p, q) ((q, h))
        ]
      ])

pub store_pairs-AreOptional :
    (ps : List Pair) (r : DnsIdTxtRecord)
    → AreOptional r
    → AreOptional (store_pairs required_unsigned ps r)
unfolding store_pairs
store_pairs-AreOptional [] r h = h
store_pairs-AreOptional (p ∷ ps) r h =
    store_pairs-AreOptional ps (store required_unsigned p r) (store-AreOptional p r h)

unsigned-known : (t : Text) → mem t required_unsigned ≡ true → mem t known_tags ≡ true
unfolding mem all_of bytes_eq
unsigned-known t h =
    All-at (λ u. mem u known_tags ≡ true) t required_unsigned
      ((all_of-All (λ u. mem u known_tags) required_unsigned).0 refl) h

filter-All :
    {A : Type 0} (P : A → Type 0) (f : A → Bool) (xs : List A) → All P xs → All P (filter f xs)
unfolding filter
filter-All P f [] h = tt
filter-All P f (x ∷ xs) (h, hs) = elim (Bool-cases (f x)) [
  | inl q ↦ rw q ((h, filter-All P f xs hs))
  | inr q ↦ rw q (filter-All P f xs hs)
]

insert_by-All :
    (P : Text → Type 0) (key : Text → Text) (t : Text) (ts : List Text)
    → P t
    → All P ts
    → All P (insert_by key t ts)
unfolding insert_by
insert_by-All P key t [] p h = (p, tt)
insert_by-All P key t (u ∷ us) p (h, hs) = elim (Bool-cases (text_le (key t) (key u))) [
  | inl q ↦ rw q ((p, (h, hs)))
  | inr q ↦ rw q ((h, insert_by-All P key t us p hs))
]

sorted_by-All :
    (P : Text → Type 0) (key : Text → Text) (ts : List Text) → All P ts → All P (sorted_by key ts)
unfolding sorted_by
sorted_by-All P key [] h = tt
sorted_by-All P key (t ∷ ts) (h, hs) =
    insert_by-All P key t (sorted_by key ts) h (sorted_by-All P key ts hs)

module _ (r : DnsIdTxtRecord) where
  -- An element as the record writes it: a required one is set.
  abbrev IsWritten : Text → Type 0
  IsWritten x =
      (p : Pair) × IsElement p
      × (x ≡ shown p)
      × ((mem (tag_of p) required_unsigned ≡ false) ⊎ (is_set r (tag_of p) ≡ true))

  known-IsWritten :
      (ks : List Text)
      → All (λ t. is_valid_tag_name t ≡ true) ks
      → All (λ t. is_valid_tag_value (r.value_of t) ≡ true) ks
      → All IsWritten (map shown (set_pairs r ks))
  unfolding filter
  known-IsWritten [] n v = tt
  known-IsWritten (k ∷ ks) (n, ns) (v, vs) = elim (Bool-cases (is_set r k)) [
    | inl q ↦ rw q ((((k, r.value_of k), (n, v), refl, inr q), known-IsWritten ks ns vs))
    | inr q ↦ rw q (known-IsWritten ks ns vs)
  ]

  extension-IsWritten : (ps : List Pair) → All IsExtension ps → All IsWritten (map shown ps)
  extension-IsWritten [] h = tt
  extension-IsWritten (p ∷ ps) ((element, unknown), hs) =
      ((p, element, refl, inl (unrequired (tag_of p) unknown)), extension-IsWritten ps hs)
    where
      unrequired : (t : Text) → mem t known_tags ≡ false → mem t required_unsigned ≡ false
      unrequired t h = elim (Bool-cases (mem t required_unsigned)) [
        | inr q ↦ q
        | inl q ↦ absurd (clash (sym (unsigned-known t q) ∙ h))
      ]
        where
          clash : true ≡ false → ⊥
          clash h = cc

  seen_before :
      (t tag value : Text) (seen : List Text)
      → (mem tag required_unsigned ≡ false) ⊎ (is_set r tag ≡ true)
      → mem t required_unsigned ≡ true
      → mem t (tag ∷ seen) ≡ true
      → (mem t seen ≡ true) ⊎ (is_set r t ≡ true)
  unfolding mem
  seen_before t tag value seen set required more = elim (Bool-cases (bytes_eq t tag)) [
    | inr q ↦ inl (ground (arith, more))
    | inl q ↦ inr (tag_lem ((bytes_eq_iff t tag).0 q) set)
  ]
    where
      tag_lem :
          t ≡ tag → (mem tag required_unsigned ≡ false) ⊎ (is_set r tag ≡ true) → is_set r t ≡ true
      tag_lem same (inl spare) =
          absurd (clash (sym required ∙ (ap (λ u. mem u required_unsigned) same ∙ spare)))
        where
          clash : true ≡ false → ⊥
          clash h = cc
      tag_lem same (inr is) = ap (is_set r) same ∙ is

  -- A required tag that the loop has seen is set.
  collect_pairs-is_set :
      (first : Bool) (pairs : List Text) (s s' : Collected) (t : Text)
      → All IsWritten pairs
      → collect_pairs first pairs s ≡ ok s'
      → mem t required_unsigned ≡ true
      → mem t s'.seen ≡ true
      → (mem t s.seen ≡ true) ⊎ (is_set r t ≡ true)
  unfolding collect_pairs
  collect_pairs-is_set first [] s s' t written h required there =
      let same : s ≡ s' = ground arith in
      inl (subst (λ (x : Collected). mem t x.seen ≡ true) (sym same) there)
  collect_pairs-is_set first ([] ∷ []) s s' t written h required there =
      let same : s ≡ s' = ground arith in
      inl (subst (λ (x : Collected). mem t x.seen ≡ true) (sym same) there)
  collect_pairs-is_set first ([] ∷ u ∷ us) s s' t written h required there = absurd (cc h)
  collect_pairs-is_set first ((x ∷ xs) ∷ us) s s' t (((tag, value), element, same, set), written) h
        required there =
      let read : parse_element first (x ∷ xs) ≡ ok (tag, value) =
        ap (parse_element first) same ∙ parse_element-shown first (tag, value) element in
      elim (collect_pairs-is_set false us
        (record {
          seen = tag ∷ s.seen;
          parsed_pairs = s.parsed_pairs ++ ((tag, value) ∷ []);
          version = if bytes_eq tag (codes "v") then value else s.version;
        })
        s' t written (ground (arith, read)) required there) [
          | inr is ↦ inr is
          | inl more ↦ seen_before t tag value s.seen set required more
        ]

  -- All that the canonical form joins is written by the record.
  canonical-IsWritten :
      (p : Text → Bool)
      → All (λ t. is_valid_tag_value (r.value_of t) ≡ true) known_tags
      → All IsExtension r.unknown_tags
      → All IsWritten (sorted_by tag_part (filter p (all_tags r)))
  unfolding all_tags
  canonical-IsWritten p values ext = sorted_by-All IsWritten tag_part _ (
      filter-All IsWritten p _ (
        All-join IsWritten (map shown (set_pairs r known_tags)) (map shown r.unknown_tags)
          (known-IsWritten known_tags known-names values) (extension-IsWritten r.unknown_tags ext)))

  written-Lacks : (xs : List Text) → All IsWritten xs → All (Lacks 59) xs
  written-Lacks [] h = tt
  written-Lacks (x ∷ xs) ((p, element, same, set), hs) =
      (subst (Lacks 59) (sym same) (shown-Lacks p element), written-Lacks xs hs)

  -- A required tag that is set has a value.
  set-filled :
      (t : Text)
      → AreOptional r
      → mem t required_unsigned ≡ true
      → is_set r t ≡ true
      → is_nil (r.value_of t) ≡ false
  unfolding is_set
  set-filled t optional required set = elim (Bool-cases (is_nil (r.value_of t))) [
    | inr q ↦ q
    | inl q ↦
        let listed : mem t r.parsed_optional_tags ≡ true = ground arith in
        absurd (
          clash (
            sym required
            ∙ All-at (λ u. mem u required_unsigned ≡ false) t r.parsed_optional_tags optional
                listed))
  ]
    where
      clash : true ≡ false → ⊥
      clash h = cc

  joined-filled :
      (xs : List Text) (s s' : Collected) (t : Text)
      → AreOptional r
      → All IsWritten xs
      → collect_pairs true (split 59 (join 59 xs)) s ≡ ok s'
      → s.seen ≡ []
      → mem t required_unsigned ≡ true
      → mem t s'.seen ≡ true
      → is_nil (r.value_of t) ≡ false
  unfolding collect_pairs split join mem
  joined-filled [] s s' t optional written h fresh required there =
      let same : s ≡ s' = ground arith in
      absurd (clash (sym there ∙ ap (mem t) (ap (λ (x : Collected). x.seen) (sym same) ∙ fresh)))
    where
      clash : true ≡ false → ⊥
      clash h = cc
  joined-filled (x ∷ xs) s s' t optional written h fresh required there =
      let pieces = split-join 59 x xs (written-Lacks (x ∷ xs) written) in
      elim (collect_pairs-is_set true (x ∷ xs) s s' t written
        (subst (λ l. collect_pairs true l s ≡ ok s') pieces h) required there) [
          | inr set ↦ set-filled t optional required set
          | inl seen ↦ absurd (clash (sym seen ∙ ap (mem t) fresh))
        ]
    where
      clash : true ≡ false → ⊥
      clash h = cc

  -- The required tags that were seen in the canonical form have values.
  pub canonical-filled :
      (s s' : Collected) (t : Text)
      → AreOptional r
      → All (λ t. is_valid_tag_value (r.value_of t) ≡ true) known_tags
      → All IsExtension r.unknown_tags
      → collect_pairs true (split 59 (canonical r)) s ≡ ok s'
      → s.seen ≡ []
      → mem t required_unsigned ≡ true
      → mem t s'.seen ≡ true
      → is_nil (r.value_of t) ≡ false
  unfolding canonical
  canonical-filled s s' t optional values ext h fresh required there =
      joined-filled _ s s' t optional
        (canonical-IsWritten (λ u. not (starts_with (codes "sg=") u)) values ext) h fresh required
        there
