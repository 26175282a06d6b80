-- ===== src/TxtRecord/Runs.antt =====
-- Runs of the parsers of identity records (dnsid/models.py, DnsIdTxtRecord).
use dnsid_py.Base.{bytes_eq}
use dnsid_py.Base.{◌≡◌, refl, true, false, [], ◌∷◌, All}
use dnsid_py.Base.Decimal.{Text, codes}
use dnsid_py.Base.Result.{ok, err}
use dnsid_py.TxtRecord.Texts.{
  mem, is_nil, filter, all_of, starts_with, join, split, cut, lstrip, rstrip, text_le,
}
use dnsid_py.TxtRecord.Sound.{IsValid}
use dnsid_py.TxtRecord.Parsed.{parse-IsValid}
use dnsid_py.TxtRecord.RoundTrip.{parse-serialize}
use dnsid_py.TxtRecord.Published.{with_sg, parse-serialize-parse_unsigned_canonical}
use dnsid_py.TxtRecord.{
  v_not_first, duplicate, missing_tags, empty_values, not_canonical, known_tags, required_tags,
  required_unsigned, is_valid_tag_name, is_valid_tag_value, DnsIdTxtRecord, fresh_record,
  parse_element, store, store_pairs, parse_pairs, is_set, all_tags, insert_by, sorted_by, canonical,
  serialize, parse, collect_pairs, parse_unsigned_canonical,
}

abbrev line : Text
line = codes "v=DNSid1; gi=a;ek=b;ku=c;lr=m:1;su=s;sg=z;exp=9;fl="

abbrev sample : DnsIdTxtRecord
sample =
    store_pairs required_tags
      ((codes "v", codes "DNSid1")
        ∷ (codes "gi", codes "a")
        ∷ (codes "ek", codes "b")
        ∷ (codes "ku", codes "c")
        ∷ (codes "lr", codes "m:1")
        ∷ (codes "su", codes "s")
        ∷ (codes "sg", codes "z")
        ∷ (codes "exp", codes "9")
        ∷ (codes "fl", [])
        ∷ [])
      fresh_record

parsed : parse line ≡ ok sample
unfolding parse split starts_with lstrip rstrip mem bytes_eq is_nil parse_pairs parse_element cut
    is_valid_tag_name is_valid_tag_value all_of store store_pairs filter
parsed = refl

-- An empty optional tag that was parsed stays in the canonical form, and the names decide the order.
canonical_line : canonical sample ≡ codes "ek=b;exp=9;fl=;gi=a;ku=c;lr=m:1;su=s;v=DNSid1"
unfolding store_pairs store canonical all_tags is_set is_nil filter mem bytes_eq starts_with
    sorted_by insert_by text_le join cut
canonical_line = refl

serialized : serialize sample ≡ codes "v=DNSid1;gi=a;ek=b;ku=c;lr=m:1;su=s;sg=z;fl=;exp=9"
unfolding store_pairs store serialize all_tags is_set is_nil filter mem bytes_eq starts_with join
serialized = refl

late_version : parse (codes "gi=a;v=DNSid1") ≡ err v_not_first
unfolding parse split starts_with lstrip rstrip is_nil
late_version = refl

twice : parse (codes "v=DNSid1;gi=a;gi=b") ≡ err duplicate
unfolding parse split starts_with lstrip rstrip mem bytes_eq is_nil parse_pairs parse_element cut
    is_valid_tag_name is_valid_tag_value all_of store store_pairs filter
twice = refl

incomplete : parse (codes "v=DNSid1;gi=a;") ≡ err missing_tags
unfolding parse split starts_with lstrip rstrip mem bytes_eq is_nil parse_pairs parse_element cut
    is_valid_tag_name is_valid_tag_value all_of store store_pairs filter
incomplete = refl

empty_required : parse (codes "v=DNSid1;gi=;ek=b;ku=c;lr=m:1;su=s;sg=z") ≡ err empty_values
unfolding parse split starts_with lstrip rstrip mem bytes_eq is_nil parse_pairs parse_element cut
    is_valid_tag_name is_valid_tag_value all_of store store_pairs filter
empty_required = refl

abbrev unsigned_line : Text
unsigned_line = codes "a0=1;a=2;ek=b;gi=a;ku=c;lr=m:1;su=s;v=dnsid-draft-01"

-- The order is that of the names, in which a0 comes after a.
unordered : parse_unsigned_canonical unsigned_line ≡ err not_canonical
unfolding parse_unsigned_canonical split mem bytes_eq is_nil collect_pairs parse_element starts_with
    cut is_valid_tag_name is_valid_tag_value all_of store store_pairs filter canonical all_tags
    is_set sorted_by insert_by text_le join
unordered = refl

abbrev ordered_line : Text
ordered_line = codes "a=2;a0=1;ek=b;gi=a;ku=c;lr=m:1;su=s;v=dnsid-draft-01"

abbrev unsigned : DnsIdTxtRecord
unsigned =
    store_pairs required_unsigned
      ((codes "a", codes "2")
        ∷ (codes "a0", codes "1")
        ∷ (codes "ek", codes "b")
        ∷ (codes "gi", codes "a")
        ∷ (codes "ku", codes "c")
        ∷ (codes "lr", codes "m:1")
        ∷ (codes "su", codes "s")
        ∷ (codes "v", codes "dnsid-draft-01")
        ∷ [])
      fresh_record

ordered : parse_unsigned_canonical ordered_line ≡ ok unsigned
unfolding parse_unsigned_canonical split mem bytes_eq is_nil collect_pairs parse_element starts_with
    cut is_valid_tag_name is_valid_tag_value all_of store store_pairs filter canonical all_tags
    is_set sorted_by insert_by text_le join
ordered = refl

printable_z : is_valid_tag_value (codes "z") ≡ true
unfolding is_valid_tag_value all_of
printable_z = refl

full_z : is_nil (codes "z") ≡ false
unfolding is_nil
full_z = refl

sample-IsValid : IsValid sample
sample-IsValid = parse-IsValid line sample parsed

parse-IsValid_example : IsValid sample
parse-IsValid_example = parse-IsValid line sample parsed

parse-serialize_example :
    (s : DnsIdTxtRecord) × (parse (serialize sample) ≡ ok s)
    × All (λ t. s.value_of t ≡ sample.value_of t) known_tags
    × (s.unknown_tags ≡ sample.unknown_tags)
    × (canonical s ≡ canonical sample)
    × (serialize s ≡ serialize sample)
parse-serialize_example = parse-serialize sample sample-IsValid

parse-serialize-parse_unsigned_canonical_example :
    (s : DnsIdTxtRecord) × (parse (serialize (with_sg (codes "z") unsigned)) ≡ ok s)
    × (canonical s ≡ ordered_line)
    × (s.value_of (codes "sg") ≡ codes "z")
parse-serialize-parse_unsigned_canonical_example =
    parse-serialize-parse_unsigned_canonical ordered_line (codes "z") unsigned ordered full_z
      printable_z
