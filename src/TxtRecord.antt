-- ===== src/TxtRecord.antt =====
-- The identity record of dnsid/models.py, class DnsIdTxtRecord: `parse`,
-- `parse_unsigned_canonical`, `_all_tags`, `canonical`, `known_tags_canonical`, `serialize` and
-- `policy_flags`, with the tests of names and values of dnsid/_utils.py. A text is the list of
-- its code points. The tag attributes are read and set by their names, as `getattr` and `setattr`
-- do; a dict is the list of its items, and a set is tested by membership only.
pub mod Texts
pub mod Splitting
pub mod Distinct
pub mod Elements
pub mod Stored
pub mod Sound
pub mod Refilled
pub mod Reread
pub mod Serialized
pub mod Rebuilt
pub mod RoundTrip
pub mod Unsigned
pub mod Filled
pub mod Published
pub mod Parsed
mod Runs
use dnsid_py.Base.{
  ℕ, Bool, true, false, not, ◌&&◌, ◌||◌, Option, none, some, List, [], ◌∷◌, ◌++◌, drop, map,
  bytes_eq, leb, ◌==◌, if◌then◌else◌,
}
use dnsid_py.Base.Decimal.{Text, codes}
use dnsid_py.Base.Result.{Result, ok, err, ◌>>=◌, ◌>>◌, raise_if, some_or}
use Texts.{mem, is_nil, split, join, cut, strip, starts_with, text_le, filter, all_of}

-- ParseError by its reason.
pub data TxtError : Type 0 where
  v_not_first unsupported_profile empty_element no_equals invalid_name invalid_value : TxtError
  duplicate missing_tags empty_values signature_present missing_version not_canonical : TxtError

abbrev pub Pair : Type 0
Pair = Text × Text

-- `is_valid_tag_name`
abbrev pub is_alpha : ℕ → Bool
is_alpha c = (leb 65 c && leb c 90) || (leb 97 c && leb c 122)

abbrev pub is_name_char : ℕ → Bool
is_name_char c = is_alpha c || ((leb 48 c && leb c 57) || c == 95)

unfoldable pub is_valid_tag_name : Text → Bool
is_valid_tag_name [] = false
is_valid_tag_name (c ∷ cs) = is_alpha c && all_of is_name_char cs

-- `is_valid_tag_value`
abbrev pub is_value_char : ℕ → Bool
is_value_char c = (leb 33 c && leb c 58) || (leb 60 c && leb c 126)

unfoldable pub is_valid_tag_value : Text → Bool
is_valid_tag_value t = all_of is_value_char t

-- The order of `_all_tags`; as a set, `_KNOWN_TAGS`.
abbrev pub known_tags : List Text
known_tags =
    codes "v"
    ∷ codes "gi"
    ∷ codes "ek"
    ∷ codes "ku"
    ∷ codes "lr"
    ∷ codes "su"
    ∷ codes "sg"
    ∷ codes "fl"
    ∷ codes "ka"
    ∷ codes "cu"
    ∷ []

-- `_DRAFT01_REQUIRED`, and the required tags before the signature.
abbrev pub required_tags : List Text
required_tags =
    codes "v" ∷ codes "gi" ∷ codes "ek" ∷ codes "ku" ∷ codes "lr" ∷ codes "su" ∷ codes "sg" ∷ []

abbrev pub required_unsigned : List Text
required_unsigned = codes "v" ∷ codes "gi" ∷ codes "ek" ∷ codes "ku" ∷ codes "lr" ∷ codes "su" ∷ []

-- `_is_supported_version`
abbrev pub is_supported_version : Text → Bool
is_supported_version t = mem t (codes "dnsid-draft-01" ∷ codes "DNSid1" ∷ [])

pub record DnsIdTxtRecord : Type 0 where
  pub value_of : Text → Text
  pub unknown_tags : List Pair
  pub parsed_optional_tags : List Text

-- `cls()`
abbrev pub default_value : Text → Text
default_value tag = if bytes_eq tag (codes "v") then codes "dnsid-draft-01" else []

abbrev pub fresh_record : DnsIdTxtRecord
fresh_record = record { value_of = default_value; unknown_tags = []; parsed_optional_tags = [] }

-- `setattr(record, tag, value)`
abbrev pub with_value : Text → Text → DnsIdTxtRecord → DnsIdTxtRecord
with_value tag value r = record r { value_of = λ t. if bytes_eq t tag then value else r.value_of t }

-- The checks of one element: its tag and its value.
unfoldable pub parse_element : Bool → Text → Result TxtError Pair
parse_element first pair = do
  (tag, value) ←
      some_or (cut 61 (if not first && starts_with (codes " ") pair then drop 1 pair else pair))
        no_equals
  raise_if (not (is_valid_tag_name tag)) invalid_name
  raise_if (not (is_valid_tag_value value)) invalid_value
  ok (tag, value)

-- What both parsers do with a tag.
unfoldable pub store : List Text → Pair → DnsIdTxtRecord → DnsIdTxtRecord
store required (tag, value) r =
    if mem tag known_tags
    then (let marked : DnsIdTxtRecord =
          if mem tag required
          then r
          else record r { parsed_optional_tags = tag ∷ r.parsed_optional_tags } in
        if not (is_nil value) || mem tag required then with_value tag value marked else marked)
    else record r { unknown_tags = r.unknown_tags ++ ((tag, value) ∷ []) }

-- The loop of `parse`.
unfoldable pub parse_pairs :
    Bool → List Text → List Text → DnsIdTxtRecord → Result TxtError (List Text × DnsIdTxtRecord)
parse_pairs first [] seen r = ok (seen, r)
parse_pairs first ([] ∷ []) seen r = ok (seen, r)
parse_pairs first ([] ∷ pair ∷ rest) seen r = err empty_element
parse_pairs first ((c ∷ cs) ∷ rest) seen r = do
  (tag, value) ← parse_element first (c ∷ cs)
  raise_if (mem tag seen) duplicate
  parse_pairs false rest (tag ∷ seen) (store required_tags (tag, value) r)

-- `required - seen`
abbrev pub missing : List Text → List Text → List Text
missing required seen = filter (λ t. not (mem t seen)) required

abbrev pub first_of : List Text → Text
first_of [] = []
first_of (t ∷ ts) = t

unfoldable pub parse : Text → Result TxtError DnsIdTxtRecord
parse raw = do
  raise_if (not (starts_with (codes "v=") (strip (first_of (split 59 raw))))) v_not_first
  raise_if (not (is_supported_version (drop 2 (strip (first_of (split 59 raw))))))
      unsupported_profile
  (seen, r) ← parse_pairs true (split 59 raw) [] fresh_record
  raise_if (not (is_nil (missing required_tags seen))) missing_tags
  raise_if (not (all_of (λ t. not (is_nil (r.value_of t))) required_tags)) empty_values
  ok r

-- f"{tag}={value}"
abbrev pub shown : Pair → Text
shown (tag, value) = tag ++ (61 ∷ value)

unfoldable pub is_set : DnsIdTxtRecord → Text → Bool
is_set r tag = not (is_nil (r.value_of tag)) || mem tag r.parsed_optional_tags

abbrev pub set_pairs : DnsIdTxtRecord → List Text → List Pair
set_pairs r tags = map (λ t. (t, r.value_of t)) (filter (is_set r) tags)

-- `_all_tags`
unfoldable pub all_tags : DnsIdTxtRecord → List Text
all_tags r = map shown (set_pairs r known_tags) ++ map shown r.unknown_tags

-- `sorted` with a key; equal keys keep their order.
unfoldable pub insert_by : (Text → Text) → Text → List Text → List Text
insert_by key t [] = t ∷ []
insert_by key t (u ∷ us) =
    let later = insert_by key t us in if text_le (key t) (key u) then t ∷ u ∷ us else u ∷ later

unfoldable pub sorted_by : (Text → Text) → List Text → List Text
sorted_by key [] = []
sorted_by key (t ∷ ts) = insert_by key t (sorted_by key ts)

-- `t.partition("=")[0]`
abbrev pub tag_part : Text → Text
tag_part t = elim (cut 61 t) [ none ↦ t | some (tag, value) ↦ tag ]

unfoldable pub canonical : DnsIdTxtRecord → Text
canonical r =
    join 59 (sorted_by tag_part (filter (λ t. not (starts_with (codes "sg=") t)) (all_tags r)))

unfoldable pub known_tags_canonical : DnsIdTxtRecord → Text
known_tags_canonical r = join 59 (
    sorted_by (λ t. t)
      (map shown (set_pairs r (filter (λ t. not (bytes_eq t (codes "sg"))) known_tags))))

unfoldable pub serialize : DnsIdTxtRecord → Text
serialize r =
    codes "v="
    ++ (r.value_of (codes "v")
        ++ (59 ∷ join 59 (filter (λ t. not (starts_with (codes "v=") t)) (all_tags r))))

-- The tokens of the set that `policy_flags` returns.
unfoldable pub policy_flags : DnsIdTxtRecord → List Text
policy_flags r = filter (λ t. not (is_nil t)) (map strip (split 44 (r.value_of (codes "fl"))))

-- The local variables of the first loop of `parse_unsigned_canonical`.
pub record Collected : Type 0 where
  pub seen : List Text
  pub parsed_pairs : List Pair
  pub version : Text

unfoldable pub collect_pairs : Bool → List Text → Collected → Result TxtError Collected
collect_pairs first [] s = ok s
collect_pairs first ([] ∷ []) s = ok s
collect_pairs first ([] ∷ pair ∷ rest) s = err empty_element
collect_pairs first ((c ∷ cs) ∷ rest) s = do
  (tag, value) ← parse_element first (c ∷ cs)
  raise_if (mem tag s.seen) duplicate
  raise_if (bytes_eq tag (codes "sg")) signature_present
  collect_pairs false rest (record {
    seen = tag ∷ s.seen;
    parsed_pairs = s.parsed_pairs ++ ((tag, value) ∷ []);
    version = if bytes_eq tag (codes "v") then value else s.version;
  })

unfoldable pub store_pairs : List Text → List Pair → DnsIdTxtRecord → DnsIdTxtRecord
store_pairs required [] r = r
store_pairs required (p ∷ ps) r = store_pairs required ps (store required p r)

-- Without an `identity_fqdn`, whose validation is the caller's.
unfoldable pub parse_unsigned_canonical : Text → Result TxtError DnsIdTxtRecord
parse_unsigned_canonical raw = do
  s ← collect_pairs true (split 59 raw) (record { seen = []; parsed_pairs = []; version = [] })
  raise_if (is_nil s.version) missing_version
  raise_if (not (is_supported_version s.version)) unsupported_profile
  r ← ok (store_pairs required_unsigned s.parsed_pairs fresh_record)
  raise_if (not (is_nil (missing required_unsigned s.seen))) missing_tags
  raise_if (not (bytes_eq (canonical r) raw)) not_canonical
  ok r
