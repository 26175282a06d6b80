-- ===== src/Tiles/Runs.antt =====
-- Runs of the entry-bundle codec (dnsid/c2sp_tlog/tiles.py).
use dnsid_py.Base.{◌≡◌, ◌≢◌, ◌↔◌, ◌≤◌, refl, none, some, List, [], ◌∷◌, Bytes, All, length, arith}
use dnsid_py.Base.Result.{ok, err}
use dnsid_py.Tiles.{
  truncated_length, truncated_entry, parse_loop, parse_entry_bundle, encode_entry_bundle,
}
use dnsid_py.Tiles.RoundTrip.{parse-encode, encode-parse, encode-total, parse_entry_bundle-ne-none}

abbrev two : List Bytes
two = (7 ∷ 8 ∷ []) ∷ [] ∷ []

abbrev written : Bytes
written = 0 ∷ 2 ∷ 7 ∷ 8 ∷ 0 ∷ 0 ∷ []

encode_two : encode_entry_bundle two ≡ ok written
unfolding encode_entry_bundle
encode_two = refl

cut_length : parse_entry_bundle (0 ∷ []) ≡ some (err truncated_length)
unfolding parse_entry_bundle parse_loop
cut_length = refl

cut_entry : parse_entry_bundle (0 ∷ 2 ∷ 7 ∷ []) ≡ some (err truncated_entry)
unfolding parse_entry_bundle parse_loop
cut_entry = refl

parse-encode_example : parse_entry_bundle written ≡ some (ok two)
parse-encode_example = parse-encode two written encode_two

encode-parse_example : encode_entry_bundle two ≡ ok written
encode-parse_example =
    encode-parse written two (omega arith) (unfold parse_entry_bundle parse_loop in refl)

parse_entry_bundle-ne-none_example : parse_entry_bundle (0 ∷ 2 ∷ 7 ∷ []) ≢ none
parse_entry_bundle-ne-none_example = parse_entry_bundle-ne-none (0 ∷ 2 ∷ 7 ∷ [])

encode-total_example :
    ((out : Bytes) × (encode_entry_bundle two ≡ ok out)) ↔ All (λ e. length e ≤ 0xFFFF) two
encode-total_example = encode-total two
