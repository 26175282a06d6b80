-- ===== src/Tiles.antt =====
-- dnsid/c2sp_tlog/tiles.py: the codec of entry bundles. Bytes are numbers below 256.
pub mod RoundTrip
pub mod Runs
use dnsid_py.Base.{
  ℕ, zero, suc, ◌+◌, ◌*◌, ◌/◌, ◌%◌, ◌^◌, Option, none, some, List, [], ◌∷◌, ◌++◌, Bytes, length,
  take, drop, ltb, if◌then◌else◌,
}
use dnsid_py.Base.Result.{Result, ok, err, ◌>>=◌}

-- The messages of the C2spTlogParseErrors.
pub data BundleError : Type 0 where
  truncated_length truncated_entry entry_too_large : BundleError

abbrev pub Parsed : Type 0
Parsed = Option (Result BundleError (List Bytes))

abbrev add_entry : Bytes → Parsed → Parsed
add_entry e none = none
add_entry e (some (err x)) = some (err x)
add_entry e (some (ok es)) = some (ok (e ∷ es))

-- `(data[off] << 8) | data[off + 1]`: the low byte fills the zero bits.
abbrev pub entry_length : ℕ → ℕ → ℕ
entry_length high low = high * 2 ^ 8 + low

-- The loop over what follows `off`. `none` is a loop that ran out of fuel, and no Python value.
pub parse_loop : ℕ → Bytes → Parsed
parse_loop fuel [] = some (ok [])
parse_loop zero (b ∷ data_rest) = none
parse_loop (suc fuel) (high ∷ []) = some (err truncated_length)
parse_loop (suc fuel) (high ∷ low ∷ rest) =
    let n = entry_length high low in
    let more = add_entry (take n rest) (parse_loop fuel (drop n rest)) in
    if ltb (length rest) n then some (err truncated_entry) else more

-- Each round takes two bytes at least, so as many rounds as there are bytes are enough.
pub parse_entry_bundle : Bytes → Parsed
parse_entry_bundle bundle = parse_loop (length bundle) bundle

pub encode_entry_bundle : List Bytes → Result BundleError Bytes
encode_entry_bundle [] = ok []
encode_entry_bundle (e ∷ es) =
    if ltb 0xFFFF (length e)
    then err entry_too_large
    else do rest ← encode_entry_bundle es; ok ((length e / 256) ∷ (length e % 256) ∷ (e ++ rest))
