-- ===== src/Tiles/RoundTrip.antt =====
-- Entry bundles (dnsid/c2sp_tlog/tiles.py): parsing undoes encoding, and the other way round.
use dnsid_py.Base.{
  ℕ, zero, suc, ◌/◌, ◌%◌, ◌≤◌, ◌<◌, ◌≡◌, ◌≢◌, ◌↔◌, All-drop, refl, ap, ◌∙◌, none, some, List, [],
  ◌∷◌, ◌++◌, Bytes, All, length, length-append, length-drop, length-take-le, take, drop,
  take-append, drop-append, take-append-drop, ltb, if◌then◌else◌, Bool-cases, inl, inr, arith,
}
use dnsid_py.Base.Result.{ok, err, bind_ok}
use mathlib.Core.Path.{ap₂}
use dnsid_py.Tiles.{
  truncated_entry, Parsed, add_entry, entry_length, parse_loop, parse_entry_bundle,
  encode_entry_bundle,
}

parse_loop_step :
    (fuel : ℕ) (e rest : Bytes) (es : List Bytes)
    → length e ≤ 0xFFFF
    → parse_loop fuel rest ≡ some (ok es)
    → parse_loop (suc fuel) ((length e / 256) ∷ (length e % 256) ∷ (e ++ rest)) ≡ some (ok (e ∷ es))
unfolding parse_loop
parse_loop_step fuel e rest es h ih =
    let whole : entry_length (length e / 256) (length e % 256) ≡ length e = omega arith in
    rw (whole, take-append e rest, drop-append e rest, ih) (ground (arith, length-append e rest))

-- What a successful encoding of a list with a first entry looks like.
encode-cons :
    (e : Bytes) (es : List Bytes) (out : Bytes)
    → encode_entry_bundle (e ∷ es) ≡ ok out
    → (rest : Bytes) × (length e ≤ 0xFFFF)
      × (encode_entry_bundle es ≡ ok rest)
      × (out ≡ (length e / 256) ∷ (length e % 256) ∷ (e ++ rest))
unfolding encode_entry_bundle
encode-cons e es out h = elim (Bool-cases (ltb 0xFFFF (length e))) [
  | inl large ↦ absurd (cc (rw large at h))
  | inr fits ↦
      let (rest, re, o) = bind_ok (encode_entry_bundle es) _ (rw fits at h) in
      (rest, ground arith, re, cc)
]

encode_step :
    (e : Bytes) (es : List Bytes) (rest : Bytes)
    → length e ≤ 0xFFFF
    → encode_entry_bundle es ≡ ok rest
    → encode_entry_bundle (e ∷ es) ≡ ok ((length e / 256) ∷ (length e % 256) ∷ (e ++ rest))
unfolding encode_entry_bundle
encode_step e es rest h re = rw re (ground arith)

parse_loop-encode :
    (es : List Bytes) (out : Bytes) (fuel : ℕ)
    → encode_entry_bundle es ≡ ok out
    → length out ≤ fuel
    → parse_loop fuel out ≡ some (ok es)
parse_loop-encode [] out fuel e h = empty fuel out e
  where
    empty :
        (fuel : ℕ) (out : Bytes)
        → encode_entry_bundle [] ≡ ok out
        → parse_loop fuel out ≡ some (ok [])
    empty fuel out e = unfold encode_entry_bundle parse_loop in ground arith
parse_loop-encode (x ∷ es) out zero e h =
    let (rest, fits, re, o) = encode-cons x es out e in absurd (omega (arith, ap length o))
parse_loop-encode (x ∷ es) out (suc fuel) e h =
    let (rest, fits, re, o) = encode-cons x es out e in
    let short : length rest ≤ fuel = omega (arith, ap length o, length-append {0} x rest) in
    rw o (parse_loop_step fuel x rest es fits (parse_loop-encode es rest fuel re short))

-- A bundle that `encode_entry_bundle` writes is parsed back to the entries, in their order.
pub parse-encode :
    (es : List Bytes) (out : Bytes)
    → encode_entry_bundle es ≡ ok out
    → parse_entry_bundle out ≡ some (ok es)
unfolding parse_entry_bundle
parse-encode es out e = parse_loop-encode es out (length out) e (omega arith)

-- `encode_entry_bundle` writes a bundle exactly for lists whose entries have at most 65535 bytes.
pub encode-total :
    (es : List Bytes)
    → ((out : Bytes) × (encode_entry_bundle es ≡ ok out)) ↔ All (λ e. length e ≤ 0xFFFF) es
encode-total es = (sizes es, writes es)
  where
    sizes :
        (es : List Bytes)
        → (out : Bytes) × (encode_entry_bundle es ≡ ok out)
        → All (λ e. length e ≤ 0xFFFF) es
    sizes [] h = tt
    sizes (e ∷ es) (out, h) =
        let (rest, fits, re, o) = encode-cons e es out h in (fits, sizes es (rest, re))

    writes :
        (es : List Bytes)
        → All (λ e. length e ≤ 0xFFFF) es
        → (out : Bytes) × (encode_entry_bundle es ≡ ok out)
    writes [] h = ([], unfold encode_entry_bundle in refl)
    writes (e ∷ es) (h, hs) =
        let (rest, re) = writes es hs in
        ((length e / 256) ∷ (length e % 256) ∷ (e ++ rest), encode_step e es rest h re)

-- The parser always answers: it never runs out of fuel.
parse_loop-ne-none :
    (fuel : ℕ) (bundle : Bytes) → length bundle ≤ fuel → parse_loop fuel bundle ≢ none
unfolding parse_loop
parse_loop-ne-none fuel [] h = λ e. cc
parse_loop-ne-none zero (b ∷ rest) h = absurd (omega arith)
parse_loop-ne-none (suc fuel) (high ∷ []) h = λ e. cc
parse_loop-ne-none (suc fuel) (high ∷ low ∷ rest) h =
    let n = entry_length high low in
    step (parse_loop fuel (drop n rest))
      (parse_loop-ne-none fuel (drop n rest) (omega (arith, length-drop {0} n rest)))
  where
    step :
        (p : Parsed)
        → p ≢ none
        → (if ltb (length rest) (entry_length high low)
            then some (err truncated_entry)
            else add_entry (take (entry_length high low) rest) p)
          ≢ none
    step none h = absurd (h refl)
    step (some (ok es)) h = λ e. ground arith
    step (some (err x)) h = λ e. ground arith

-- Parsing always comes to an end: with as much fuel as the bundle has bytes, the loop either
-- returns the entries or reports one of its errors.
pub parse_entry_bundle-ne-none : (bundle : Bytes) → parse_entry_bundle bundle ≢ none
unfolding parse_entry_bundle
parse_entry_bundle-ne-none bundle = parse_loop-ne-none (length bundle) bundle (omega arith)

-- What a successful parse of a bundle with a first entry looks like.
parse_loop-cons :
    (fuel high low : ℕ) (rest : Bytes) (es : List Bytes)
    → parse_loop (suc fuel) (high ∷ low ∷ rest) ≡ some (ok es)
    → (more : List Bytes) × (es ≡ take (entry_length high low) rest ∷ more)
      × (entry_length high low ≤ length rest)
      × (parse_loop fuel (drop (entry_length high low) rest) ≡ some (ok more))
unfolding parse_loop
parse_loop-cons fuel high low rest es h =
    go (parse_loop fuel (drop (entry_length high low) rest)) refl
  where
    go :
        (p : Parsed)
        → parse_loop fuel (drop (entry_length high low) rest) ≡ p
        → (more : List Bytes) × (es ≡ take (entry_length high low) rest ∷ more)
          × (entry_length high low ≤ length rest)
          × (parse_loop fuel (drop (entry_length high low) rest) ≡ some (ok more))
    go none e = absurd (ground arith)
    go (some (err x)) e = absurd (ground arith)
    go (some (ok more)) e = (more, ground arith, ground arith, e)

encode-parse_loop :
    (fuel : ℕ) (bundle : Bytes) (es : List Bytes)
    → All (λ b. b < 256) bundle
    → parse_loop fuel bundle ≡ some (ok es)
    → encode_entry_bundle es ≡ ok bundle
encode-parse_loop fuel [] es bytes h = nothing es (unfold parse_loop in h)
  where
    nothing :
        (es : List Bytes)
        → ◌≡◌ {A = Parsed} (some (ok [])) (some (ok es))
        → encode_entry_bundle es ≡ ok []
    nothing [] h = unfold encode_entry_bundle in refl
    nothing (e ∷ es) h = cc
encode-parse_loop zero (b ∷ rest) es bytes h = unfold parse_loop in cc
encode-parse_loop (suc fuel) (high ∷ []) es bytes h = unfold parse_loop in cc
encode-parse_loop (suc fuel) (high ∷ low ∷ rest) es (hh, (hl, hr)) h =
    let n = entry_length high low in
    let (more, listed, fits, parsed) = parse_loop-cons fuel high low rest es h in
    let ih = encode-parse_loop fuel (drop n rest) more (All-drop (λ b. b < 256) n rest hr) parsed in
    let size : length (take n rest) ≡ n = length-take-le n rest fits in
    rw listed (
      encode_step (take n rest) more (drop n rest) (omega arith) ih
      ∙ ap ok (
          ap₂ (λ a (t : Bytes). a ∷ t) (omega arith)
            (ap₂ (λ a (t : Bytes). a ∷ t) (omega arith) (take-append-drop n rest))))

-- A bundle of bytes that parses is the encoding of its entries.
pub encode-parse :
    (bundle : Bytes) (es : List Bytes)
    → All (λ b. b < 256) bundle
    → parse_entry_bundle bundle ≡ some (ok es)
    → encode_entry_bundle es ≡ ok bundle
unfolding parse_entry_bundle
encode-parse bundle es = encode-parse_loop (length bundle) bundle es
