-- ===== src/Jwks/Lookup.antt =====
-- Keys of a validated set are found by their ids (dnsid/models.py, JWKS).
use dnsid_py.Base.{
  ◌≡◌, String, false, some, List, [], ◌∷◌, str_eq, eq_iff, In, inl, inr, Bool-cases, arith,
}
use dnsid_py.Base.Result.{ok}
use dnsid_py.Keys.{Jwk}
use dnsid_py.Jwks.{has_text, repeats_kid, key_by_id, validate}

fresh_lem :
    (seen : List String) (keys : List Jwk) (k : Jwk)
    → repeats_kid seen keys ≡ false
    → In k keys
    → str_eq k.kid "" ≡ false
    → has_text k.kid seen ≡ false
unfolding repeats_kid has_text
fresh_lem seen [] k h m named = absurd m
fresh_lem seen (x ∷ keys) k h (inl e) named = let same : k.kid ≡ x.kid = cc in ground (arith, same)
fresh_lem seen (x ∷ keys) k h (inr m) named = elim (Bool-cases (str_eq x.kid "")) [
  | inl blank ↦ fresh_lem seen keys k (ground arith) m named
  | inr other ↦ elim (Bool-cases (has_text x.kid seen)) [
    | inl again ↦ absurd (ground arith)
    | inr new ↦ ground (arith, fresh_lem (x.kid ∷ seen) keys k (ground arith) m named)
  ]
]

lookup_lem :
    (seen : List String) (keys : List Jwk) (k : Jwk)
    → repeats_kid seen keys ≡ false
    → In k keys
    → str_eq k.kid "" ≡ false
    → key_by_id keys k.kid ≡ some k
unfolding repeats_kid has_text key_by_id
lookup_lem seen [] k h m named = absurd m
lookup_lem seen (x ∷ keys) k h (inl e) named = rw e (ground (arith, eq_iff x.kid x.kid))
lookup_lem seen (x ∷ keys) k h (inr m) named = elim (Bool-cases (str_eq x.kid "")) [
  | inl blank ↦ ground (
    arith,
    lookup_lem seen keys k (ground arith) m named,
    eq_iff x.kid "",
    eq_iff x.kid k.kid,
    eq_iff k.kid "",
  )
  | inr other ↦ elim (Bool-cases (has_text x.kid seen)) [
    | inl again ↦ absurd (ground arith)
    | inr new ↦ ground (
      arith,
      lookup_lem (x.kid ∷ seen) keys k (ground arith) m named,
      fresh_lem (x.kid ∷ seen) keys k (ground arith) m named,
      eq_iff x.kid k.kid,
      eq_iff k.kid x.kid,
    )
  ]
]

-- In a set that passes `validate`, `key_by_id` finds every key that has an id: no other key of the
-- set hides it.
pub key_by_id-validate :
    (keys : List Jwk) (k : Jwk)
    → validate keys ≡ ok tt
    → In k keys
    → str_eq k.kid "" ≡ false
    → key_by_id keys k.kid ≡ some k
unfolding validate
key_by_id-validate keys k h m named = lookup_lem [] keys k (ground arith) m named
