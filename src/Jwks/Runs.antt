-- ===== src/Jwks/Runs.antt =====
-- Runs of the key-set checks (dnsid/models.py).
use dnsid_py.Base.{inr}
use dnsid_py.Base.{◌≡◌, refl, String, none, some, List, [], ◌∷◌, In, All, inl}
use dnsid_py.Base.Result.{ok, err}
use dnsid_py.Keys.{Jwk, member, member_or_empty, thumbprint, compute_thumbprint}
use dnsid_py.Jwks.{
  for_signing, select, signature_alg, signature_alg_from_raw, any_jwk, has_text, repeats_kid,
  validate, key_by_id, current_signing_key, duplicate_kid, thumbprints, shares_text,
  check_ek_ku_distinctness,
}
use dnsid_py.Jwks.Lookup.{key_by_id-validate}
use dnsid_py.Jwks.Current.{Differ, current_signing_key-key_by_id, check_ek_ku_distinctness-Differ}

abbrev key : String → String → Jwk
key x use_of = record {
  kty = "OKP";
  alg = "EdDSA";
  kid = x;
  use_of = use_of;
  raw = ("kty", "OKP") ∷ ("crv", "Ed25519") ∷ ("x", x) ∷ [];
}

abbrev two_keys : List Jwk
two_keys = key "a" "enc" ∷ key "b" "sig" ∷ []

two_valid : validate two_keys ≡ ok tt
unfolding validate any_jwk repeats_kid has_text select signature_alg signature_alg_from_raw
    member_or_empty member
two_valid = refl

same_id : validate (key "a" "enc" ∷ key "a" "sig" ∷ []) ≡ err duplicate_kid
unfolding validate any_jwk repeats_kid has_text select signature_alg signature_alg_from_raw
    member_or_empty member
same_id = refl

second_is_current : current_signing_key two_keys none ≡ ok (key "b" "sig")
unfolding current_signing_key validate any_jwk repeats_kid has_text select signature_alg
    signature_alg_from_raw member_or_empty member
second_is_current = refl

last_value : List (String × String) → String
last_value [] = ""
last_value ((k, v) ∷ []) = v
last_value ((k, v) ∷ rest) = last_value rest

separate : check_ek_ku_distinctness last_value (some two_keys) (some (key "c" "sig" ∷ [])) ≡ ok tt
unfolding check_ek_ku_distinctness thumbprints shares_text has_text thumbprint compute_thumbprint
    last_value
separate = refl

key_by_id-validate_example : key_by_id two_keys "b" ≡ some (key "b" "sig")
key_by_id-validate_example =
    key_by_id-validate two_keys (key "b" "sig") two_valid (inr (inl refl)) refl

current_signing_key-key_by_id_example :
    In (key "b" "sig") two_keys
    × (select for_signing two_keys ≡ key "b" "sig" ∷ [])
    × (validate two_keys ≡ ok tt)
    × (signature_alg (key "b" "sig") ≡ ok "EdDSA")
    × (key_by_id two_keys "b" ≡ some (key "b" "sig"))
current_signing_key-key_by_id_example =
    current_signing_key-key_by_id two_keys none (key "b" "sig") second_is_current

check_ek_ku_distinctness-Differ_example :
    All (λ a. All (Differ last_value a) (key "c" "sig" ∷ [])) two_keys
check_ek_ku_distinctness-Differ_example =
    check_ek_ku_distinctness-Differ last_value two_keys (key "c" "sig" ∷ []) separate
