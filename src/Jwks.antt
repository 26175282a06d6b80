-- ===== src/Jwks.antt =====
-- The JWKS class and check_ek_ku_distinctness of dnsid/models.py, and the signature algorithm of a
-- key (dnsid/_crypto.py).
pub mod Lookup
pub mod Current
mod Runs
use dnsid_py.Base.{
  ℕ, String, Bool, true, false, not, ◌&&◌, ◌||◌, Option, none, some, List, [], ◌∷◌, str_eq,
  if◌then◌else◌,
}
use dnsid_py.Base.Result.{Result, ok, err, ◌>>=◌, ◌>>◌, raise_if, some_or}
use dnsid_py.Keys.{Raw, Jwk, member_or_empty, thumbprint}

-- The messages of the VerificationErrors, all with the code RECORD_INVALID; `bad_thumbprint` is the
-- ValueError of compute_thumbprint.
pub data JwksError : Type 0 where
  unsupported_profile bad_alg duplicate_kid no_signing_key no_kid not_one_key : JwksError
  missing_kid missing_alg shared_material bad_thumbprint : JwksError

-- The table `_KTY_CRV_TO_ALG`.
abbrev algorithm_of : String → String → Option String
algorithm_of kty crv =
    if str_eq kty "OKP" && str_eq crv "Ed25519"
    then some "EdDSA"
    else if str_eq kty "EC" && str_eq crv "P-256"
    then some "ES256"
    else none

-- `none` is the ValueError.
unfoldable pub signature_alg_from_raw : Raw → Option String
signature_alg_from_raw raw = algorithm_of (member_or_empty "kty" raw) (member_or_empty "crv" raw)

unfoldable pub signature_alg : Jwk → Result JwksError String
signature_alg key = do
  derived ← some_or (signature_alg_from_raw key.raw) bad_alg
  raise_if (not (str_eq key.alg "") && not (str_eq key.alg derived)) bad_alg
  ok derived

abbrev pub returns : {A : Type 0} → Result JwksError A → Bool
returns (ok a) = true
returns (err e) = false

-- `use in ("", "sig")`
abbrev pub for_signing : Jwk → Bool
for_signing key = str_eq key.use_of "" || str_eq key.use_of "sig"

abbrev pub is_eligible : Jwk → Bool
is_eligible key = for_signing key && returns (signature_alg key)

unfoldable pub select : (Jwk → Bool) → List Jwk → List Jwk
select p [] = []
select p (k ∷ ks) = let rest = select p ks in if p k then k ∷ rest else rest

unfoldable pub any_jwk : (Jwk → Bool) → List Jwk → Bool
any_jwk p [] = false
any_jwk p (k ∷ ks) = p k || any_jwk p ks

abbrev pub is_nil : List Jwk → Bool
is_nil [] = true
is_nil (k ∷ ks) = false

unfoldable pub signing_keys : List Jwk → Result JwksError (List Jwk)
signing_keys keys = do
  raise_if (is_nil (select is_eligible keys)) no_signing_key
  ok (select is_eligible keys)

unfoldable pub key_by_id : List Jwk → String → Option Jwk
key_by_id [] kid = none
key_by_id (key ∷ keys) kid = if str_eq key.kid kid then some key else key_by_id keys kid

unfoldable pub has_text : String → List String → Bool
has_text t [] = false
has_text t (s ∷ ss) = str_eq t s || has_text t ss

-- The loop that collects the key ids in `seen`, as long as none comes again.
unfoldable pub repeats_kid : List String → List Jwk → Bool
repeats_kid seen [] = false
repeats_kid seen (key ∷ keys) =
    let skipped = repeats_kid seen keys in
    let deeper = repeats_kid (key.kid ∷ seen) keys in
    if str_eq key.kid "" then skipped else if has_text key.kid seen then true else deeper

abbrev pub bad_alg_key : Jwk → Bool
bad_alg_key key = not (str_eq key.alg "") && not (returns (signature_alg key))

-- `JWKS.validate`
unfoldable pub validate : List Jwk → Result JwksError (Unit {0})
validate keys = do
  raise_if (any_jwk bad_alg_key keys) bad_alg
  raise_if (repeats_kid [] keys) duplicate_kid
  raise_if (is_nil (select is_eligible keys)) no_signing_key
  raise_if (not (any_jwk (λ k. not (str_eq k.kid "")) (select is_eligible keys))) no_kid

abbrev pub is_supported_version : String → Bool
is_supported_version v = str_eq v "dnsid-draft-01" || str_eq v "DNSid1"

-- `profile or IDENTITY_RECORD_VERSION`
abbrev selected_profile : Option String → String
selected_profile none = "dnsid-draft-01"
selected_profile (some p) = if str_eq p "" then "dnsid-draft-01" else p

abbrev pub only_key : List Jwk → Result JwksError Jwk
only_key [] = err not_one_key
only_key (k ∷ []) = ok k
only_key (k ∷ j ∷ ks) = err not_one_key

-- `_current_protocol_signing_key`
unfoldable pub current_signing_key : List Jwk → Option String → Result JwksError Jwk
current_signing_key keys profile = do
  raise_if (not (is_supported_version (selected_profile profile))) unsupported_profile
  validate keys
  key ← only_key (select for_signing keys)
  raise_if (str_eq key.kid "") missing_kid
  raise_if (str_eq key.alg "") missing_alg
  a ← signature_alg key
  ok key

module _ (digest : List (String × String) → String) where
  unfoldable pub thumbprints : List Jwk → Result JwksError (List String)
  thumbprints [] = ok []
  thumbprints (k ∷ ks) = do
    t ← some_or (thumbprint digest k) bad_thumbprint
    ts ← thumbprints ks
    ok (t ∷ ts)

  unfoldable pub shares_text : List String → List String → Bool
  shares_text [] ts = false
  shares_text (s ∷ ss) ts = has_text s ts || shares_text ss ts

  unfoldable pub check_ek_ku_distinctness :
      Option (List Jwk) → Option (List Jwk) → Result JwksError (Unit {0})
  check_ek_ku_distinctness none ku = ok tt
  check_ek_ku_distinctness (some ek) none = ok tt
  check_ek_ku_distinctness (some ek) (some ku) = if is_nil ek || is_nil ku then ok tt else do
    ek_thumbprints ← thumbprints ek
    ku_thumbprints ← thumbprints ku
    raise_if (shares_text ek_thumbprints ku_thumbprints) shared_material

unfoldable pub current_record_signing_key : List Jwk → Option String → Result JwksError Jwk
current_record_signing_key keys profile = current_signing_key keys profile

unfoldable pub current_operational_signing_key : List Jwk → Option String → Result JwksError Jwk
current_operational_signing_key keys profile = current_signing_key keys profile

unfoldable pub validate_record_signing : List Jwk → Option String → Result JwksError (Unit {0})
validate_record_signing keys profile = do key ← current_record_signing_key keys profile; ok tt

unfoldable pub validate_operational : List Jwk → Option String → Result JwksError (Unit {0})
validate_operational keys profile = do key ← current_operational_signing_key keys profile; ok tt
