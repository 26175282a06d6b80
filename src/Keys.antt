-- ===== src/Keys.antt =====
-- dnsid/_crypto.py (thumbprints, algorithms) and the JWK and JWKS classes of dnsid/models.py.
-- A raw JSON Web Key is a list of member names with their values; the values are texts.
use dnsid_py.Base.{String, Option, none, some, List, [], ◌∷◌, str_eq, if◌then◌else◌}

abbrev pub Raw : Type 0
Raw = List (String × String)

-- `raw.get(name)`
unfoldable pub member : String → Raw → Option String
member k [] = none
member k ((j, v) ∷ rest) = if str_eq j k then some v else member k rest

pub record Jwk : Type 0 where
  pub kty : String
  pub alg : String
  pub kid : String
  pub use_of : String
  pub raw : Raw

-- `raw.get(name, "")`
unfoldable pub member_or_empty : String → Raw → String
unfolding member
member_or_empty k raw = elim (member k raw) [ none ↦ "" | some v ↦ v ]

abbrev ec_members : List String
ec_members = "crv" ∷ "kty" ∷ "x" ∷ "y" ∷ []

abbrev rsa_members : List String
rsa_members = "e" ∷ "kty" ∷ "n" ∷ []

abbrev okp_members : List String
okp_members = "crv" ∷ "kty" ∷ "x" ∷ []

-- The required members of a key type, in the order that RFC 7638 mandates.
thumbprint_members : String → Option (List String)
thumbprint_members kty =
    if str_eq kty "EC"
    then some ec_members
    else if str_eq kty "RSA"
    then some rsa_members
    else if str_eq kty "OKP"
    then some okp_members
    else none

-- `{k: raw[k] for k in members}`; `none` if a member is missing.
select_members : List String → Raw → Option (List (String × String))
unfolding member
select_members [] raw = some []
select_members (k ∷ ks) raw = elim (member k raw) [
  | none ↦ none
  | some v ↦ elim (select_members ks raw) [ none ↦ none | some rest ↦ some ((k, v) ∷ rest) ]
]

-- `digest` is the JSON text of the members, hashed and written in base64url. `none` is a
-- ValueError.
unfoldable pub compute_thumbprint : (List (String × String) → String) → Raw → Option String
unfolding member_or_empty thumbprint_members select_members
compute_thumbprint digest raw = elim (thumbprint_members (member_or_empty "kty" raw)) [
  | none ↦ none
  | some members ↦ elim (select_members members raw) [
    | none ↦ none
    | some canonical ↦ some (digest canonical)
  ]
]

unfoldable pub thumbprint : (List (String × String) → String) → Jwk → Option String
unfolding compute_thumbprint
thumbprint digest key = compute_thumbprint digest key.raw
