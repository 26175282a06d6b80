-- ===== src/Freshness.antt =====
-- How long the evidence of a verified domain may be used: VerifiedDomain.expiry and
-- _require_fresh_evidence of dnsid/models.py. Instants are seconds from `_ZERO_TIME`, which is 0.
-- The set PERMITTED_KA_VALUES holds the keys of the table in `_parse_ka_duration`.
pub mod Agree
mod Runs
use dnsid_py.Base.{
  ℕ, ◌+◌, ◌*◌, String, Bool, true, false, not, ◌&&◌, ◌||◌, Option, none, some, List, [], ◌∷◌, ◌++◌,
  leb, ◌==◌, str_eq, if◌then◌else◌,
}
use dnsid_py.Base.Result.{Result, ok, err, ◌>>=◌, ◌>>◌, raise_if, some_or}
use dnsid_py.Policy.{min_of}

-- The fields of VerifiedDomain that bound its use; `ek_not_after` is that of the certificate of
-- the ek endpoint, if there is one.
pub record Evidence : Type 0 where
  pub verified_at : ℕ
  pub dns_ttl : ℕ
  pub dns_expires_at : Option ℕ
  pub tls_not_after : ℕ
  pub ek_not_after : Option ℕ
  pub ka : String
  pub key_bound_at : ℕ

-- The codes of the VerificationErrors; `key_error` is the KeyError of `_parse_ka_duration`.
pub data FreshnessError : Type 0 where
  tls_error key_age_exceeded dns_resolution key_error : FreshnessError

-- `_parse_ka_duration`, in seconds
unfoldable pub parse_ka_duration : String → Option ℕ
parse_ka_duration ka =
    if str_eq ka "24h"
    then some 86400
    else if str_eq ka "7d"
    then some (7 * 86400)
    else if str_eq ka "30d"
    then some (30 * 86400)
    else if str_eq ka "90d"
    then some (90 * 86400)
    else none

abbrev pub dns_expiry : Option ℕ → ℕ → ℕ → ℕ
dns_expiry none verified_at dns_ttl = verified_at + dns_ttl
dns_expiry (some t) verified_at dns_ttl = t

-- A candidate unless it is the zero time.
abbrev pub bound : ℕ → List ℕ
bound t = if t == 0 then [] else t ∷ []

abbrev pub optional_bound : Option ℕ → List ℕ
optional_bound none = []
optional_bound (some t) = bound t

abbrev pub key_age_bound : Option ℕ → ℕ → List ℕ
key_age_bound none key_bound_at = []
key_age_bound (some age) key_bound_at = if key_bound_at == 0 then [] else (key_bound_at + age) ∷ []

-- `VerifiedDomain.expiry`
unfoldable pub expiry : Evidence → ℕ
expiry e = min_of (dns_expiry e.dns_expires_at e.verified_at e.dns_ttl) (
    bound e.tls_not_after
    ++ (optional_bound e.ek_not_after ++ key_age_bound (parse_ka_duration e.ka) e.key_bound_at))

-- `cert.not_after != _ZERO_TIME and now >= cert.not_after`
abbrev pub has_expired : ℕ → ℕ → Bool
has_expired now not_after = not (not_after == 0) && leb not_after now

abbrev pub optional_expired : ℕ → Option ℕ → Bool
optional_expired now none = false
optional_expired now (some t) = has_expired now t

-- The code after the loop over the certificates.
abbrev pub certificate_code : ℕ → Evidence → Option FreshnessError
certificate_code now e =
    if has_expired now e.tls_not_after || optional_expired now e.ek_not_after
    then some tls_error
    else none

-- The code after the test of the key's age, which overrides that of a certificate.
abbrev pub key_age_code :
    ℕ → ℕ → Option FreshnessError → ℕ → Result FreshnessError (Option FreshnessError)
key_age_code now key_bound_at code age =
    ok (if leb (key_bound_at + age) now then some key_age_exceeded else code)

abbrev pub age_code : ℕ → Evidence → Result FreshnessError (Option FreshnessError)
age_code now e =
    if str_eq e.ka ""
    then ok (certificate_code now e)
    else (some_or (parse_ka_duration e.ka) key_error
        >>= key_age_code now e.key_bound_at (certificate_code now e))

abbrev pub final_code : Option FreshnessError → Bool → Result FreshnessError (Unit {0})
final_code (some code) expired = err code
final_code none expired = raise_if expired dns_resolution

-- `_require_fresh_evidence`
unfoldable pub require_fresh_evidence : Evidence → ℕ → Bool → Result FreshnessError (Unit {0})
require_fresh_evidence e now fresh_dns_lookup = do
  code ← age_code now e
  final_code code (
      not (fresh_dns_lookup && (e.dns_ttl == 0))
      && leb (dns_expiry e.dns_expires_at e.verified_at e.dns_ttl) now)
