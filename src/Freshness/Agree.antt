-- ===== src/Freshness/Agree.antt =====
-- The two readings of freshness agree (dnsid/models.py, VerifiedDomain).
use dnsid_py.Base.{
  ℕ, ◌<◌, ◌≡◌, ◌++◌, eq_iff, ◌↔◌, refl, String, Bool, true, false, not, ◌||◌, ◌&&◌, Option, none,
  some, List, [], ◌∷◌, ltb, ◌==◌, str_eq, Bool-cases, Option-cases, inl, inr, arith,
}
use dnsid_py.Base.Result.{ok}
use dnsid_py.Policy.{min_of}
use dnsid_py.Freshness.{
  Evidence, parse_ka_duration, dns_expiry, expiry, require_fresh_evidence, bound, optional_bound,
  key_age_bound, has_expired, optional_expired,
}

abbrev all_after : ℕ → List ℕ → Bool
all_after now [] = true
all_after now (t ∷ ts) = ltb now t && all_after now ts

all_after-append :
    (now : ℕ) (a b : List ℕ) → all_after now (a ++ b) ≡ (all_after now a && all_after now b)
all_after-append now [] b = refl
all_after-append now (t ∷ a) b = ground (arith, all_after-append now a b)

abbrev is_some : Option ℕ → Bool
is_some none = false
is_some (some t) = true

min_of-lt : (now t : ℕ) (ts : List ℕ) → ltb now (min_of t ts) ≡ (ltb now t && all_after now ts)
min_of-lt now t [] = ground arith
min_of-lt now t (u ∷ ts) = ground (arith, min_of-lt now u ts)

bound_lem : (now t : ℕ) → all_after now (bound t) ≡ not (has_expired now t)
bound_lem now t = ground arith

optional_bound_lem :
    (now : ℕ) (o : Option ℕ) → all_after now (optional_bound o) ≡ not (optional_expired now o)
optional_bound_lem now none = refl
optional_bound_lem now (some t) = bound_lem now t

expiry_lem :
    (e : Evidence) (now : ℕ)
    → ltb now (expiry e) ≡ (
        ltb now (dns_expiry e.dns_expires_at e.verified_at e.dns_ttl)
        && (not (has_expired now e.tls_not_after)
            && (not (optional_expired now e.ek_not_after)
                && all_after now (key_age_bound (parse_ka_duration e.ka) e.key_bound_at))))
unfolding expiry
expiry_lem e now =
    let ages = key_age_bound (parse_ka_duration e.ka) e.key_bound_at in
    rw
      (
        min_of-lt now (dns_expiry e.dns_expires_at e.verified_at e.dns_ttl)
            (bound e.tls_not_after ++ (optional_bound e.ek_not_after ++ ages)),
        all_after-append now (bound e.tls_not_after) (optional_bound e.ek_not_after ++ ages),
        all_after-append now (optional_bound e.ek_not_after) ages,
        bound_lem now e.tls_not_after,
        optional_bound_lem now e.ek_not_after,
      )
      refl

no_age_lem : (ka : String) → str_eq ka "" ≡ true → parse_ka_duration ka ≡ none
unfolding parse_ka_duration
no_age_lem ka h = let same : ka ≡ "" = ground (arith, eq_iff ka "") in rw same refl

-- The record names no maximal key age, or a known one together with a time of binding.
abbrev pub is_bound : Evidence → Bool
is_bound e = str_eq e.ka "" || (is_some (parse_ka_duration e.ka) && not (e.key_bound_at == 0))

-- If the record names no maximal key age, or a permitted one with a time of binding, then outside
-- a fresh DNS lookup `_require_fresh_evidence` lets the evidence pass exactly until the instant
-- that `expiry` gives.
pub require_fresh_evidence-expiry :
    (e : Evidence) (now : ℕ)
    → is_bound e ≡ true
    → (require_fresh_evidence e now false ≡ ok tt) ↔ (now < expiry e)
unfolding require_fresh_evidence
require_fresh_evidence-expiry e now h = elim (Bool-cases (str_eq e.ka "")) [
  | inl blank ↦ ground (arith, expiry_lem e now, no_age_lem e.ka blank)
  | inr named ↦ elim (Option-cases (parse_ka_duration e.ka)) [
    | inl bad ↦ absurd (ground arith)
    | inr (age, q) ↦ ground (arith, expiry_lem e now)
  ]
]
