-- ===== src/Freshness/Runs.antt =====
-- Runs of the freshness checks (dnsid/models.py).
use dnsid_py.Base.{◌≡◌, ◌↔◌, ◌<◌, refl, none, some, false}
use dnsid_py.Base.Result.{ok, err}
use dnsid_py.Freshness.{
  Evidence, parse_ka_duration, require_fresh_evidence, expiry, key_age_exceeded,
}
use dnsid_py.Freshness.Agree.{require_fresh_evidence-expiry}

abbrev a_day : Evidence
a_day = record {
  verified_at = 100000;
  dns_ttl = 300;
  dns_expires_at = none;
  tls_not_after = 900000;
  ek_not_after = some 800000;
  ka = "24h";
  key_bound_at = 13700;
}

-- The key age ends before the DNS answer does.
earliest_bound : expiry a_day ≡ 100100
unfolding expiry parse_ka_duration
earliest_bound = refl

too_old : require_fresh_evidence a_day 100100 false ≡ err key_age_exceeded
unfolding require_fresh_evidence parse_ka_duration
too_old = refl

require_fresh_evidence-expiry_example :
    (require_fresh_evidence a_day 100099 false ≡ ok tt) ↔ (100099 < expiry a_day)
require_fresh_evidence-expiry_example =
    require_fresh_evidence-expiry a_day 100099 (unfold parse_ka_duration in refl)
