-- ===== src/Status/Runs.antt =====
-- Runs of AgentStatus.validate (dnsid/models.py).
use dnsid_py.Base.{◌≡◌, refl}
use dnsid_py.Base.Result.{ok, err}
use dnsid_py.DomainLog.{known_reason}
use dnsid_py.Status.{known_state, validate_status, bad_revocation_reason}

active_needs_no_reason :
    validate_status (record { state = "ACTIVE"; last_transition_at = 5; revocation_reason = "" })
    ≡ ok tt
unfolding validate_status known_state known_reason
active_needs_no_reason = refl

revoked_needs_reason :
    validate_status (record { state = "REVOKED"; last_transition_at = 5; revocation_reason = "" })
    ≡ err bad_revocation_reason
unfolding validate_status known_state known_reason
revoked_needs_reason = refl
