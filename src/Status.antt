-- ===== src/Status.antt =====
-- AgentStatus.validate of dnsid/models.py, with AgentState of dnsid/enums.py. An instant is a
-- number, and `_ZERO_TIME` is 0; the tests on Python types have no counterpart.
mod Runs
use dnsid_py.Base.{ℕ, String, Bool, not, ◌&&◌, ◌||◌, ◌==◌, str_eq}
use dnsid_py.Base.Result.{Result, ◌>>◌, raise_if}
use dnsid_py.DomainLog.{known_reason}

pub record AgentStatus : Type 0 where
  pub state : String
  pub last_transition_at : ℕ
  pub revocation_reason : String

pub data StatusError : Type 0 where
  unknown_state missing_transition bad_revocation_reason : StatusError

-- The values of AgentState.
unfoldable pub known_state : String → Bool
known_state s =
    str_eq s "PENDING"
    || (str_eq s "PROVISIONING"
        || (str_eq s "VERIFYING"
            || (str_eq s "ACTIVE" || (str_eq s "RETIRED" || str_eq s "REVOKED"))))

unfoldable pub validate_status : AgentStatus → Result StatusError (Unit {0})
validate_status status = do
  raise_if (not (known_state status.state)) unknown_state
  raise_if (status.last_transition_at == 0) missing_transition
  raise_if (str_eq status.state "REVOKED" && not (known_reason status.revocation_reason))
      bad_revocation_reason
