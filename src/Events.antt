-- ===== src/Events.antt =====
-- The log events of dnsid/models.py and the enumerations of dnsid/enums.py that they use.
-- A timestamp is an instant, a number; `datetime` compares instants.
use dnsid_py.Base.{ℕ, String, Option, some}
use dnsid_py.Keys.{Jwk}

abbrev pub Time : Type 0
Time = ℕ

-- The signature fields of the base class.
pub record Signed : Type 0 where
  pub signing_kid : String
  pub sig : String
  pub operational_countersig : String

pub record IssuanceEvent : Type 0 where
  pub signed : Signed
  pub domain : String
  pub governance_id : String
  pub entity_key : Option Jwk
  pub operational_key : Option Jwk
  pub timestamp : Time

pub record KeyRotationEvent : Type 0 where
  pub signed : Signed
  pub domain : String
  pub previous_kid : String
  pub previous_thumbprint : String
  pub previous_public_key : Option Jwk
  pub new_kid : String
  pub new_thumbprint : String
  pub new_public_key : Option Jwk
  pub new_operational_proof : String
  pub timestamp : Time

pub record RevocationEvent : Type 0 where
  pub signed : Signed
  pub domain : String
  pub reason : String
  pub timestamp : Time

pub record RetirementEvent : Type 0 where
  pub signed : Signed
  pub domain : String
  pub timestamp : Time

pub record MigrationEvent : Type 0 where
  pub signed : Signed
  pub domain : String
  pub previous_log : String
  pub new_log : String
  pub final_entry_ref : String
  pub timestamp : Time

pub record DelegationEvent : Type 0 where
  pub signed : Signed
  pub domain : String
  pub delegatee : String
  pub scope : String
  pub expiry : Time
  pub timestamp : Time

-- `foreign` is an object of any other class, with the attributes that `getattr` finds on it.
pub data LogEvent : Type 0 where
  issuance : IssuanceEvent → LogEvent
  key_rotation : KeyRotationEvent → LogEvent
  revocation : RevocationEvent → LogEvent
  retirement : RetirementEvent → LogEvent
  migration : MigrationEvent → LogEvent
  delegation : DelegationEvent → LogEvent
  foreign : Option String → Option Time → LogEvent

-- `getattr(event, "domain", None)`
unfoldable pub domain_of : LogEvent → Option String
domain_of (issuance e) = some e.domain
domain_of (key_rotation e) = some e.domain
domain_of (revocation e) = some e.domain
domain_of (retirement e) = some e.domain
domain_of (migration e) = some e.domain
domain_of (delegation e) = some e.domain
domain_of (foreign d t) = d

-- `getattr(event, "timestamp", None)`
unfoldable pub timestamp_of : LogEvent → Option Time
timestamp_of (issuance e) = some e.timestamp
timestamp_of (key_rotation e) = some e.timestamp
timestamp_of (revocation e) = some e.timestamp
timestamp_of (retirement e) = some e.timestamp
timestamp_of (migration e) = some e.timestamp
timestamp_of (delegation e) = some e.timestamp
timestamp_of (foreign d t) = t

-- LifecycleErrorCategory
pub data LifecycleErrorCategory : Type 0 where
  genesis_required duplicate_issuance invalid_issuance terminal_state : LifecycleErrorCategory
  domain_mismatch key_continuity invalid_revocation_reason : LifecycleErrorCategory
  invalid_migration snapshot_empty snapshot_non_prefix : LifecycleErrorCategory
  unsupported_event : LifecycleErrorCategory
