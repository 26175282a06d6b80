-- ===== src/Lifecycle/Select.antt =====
-- The selection of a domain's lifecycle from a scan: `_verify_stream_lifecycle_steps` of
-- dnsid/c2sp_tlog/stream_verifier.py without a cutoff index, `_malformed_authenticated`,
-- `_migration_signed_by`, and `_candidate_is_authenticated` before any event is selected. The
-- dictionary `applied` holds the selected events under their ids, so it is looked up in `selected`.
pub mod Noise
pub mod Selected
pub mod Trusted
pub mod Unsigned
mod Runs
use dnsid_py.Base.{
  ℕ, ◌+◌, String, Bool, true, false, not, ◌&&◌, ◌||◌, Option, none, some, List, [], ◌∷◌, ◌++◌,
  Bytes, bytes_eq, length, ltb, ◌==◌, str_eq, if◌then◌else◌,
}
use dnsid_py.Base.Result.{Result, ok, err, ◌>>=◌, ◌>>◌, raise_if, some_or}
use dnsid_py.Keys.{Jwk, thumbprint}
use dnsid_py.Events.{
  IssuanceEvent, MigrationEvent, LogEvent, issuance, key_rotation, revocation, retirement,
  migration, delegation, foreign, domain_of,
}
use dnsid_py.StreamBundle.{IndexedEntry, sort_entries}
use dnsid_py.Lifecycle.{
  Chain, VerifiedLifecycleEvent, LifecycleError, resource_limited, Options, Decoders, signed_of,
  signature_ok, is_text, is_issuance,
}
use dnsid_py.Lifecycle.Verify.{verify_lifecycle}
use dnsid_py.Lifecycle.Candidate.{applied_keys, candidate_is_authenticated}

-- The answer of a decoder: `failed` is an exception that is skipped, `limit` is a
-- C2spTlogResourceLimitError, which is raised again.
pub data Reading (A : Type 0) : Type 0 where
  got : A → Reading A
  failed : Reading A
  limit : Reading A

-- The role of a signature: `ae`, `prev_op`, `op` and `new_op`.
pub data Role : Type 0 where
  entity_role previous_role operational_role new_role : Role

-- The members of an entry that `_malformed_authenticated` reads. `signatures` is `none` where
-- `parse_c2sp_signatures` raises, a key is `none` where it is missing or `jwk_from_dict` raises.
pub record Envelope : Type 0 where
  pub fqdn : Option String
  pub is_lifecycle : Bool
  pub is_genesis : Bool
  pub signatures : Option (List (Role × String × String))
  pub ek : Option Jwk
  pub ku : Option Jwk
  pub new_ku : Option Jwk
  pub prev_event_id : String

-- `read_public` is the first `try` block, and answers with `obj.get("fqdn")`; the other two are
-- parse_c2sp_event_entry and parse_chain_fields. `predecessor_id` is the stringified
-- `prev_event_id` of the entry.
pub record Codec : Type 0 where
  pub read_public : Bytes → Reading (Option String)
  pub read_event : Bytes → Reading LogEvent
  pub read_chain : Bytes → Reading Chain
  pub read_envelope : Bytes → Option Envelope
  pub predecessor_id : Bytes → String

pub data SelectError : Type 0 where
  input_limit resource_limit id_collision : SelectError
  malformed no_prior_history prior_history_unverified : ℕ → SelectError
  invalid_chain duplicate_issuance invalid_candidate : ℕ → SelectError
  lifecycle_error : LifecycleError → SelectError

abbrev pub no_chain : Chain
no_chain = record { seq = none; prev_event_id = none; prev_state_hash = none }

abbrev pub is_empty : List VerifiedLifecycleEvent → Bool
is_empty [] = true
is_empty (v ∷ vs) = false

abbrev pub may_start : LogEvent → Bool
may_start (issuance e) = true
may_start (migration e) = true
may_start _ = false

-- `except C2spTlogResourceLimitError: raise`
abbrev pub is_limited : LifecycleError → Bool
is_limited resource_limited = true
is_limited _ = false

abbrev prior_failure : ℕ → LifecycleError → SelectError
prior_failure index e = if is_limited e then resource_limit else prior_history_unverified index

module _ (d : Decoders) (opts : Options) where
  abbrev pub has_id : String → VerifiedLifecycleEvent → Bool
  has_id id v = is_text (d.event_id v.data_bytes) id

  -- `applied.get(identifier)`
  unfoldable pub applied_event :
      String → List VerifiedLifecycleEvent → Option VerifiedLifecycleEvent
  applied_event id [] = none
  applied_event id (v ∷ vs) =
      let later = applied_event id vs in if has_id id v then some v else later

  -- `selected[:selected.index(predecessor) + 1]`
  unfoldable pub up_to : String → List VerifiedLifecycleEvent → Option (List VerifiedLifecycleEvent)
  up_to id [] = none
  up_to id (v ∷ vs) =
      let later = up_to id vs in
      if has_id id v then some (v ∷ []) else elim later [ none ↦ none | some us ↦ some (v ∷ us) ]

  abbrev pub authority_of : String → List VerifiedLifecycleEvent → List VerifiedLifecycleEvent
  authority_of id selected = elim (up_to id selected) [ none ↦ selected | some vs ↦ vs ]

  abbrev pub same_thumb : Jwk → Jwk → Bool
  same_thumb a b = elim (thumbprint d.digest a) [
    | none ↦ false
    | some s ↦ elim (thumbprint d.digest b) [ none ↦ false | some t ↦ str_eq s t ]
  ]

  abbrev pinned : Jwk → Bool
  pinned entity = elim opts.signer_key [ none ↦ true | some key ↦ same_thumb entity key ]

  -- The keys under which a malformed entry would have to be signed.
  unfoldable pub envelope_keys : Envelope → List VerifiedLifecycleEvent → Option (Jwk × Jwk)
  envelope_keys e [] = elim e.ek [
    | none ↦ none
    | some entity ↦ elim e.ku [
      | none ↦ none
      | some operational ↦
          if e.is_genesis && pinned entity then some (entity, operational) else none
    ]
  ]
  envelope_keys e (v ∷ vs) = elim (authority_of e.prev_event_id (v ∷ vs)) [
    | [] ↦ none
    | first ∷ rest ↦ elim (applied_keys d opts first rest) [ ok keys ↦ some keys | err x ↦ none ]
  ]

  -- `keys[role]`
  unfoldable pub role_key : Envelope → Jwk × Jwk → Role → Option Jwk
  role_key e keys entity_role = some keys.0
  role_key e keys previous_role = some keys.1
  role_key e keys operational_role = elim e.ek [
    | none ↦ none
    | some entity ↦ if same_thumb entity keys.0 then e.ku else none
  ]
  role_key e keys new_role = e.new_ku

  abbrev role_signed : Bytes → Option Jwk → String → String → Bool
  role_signed payload none kid sig = false
  role_signed payload (some key) kid sig = elim (d.decode sig) [
    | none ↦ false
    | some decoded ↦ str_eq kid key.kid && d.verify key payload decoded
  ]

  unfoldable pub all_signed : Bytes → Envelope → Jwk × Jwk → List (Role × String × String) → Bool
  all_signed payload e keys [] = true
  all_signed payload e keys ((role, kid, sig) ∷ rest) =
      role_signed payload (role_key e keys role) kid sig && all_signed payload e keys rest

  -- `_malformed_authenticated`; whatever it raises there is False.
  unfoldable pub malformed_authenticated :
      Codec → Bytes → String → List VerifiedLifecycleEvent → Bool
  malformed_authenticated c data_bytes domain selected = elim (c.read_envelope data_bytes) [
    | none ↦ false
    | some e ↦ elim (d.signed_bytes data_bytes) [
      | none ↦ false
      | some payload ↦ elim e.signatures [
        | none ↦ false
        | some signatures ↦ elim (envelope_keys e selected) [
          | none ↦ false
          | some keys ↦
              is_text e.fqdn domain && (e.is_lifecycle && all_signed payload e keys signatures)
        ]
      ]
    ]
  ]

  -- `_migration_signed_by`
  unfoldable pub migration_signed_by : VerifiedLifecycleEvent → MigrationEvent → Jwk → Bool
  migration_signed_by item e key =
      str_eq e.signed.signing_kid key.kid && signature_ok d item e.signed.sig key

  -- `_candidate_is_authenticated` of the first event
  unfoldable pub issuance_is_authenticated : VerifiedLifecycleEvent → IssuanceEvent → Bool
  issuance_is_authenticated item e = elim e.entity_key [
    | none ↦ false
    | some entity ↦ elim e.operational_key [
      | none ↦ false
      | some operational ↦
          str_eq e.signed.signing_kid entity.kid
          && (pinned entity
              && (signature_ok d item e.signed.sig entity
                  && signature_ok d item e.signed.operational_countersig operational))
    ]
  ]

  unfoldable pub migration_is_authenticated :
      VerifiedLifecycleEvent
      → MigrationEvent
      → (MigrationEvent → Result LifecycleError (Jwk × Jwk))
      → Result SelectError Bool
  migration_is_authenticated item e verify_migration = elim opts.signer_key [
    | some key ↦
        if migration_signed_by item e key
        then (elim (verify_migration e) [
          | ok keys ↦ ok true
          | err x ↦ err (prior_failure item.index x)
        ])
        else ok false
    | none ↦ elim (verify_migration e) [
      | ok keys ↦ ok (migration_signed_by item e keys.0)
      | err x ↦ err (prior_failure item.index x)
    ]
  ]

  abbrev pub first_is_authenticated : VerifiedLifecycleEvent → LogEvent → Result SelectError Bool
  first_is_authenticated item (issuance e) = ok (issuance_is_authenticated item e)
  first_is_authenticated item (migration e) = elim opts.verify_migration [
    | none ↦ err (no_prior_history item.index)
    | some verify_migration ↦ migration_is_authenticated item e verify_migration
  ]
  first_is_authenticated item _ = ok false

  abbrev pub later_is_authenticated :
      VerifiedLifecycleEvent → List VerifiedLifecycleEvent → Result SelectError Bool
  later_is_authenticated item [] = ok false
  later_is_authenticated item (first ∷ rest) =
      elim (candidate_is_authenticated d opts item first rest) [
        | ok answer ↦ ok answer
        | err e ↦ if is_limited e then err resource_limit else ok false
      ]

  -- The second `try` block: whether the candidate counts.
  unfoldable pub authenticated :
      Codec → VerifiedLifecycleEvent → List VerifiedLifecycleEvent → Result SelectError Bool
  authenticated c item [] = first_is_authenticated item item.event
  authenticated c item (v ∷ vs) =
      later_is_authenticated item (authority_of (c.predecessor_id item.data_bytes) (v ∷ vs))

  abbrev pub from_lifecycle :
      {A : Type 0} → SelectError → Result LifecycleError A → Result SelectError A
  from_lifecycle e (ok a) = ok a
  from_lifecycle e (err x) = if is_limited x then err resource_limit else err e

  abbrev pub lifecycle_keys : List VerifiedLifecycleEvent → Result SelectError (Option (Jwk × Jwk))
  lifecycle_keys [] = ok none
  lifecycle_keys (first ∷ rest) = elim (applied_keys d opts first rest) [
    | ok keys ↦ ok (some keys)
    | err e ↦ err (lifecycle_error e)
  ]

  -- An authenticated candidate: it must continue the lifecycle.
  unfoldable pub apply_candidate :
      VerifiedLifecycleEvent
      → Bool
      → List VerifiedLifecycleEvent
      → Result SelectError (List VerifiedLifecycleEvent)
  apply_candidate item chain_failed selected = do
    raise_if chain_failed (invalid_chain item.index)
    raise_if (not (is_empty selected) && is_issuance item.event) (duplicate_issuance item.index)
    from_lifecycle (invalid_candidate item.index)
        (verify_lifecycle d opts (selected ++ (item ∷ [])))
    keys ← lifecycle_keys (selected ++ (item ∷ []))
    ok (selected ++ (record item { post_keys = keys } ∷ []))

  abbrev pub candidate_of : IndexedEntry → Bytes → LogEvent → Chain → VerifiedLifecycleEvent
  candidate_of entry hash event chain = record {
    index = entry.index;
    leaf_hash = hash;
    data_bytes = entry.data_bytes;
    event = event;
    chain = chain;
    post_keys = none;
  }

  unfoldable pub consider :
      Codec
      → VerifiedLifecycleEvent
      → Bool
      → List VerifiedLifecycleEvent
      → Result SelectError (List VerifiedLifecycleEvent)
  consider c item chain_failed selected =
      if is_empty selected && not (may_start item.event)
      then ok selected
      else elim (authenticated c item selected) [
        | err e ↦ err e
        | ok true ↦ apply_candidate item chain_failed selected
        | ok false ↦ ok selected
      ]

  -- The body of the loop from the second `try` on, for an entry of the domain with a new id.
  unfoldable pub select_new :
      (Bytes → Bytes)
      → Codec
      → String
      → IndexedEntry
      → List VerifiedLifecycleEvent
      → Result SelectError (List VerifiedLifecycleEvent)
  select_new leaf c domain entry selected = elim (c.read_event entry.data_bytes) [
    | limit ↦ err resource_limit
    | failed ↦
        if malformed_authenticated c entry.data_bytes domain selected
        then err (malformed entry.index)
        else ok selected
    | got event ↦
        if not (is_text (domain_of event) domain)
        then ok selected
        else elim (c.read_chain entry.data_bytes) [
          | limit ↦ err resource_limit
          | failed ↦
              consider c (candidate_of entry (leaf entry.data_bytes) event no_chain) true selected
          | got chain ↦
              consider c (candidate_of entry (leaf entry.data_bytes) event chain) false selected
        ]
  ]

  -- A copy of an applied event is skipped, if it signs the same.
  abbrev skip_copy :
      Bytes
      → VerifiedLifecycleEvent
      → List VerifiedLifecycleEvent
      → Result SelectError (List VerifiedLifecycleEvent)
  skip_copy payload v selected = elim (d.signed_bytes v.data_bytes) [
    | none ↦ err id_collision
    | some earlier ↦ if bytes_eq earlier payload then ok selected else err id_collision
  ]

  -- One round of the loop over the sorted entries.
  unfoldable pub select_entry :
      (Bytes → Bytes)
      → Codec
      → String
      → IndexedEntry
      → List VerifiedLifecycleEvent
      → Result SelectError (List VerifiedLifecycleEvent)
  select_entry leaf c domain entry selected = elim (c.read_public entry.data_bytes) [
    | limit ↦ err resource_limit
    | failed ↦ ok selected
    | got fqdn ↦ elim (d.signed_bytes entry.data_bytes) [
      | none ↦ ok selected
      | some payload ↦ elim (d.event_id entry.data_bytes) [
        | none ↦ ok selected
        | some id ↦
            if not (is_text fqdn domain) then ok selected else elim (applied_event id selected) [
              | some v ↦ skip_copy payload v selected
              | none ↦ select_new leaf c domain entry selected
            ]
      ]
    ]
  ]

  unfoldable pub select_entries :
      (Bytes → Bytes)
      → Codec
      → String
      → List IndexedEntry
      → List VerifiedLifecycleEvent
      → Result SelectError (List VerifiedLifecycleEvent)
  select_entries leaf c domain [] selected = ok selected
  select_entries leaf c domain (entry ∷ rest) selected =
      select_entry leaf c domain entry selected >>= λ next. select_entries leaf c domain rest next

  abbrev pub total_bytes : List IndexedEntry → ℕ
  total_bytes [] = 0
  total_bytes (entry ∷ rest) = length entry.data_bytes + total_bytes rest

  unfoldable pub verify_stream_lifecycle :
      (Bytes → Bytes)
      → Codec
      → ℕ
      → ℕ
      → String
      → List IndexedEntry
      → Result SelectError (List VerifiedLifecycleEvent)
  verify_stream_lifecycle leaf c max_entries max_entry_bytes domain entries = do
    raise_if (ltb max_entries (length entries) || ltb max_entry_bytes (total_bytes entries))
        input_limit
    selected ← select_entries leaf c domain (sort_entries entries) []
    elim (verify_lifecycle d opts selected) [ ok u ↦ ok selected | err e ↦ err (lifecycle_error e) ]
