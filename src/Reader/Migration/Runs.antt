-- ===== src/Reader/Migration/Runs.antt =====
-- Runs of the verification of a previous log (dnsid/c2sp_tlog/reader.py).
use dnsid_py.Base.{ℕ, ◌≡◌, refl, String, true, false, Option, some, List, [], ◌∷◌, length, bytes_eq}
use dnsid_py.Base.Result.{ok, err}
use dnsid_py.Keys.{thumbprint, compute_thumbprint}
use dnsid_py.Events.{Time, MigrationEvent, migration, domain_of, timestamp_of}
use dnsid_py.DomainLog.{snapshot_at, replay, visit, replay_event, apply_event, conclude}
use dnsid_py.DomainLog.Runs.{toy, key, issued, rotated, signed}
use dnsid_py.LedgerRef.{parse_ledger_ref, is_valid_ledger_method}
use dnsid_py.TxtRecord.Texts.{cut, all_of}
use dnsid_py.Reader.{first_issuance}
use dnsid_py.Reader.Migration.{
  cycle, too_deep, Budget, VerifiedCutoffHistory, MigrationVerificationResult, Rebuild, enforce,
  has_seen, without, prior_reader, migrations, last_is, follow, validate_predecessor_history,
  prior_result, verify_external_prior,
}
use dnsid_py.Reader.Migration.Handoff.{IsHandoff}
use dnsid_py.Reader.Migration.Verified.{HandsOver, verify_external_prior-HandsOver}

abbrev moved : String → String → String → Time → MigrationEvent
moved previous new ref at = record {
  signed = signed;
  domain = "a.example";
  previous_log = previous;
  new_log = new;
  final_entry_ref = ref;
  timestamp = at;
}

abbrev history : VerifiedCutoffHistory
history = record {
  events = issued ∷ migration (moved "m:1" "m:2" "m:1@3" 15) ∷ rotated ∷ [];
  event_refs = "m:1@3" ∷ "m:2@0" ∷ "m:2@5" ∷ [];
  response_size = 40;
}

abbrev factory : Option (String → Option Rebuild)
factory = some (λ log. some (λ cutoff remaining. some history))

abbrev budget : ℕ → List String → Budget
budget max_depth seen = record {
  limits = record { max_depth = max_depth; max_history_events = 10; max_response_bytes = 100 };
  seen = seen;
  history_events = 2;
  response_bytes = 50;
  active = false;
}

abbrev charged : Budget
charged = record {
  limits = record { max_depth = 3; max_history_events = 10; max_response_bytes = 100 };
  seen = "m:2" ∷ "m:1" ∷ "m:3" ∷ "m:2" ∷ "m:3" ∷ [];
  history_events = 5;
  response_bytes = 90;
  active = true;
}

abbrev handed : MigrationVerificationResult
handed = record {
  entity_key = key "entity";
  operational_key = key "second";
  prior_events = history.events;
  prior_event_refs = history.event_refs;
}

abbrev last_move : MigrationEvent
last_move = moved "m:2" "m:3" "m:2@5" 30

verified :
    verify_external_prior toy 1000 "m:3" factory last_move "a.example"
      (key "entity")
      1
      (budget 3 ("m:3" ∷ []))
    ≡ ok (charged, handed)
unfolding verify_external_prior prior_reader enforce parse_ledger_ref is_valid_ledger_method cut
    all_of bytes_eq has_seen without validate_predecessor_history migrations follow prior_result
    first_issuance snapshot_at replay visit replay_event apply_event conclude thumbprint
    compute_thumbprint toy domain_of timestamp_of
verified = refl

-- One migration less of room.
deep :
    verify_external_prior toy 1000 "m:3" factory last_move "a.example"
      (key "entity")
      2
      (budget 3 ("m:3" ∷ []))
    ≡ err too_deep
unfolding verify_external_prior prior_reader enforce parse_ledger_ref is_valid_ledger_method cut
    all_of bytes_eq has_seen validate_predecessor_history migrations
deep = refl

-- The first log of the previous history is the current one.
round :
    verify_external_prior toy 1000 "m:3" factory last_move "a.example"
      (key "entity")
      1
      (budget 3 ("m:1" ∷ "m:3" ∷ []))
    ≡ err cycle
unfolding verify_external_prior prior_reader enforce parse_ledger_ref is_valid_ledger_method cut
    all_of bytes_eq has_seen without validate_predecessor_history migrations follow
round = refl

verify_external_prior-HandsOver_example :
    (last_move.new_log ≡ "m:3")
    × IsHandoff (without "m:2" ("m:2" ∷ "m:3" ∷ [])) (migrations handed.prior_events) "m:2"
    × (length handed.prior_event_refs ≡ length handed.prior_events)
    × (last_is handed.prior_event_refs "m:2@5" ≡ true)
    × HandsOver toy 1000 "a.example" (key "entity") handed
verify_external_prior-HandsOver_example =
    verify_external_prior-HandsOver toy 1000 "m:3" factory last_move "a.example" (key "entity") 1
      (budget 3 ("m:3" ∷ [])) charged handed verified
