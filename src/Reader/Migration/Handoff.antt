-- ===== src/Reader/Migration/Handoff.antt =====
-- What a verified previous log shows (dnsid/c2sp_tlog/reader.py, `_verify_prior_history`).
use dnsid_py.Base.{
  ℕ, ◌+◌, ◌≤◌, ◌<◌, ◌≡◌, String, true, false, Option, List, [], ◌∷◌, ◌++◌, length, Option-cases,
  inl, inr, arith, eq_iff,
}
use mathlib.Core.Path.{subst}
use dnsid_py.Base.Result.{ok, Result-cases}
use dnsid_py.Events.{MigrationEvent}
use dnsid_py.Reader.Migration.{
  Budget, VerifiedCutoffHistory, Rebuild, enforce, has_seen, without, method_of, prior_reader,
  migrations, last_is, follow, follow_all, validate_predecessor_history,
}

-- From one log to another, each migration takes over where the last ended, to a log not seen.
abbrev pub Handoffs : List String → String → List MigrationEvent → String → Type 0
Handoffs seen current_log [] end_log = current_log ≡ end_log
Handoffs seen current_log (e ∷ es) end_log =
    (e.previous_log ≡ current_log)
    × (has_seen e.new_log seen ≡ false)
    × Handoffs (e.new_log ∷ seen) e.new_log es end_log

-- The migrations, if there are any, start at a log that was not seen.
abbrev pub IsHandoff : List String → List MigrationEvent → String → Type 0
IsHandoff seen [] end_log = Unit {0}
IsHandoff seen (e ∷ es) end_log =
    (has_seen e.previous_log seen ≡ false)
    × Handoffs (e.previous_log ∷ seen) e.previous_log (e ∷ es) end_log

follow-Handoffs :
    (current_log : String) (seen : List String) (es : List MigrationEvent) (end_log : String)
    (visited : List String)
    → follow current_log seen es ≡ ok (end_log, visited)
    → Handoffs seen current_log es end_log
unfolding follow
follow-Handoffs c seen [] end_log visited h = ground arith
follow-Handoffs c seen (e ∷ es) end_log visited h = (
  ground (arith, eq_iff e.previous_log c),
  ground arith,
  follow-Handoffs e.new_log (e.new_log ∷ seen) es end_log visited (ground arith),
)

follow_all-IsHandoff :
    (end_log : String) (seen : List String) (es : List MigrationEvent) (visited : List String)
    → follow_all end_log seen es ≡ ok visited
    → IsHandoff seen es end_log
follow_all-IsHandoff end_log seen [] visited h = tt
follow_all-IsHandoff end_log seen (e ∷ es) visited h =
    elim (Result-cases (follow e.previous_log (e.previous_log ∷ seen) (e ∷ es))) [
      | inr (x, q) ↦ absurd (ground arith)
      | inl ((last_log, all), q) ↦
          let same : last_log ≡ end_log = ground (arith, eq_iff last_log end_log) in
          (
            ground arith,
            subst (Handoffs (e.previous_log ∷ seen) e.previous_log (e ∷ es)) same
                (follow-Handoffs e.previous_log (e.previous_log ∷ seen) (e ∷ es) last_log all q),
          )
    ]

-- What `_prior_reader` has checked, and its budget.
pub prior_reader-checked :
    (lr : String) (factory : Option (String → Option Rebuild)) (event : MigrationEvent) (depth : ℕ)
    (budget b : Budget) (rebuild : Rebuild)
    → prior_reader lr factory event depth budget ≡ ok (b, rebuild)
    → (event.new_log ≡ lr)
      × (depth < budget.limits.max_depth)
      × (has_seen event.previous_log budget.seen ≡ false)
      × (b ≡ record budget { active = true; seen = event.previous_log ∷ budget.seen })
unfolding prior_reader enforce
prior_reader-checked lr factory event depth budget b rebuild h =
    elim (Result-cases (method_of event.previous_log)) [
      | inr (x, q) ↦ absurd (ground arith)
      | inl (p, q) ↦ elim (Result-cases (method_of event.final_entry_ref)) [
        | inr (x, r) ↦ absurd (ground arith)
        | inl (c, r) ↦ elim (Option-cases factory) [
          | inl s ↦ absurd (ground arith)
          | inr (f, s) ↦ elim (Option-cases (f event.previous_log)) [
            | inl u ↦ absurd (ground arith)
            | inr (found, u) ↦
                (ground (arith, eq_iff event.new_log lr), ground arith, ground arith, ground arith)
          ]
        ]
      ]
    ]

-- What `_validate_predecessor_history` has checked, and its budget.
pub validate_predecessor_history-checked :
    (m : MigrationEvent) (history : VerifiedCutoffHistory) (depth max_events max_bytes : ℕ)
    (b b' : Budget)
    → validate_predecessor_history m history depth max_events max_bytes b ≡ ok b'
    → (visited : List String) × (b' ≡ record b { seen = visited ++ b.seen })
      × (length history.events ≤ max_events)
      × (history.response_size ≤ max_bytes)
      × (length history.event_refs ≡ length history.events)
      × (last_is history.event_refs m.final_entry_ref ≡ true)
      × (depth + 1 + length (migrations history.events) ≤ b.limits.max_depth)
      × IsHandoff (without m.previous_log b.seen) (migrations history.events) m.previous_log
unfolding validate_predecessor_history
validate_predecessor_history-checked m history depth max_events max_bytes b b' h =
    elim (Result-cases
      (follow_all m.previous_log (without m.previous_log b.seen) (migrations history.events))) [
        | inr (x, q) ↦ absurd (ground arith)
        | inl (visited, q) ↦ (
          visited,
          ground arith,
          ground arith,
          ground arith,
          ground arith,
          ground arith,
          ground arith,
          follow_all-IsHandoff m.previous_log (without m.previous_log b.seen)
              (migrations history.events) visited q,
        )
      ]
