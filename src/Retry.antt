-- ===== src/Retry.antt =====
-- `retry_transient` of dnsid/retry.py (and its async twin, which awaits in the same places). The
-- callable answers by the number of the call; delays are in units of the caller's choice, and
-- `jitter` is what `random.uniform` gives for each retry.
pub mod Bounded
mod Runs
use dnsid_py.Base.{
  ℕ, zero, suc, ◌+◌, ◌-◌, ◌*◌, ◌^◌, Option, none, some, List, [], ◌∷◌, ltb, min, if◌then◌else◌,
}

-- One call: a value, a VerificationError with `transient`, or any other exception.
pub data Outcome (A E : Type 0) : Type 0 where
  returned : A → Outcome A E
  transient : E → Outcome A E
  fatal : E → Outcome A E

-- What the caller sees; `raise None` is a TypeError.
pub data Verdict (A E : Type 0) : Type 0 where
  value : A → Verdict A E
  raised : E → Verdict A E
  type_error : Verdict A E

pub record Retried (A E : Type 0) : Type 0 where
  pub verdict : Verdict A E
  pub calls : ℕ
  pub delays : List ℕ

abbrev raise_last : {A E : Type 0} → Option E → Verdict A E
raise_last none = type_error
raise_last (some e) = raised e

module _ {A E : Type 0} (fn : ℕ → Outcome A E) (jitter : ℕ → ℕ)
    (max_attempts base_delay max_delay : ℕ) where
  unfoldable pub delay : ℕ → ℕ
  delay attempt = min (base_delay * 2 ^ attempt) max_delay + jitter attempt

  abbrev after_call : Retried A E → Retried A E
  after_call r = record r { calls = suc r.calls }

  abbrev after_sleep : ℕ → Retried A E → Retried A E
  after_sleep attempt r =
      if ltb attempt (max_attempts - 1) then record r { delays = delay attempt ∷ r.delays } else r

  -- The body of the `try`; `again` is the rest of the loop.
  abbrev pub one_call : ℕ → Outcome A E → (E → Retried A E) → Retried A E
  one_call attempt (returned a) again = record { verdict = value a; calls = 1; delays = [] }
  one_call attempt (fatal e) again = record { verdict = raised e; calls = 1; delays = [] }
  one_call attempt (transient e) again = after_call (after_sleep attempt (again e))

  -- The loop from a call on, with as many calls left; `last` is `last_exc`.
  unfoldable pub attempts : ℕ → ℕ → Option E → Retried A E
  attempts attempt zero last = record { verdict = raise_last last; calls = 0; delays = [] }
  attempts attempt (suc left) last =
      one_call attempt (fn attempt) (λ e. attempts (attempt + 1) left (some e))

  unfoldable pub retry_transient : Retried A E
  retry_transient = attempts 0 max_attempts none
