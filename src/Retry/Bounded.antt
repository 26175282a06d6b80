-- ===== src/Retry/Bounded.antt =====
-- How often `retry_transient` (dnsid/retry.py) calls and sleeps, and what it answers.
use dnsid_py.Base.{
  ℕ, zero, suc, ◌+◌, ◌-◌, ◌≡◌, ◌<◌, refl, sym, true, false, Option, none, some, List, [], ◌∷◌, ltb,
  arith, min, ◌*◌, ◌^◌,
}
use mathlib.Core.Path.{subst}
use dnsid_py.Retry.{
  one_call, Outcome, returned, transient, fatal, Verdict, value, raised, delay, attempts,
  retry_transient,
}

module _ {A E : Type 0} (fn : ℕ → Outcome A E) (jitter : ℕ → ℕ)
    (max_attempts base_delay max_delay : ℕ) where
  -- The `n` calls from `attempt` on all fail with transient errors.
  abbrev pub AreTransient : ℕ → ℕ → Type 0
  AreTransient attempt zero = Unit {0}
  AreTransient attempt (suc n) = (e : E) × (fn attempt ≡ transient e) × AreTransient (attempt + 1) n

  -- The delays of `n` retries from `attempt` on: the base delay, doubled at each attempt and capped
  -- at `max_delay`, plus the jitter.
  abbrev pub delays_from : ℕ → ℕ → List ℕ
  delays_from attempt zero = []
  delays_from attempt (suc n) =
      (min (base_delay * 2 ^ attempt) max_delay + jitter attempt) ∷ delays_from (attempt + 1) n

  -- What a call that is not retried makes of the whole.
  abbrev pub verdict_of : Outcome A E → Option (Verdict A E)
  verdict_of (returned a) = some (value a)
  verdict_of (fatal e) = some (raised e)
  verdict_of (transient e) = none

  first_lem :
      (attempt left : ℕ) (last : Option E) (v : Verdict A E)
      → verdict_of (fn attempt) ≡ some v
      → attempts fn jitter max_attempts base_delay max_delay attempt (suc left) last
        ≡ record { verdict = v; calls = 1; delays = [] }
  unfolding attempts
  first_lem attempt left last v found = by_outcome (fn attempt) found
    where
      by_outcome :
          (o : Outcome A E)
          → verdict_of o ≡ some v
          → one_call fn jitter max_attempts base_delay max_delay attempt o (λ e.
            attempts fn jitter max_attempts base_delay max_delay (attempt + 1) left (some e))
            ≡ record { verdict = v; calls = 1; delays = [] }
      by_outcome (returned a) h = cc
      by_outcome (fatal e) h = cc
      by_outcome (transient e) h = absurd (cc h)

  attempts-settle :
      (n attempt left : ℕ) (last : Option E) (v : Verdict A E)
      → AreTransient attempt n
      → verdict_of (fn (attempt + n)) ≡ some v
      → n < left
      → attempt + left ≡ max_attempts
      → attempts fn jitter max_attempts base_delay max_delay attempt left last
        ≡ record { verdict = v; calls = suc n; delays = delays_from attempt n }
  unfolding attempts delay
  attempts-settle n attempt zero last v h found le size = absurd (omega arith)
  attempts-settle zero attempt (suc left) last v h found le size =
      first_lem attempt left last v (subst (λ i. verdict_of (fn i) ≡ some v) (omega arith) found)
  attempts-settle (suc n) attempt (suc left) last v (e, p, rest) found le size =
      let sleeps : ltb attempt (max_attempts - 1) ≡ true = ground arith in
      let again =
        attempts-settle n (attempt + 1) left (some e) v rest
          (subst (λ i. verdict_of (fn i) ≡ some v) (omega arith) found) (omega arith)
          (omega arith) in
      rw (p, sleeps, again) refl

  attempts-exhaust :
      (n attempt : ℕ) (last : Option E) (e : E)
      → AreTransient attempt n
      → fn (attempt + n) ≡ transient e
      → attempt + suc n ≡ max_attempts
      → attempts fn jitter max_attempts base_delay max_delay attempt (suc n) last
        ≡ record { verdict = raised e; calls = suc n; delays = delays_from attempt n }
  unfolding attempts delay
  attempts-exhaust zero attempt last e h found size =
      let here : fn attempt ≡ transient e = subst (λ i. fn i ≡ transient e) (omega arith) found in
      let last_one : ltb attempt (max_attempts - 1) ≡ false = ground arith in
      rw (here, last_one) refl
  attempts-exhaust (suc n) attempt last e (x, p, rest) found size =
      let sleeps : ltb attempt (max_attempts - 1) ≡ true = ground arith in
      let again =
        attempts-exhaust n (attempt + 1) (some x) e rest
          (subst (λ i. fn i ≡ transient e) (omega arith) found) (omega arith) in
      rw (p, sleeps, again) refl

  -- If all the calls before call number `n` fail with transient errors, call `n` is within the
  -- allowed number and returns a value or fails with an error that is not transient, then
  -- `retry_transient` calls `n + 1` times, sleeps in between for the base delay, doubled at each
  -- retry and capped at `max_delay`, plus the jitter, and answers with that value or that error.
  pub retry_transient-settles :
      (n : ℕ) (v : Verdict A E)
      → AreTransient 0 n
      → verdict_of (fn n) ≡ some v
      → n < max_attempts
      → retry_transient fn jitter max_attempts base_delay max_delay
        ≡ record { verdict = v; calls = suc n; delays = delays_from 0 n }
  unfolding retry_transient
  retry_transient-settles n v h found le =
      attempts-settle n 0 max_attempts none v h
        (subst (λ i. verdict_of (fn i) ≡ some v) (omega arith) found) le (omega arith)

  -- If every allowed call fails with a transient error, and `e` is the error of the last one, then
  -- `retry_transient` makes all the calls, sleeps the same delays between them but not after the
  -- last, and raises `e`.
  pub retry_transient-exhausted :
      (n : ℕ) (e : E)
      → max_attempts ≡ suc n
      → AreTransient 0 n
      → fn n ≡ transient e
      → retry_transient fn jitter max_attempts base_delay max_delay
        ≡ record { verdict = raised e; calls = max_attempts; delays = delays_from 0 n }
  unfolding retry_transient
  retry_transient-exhausted n e size h found =
      let run =
        attempts-exhaust n 0 none e h (subst (λ i. fn i ≡ transient e) (omega arith) found)
          (omega arith) in
      subst
        (λ k.
          attempts fn jitter max_attempts base_delay max_delay 0 k none
          ≡ record { verdict = raised e; calls = k; delays = delays_from 0 n })
        (sym size) run
