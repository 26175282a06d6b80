-- ===== src/Retry/Runs.antt =====
-- Runs of `retry_transient` (dnsid/retry.py).
use dnsid_py.Base.{ℕ, zero, suc, ◌≡◌, refl, String, [], ◌∷◌, arith}
use dnsid_py.Retry.{
  Outcome, returned, transient, value, raised, type_error, delay, attempts, retry_transient,
}
use dnsid_py.Retry.Bounded.{retry_transient-settles, retry_transient-exhausted, delays_from}

-- Two transient errors, then a value.
abbrev third_time : ℕ → Outcome String String
third_time zero = transient "first"
third_time (suc zero) = transient "second"
third_time (suc (suc n)) = returned "done"

abbrev no_jitter : ℕ → ℕ
no_jitter n = 0

settled :
    retry_transient third_time no_jitter 5 10 15
    ≡ record { verdict = value "done"; calls = 3; delays = 10 ∷ 15 ∷ [] }
unfolding retry_transient attempts delay
settled = refl

exhausted :
    retry_transient third_time no_jitter 2 10 15
    ≡ record { verdict = raised "second"; calls = 2; delays = 10 ∷ [] }
unfolding retry_transient attempts delay
exhausted = refl

no_attempts :
    retry_transient third_time no_jitter 0 10 15
    ≡ record { verdict = type_error; calls = 0; delays = [] }
unfolding retry_transient attempts
no_attempts = refl

retry_transient-settles_example : retry_transient third_time no_jitter 5 10 15 ≡ record {
  verdict = value "done";
  calls = 3;
  delays = delays_from third_time no_jitter 5 10 15 0 2;
}
retry_transient-settles_example =
    retry_transient-settles third_time no_jitter 5 10 15 2 (value "done")
      ("first", refl, ("second", refl, tt)) refl (omega arith)

retry_transient-exhausted_example : retry_transient third_time no_jitter 2 10 15 ≡ record {
  verdict = raised "second";
  calls = 2;
  delays = delays_from third_time no_jitter 2 10 15 0 1;
}
retry_transient-exhausted_example =
    retry_transient-exhausted third_time no_jitter 2 10 15 1 "second" refl ("first", refl, tt) refl
