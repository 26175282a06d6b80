-- ===== src/Base/Result.antt =====
-- Values of code that may raise: a result carries the error that a caller sees.
use mathlib.Core.Path.{◌≡◌, refl}
use mathlib.Core.Logic.{◌⊎◌, inl, inr}
use mathlib.Core.Bool.{Bool, true, false}
use mathlib.Core.Option.{Option, none, some}

pub data Result {ℓ} (E A : Type ℓ) : Type ℓ where
  ok : A → Result E A
  err : E → Result E A

infixl 5 ◌>>=◌ ◌>>◌
abbrev pub ◌>>=◌ {ℓ} : {E A B : Type ℓ} → Result E A → (A → Result E B) → Result E B
ok a >>= f = f a
err e >>= f = err e

abbrev pub ◌>>◌ : {E B : Type 0} → Result E (Unit {0}) → Result E B → Result E B
m >> k = m >>= λ _. k

-- `if bad: raise e`
abbrev pub raise_if : {E : Type 0} → Bool → E → Result E (Unit {0})
raise_if true e = err e
raise_if false e = ok tt

-- What a chain that returned went through.
pub bind_ok {ℓ} :
    {E A B : Type ℓ} (first : Result E A) (next : A → Result E B) {r : B}
    → (first >>= next) ≡ ok r
    → (v : A) × (first ≡ ok v) × (next v ≡ ok r)
bind_ok (err x) next returned = cc
bind_ok (ok v) next returned = (v, refl, returned)

-- A value that must not be None.
abbrev pub some_or {ℓ} : {E A : Type ℓ} → Option A → E → Result E A
some_or none e = err e
some_or (some a) e = ok a

pub some_or-ok {ℓ} : {E A : Type ℓ} (o : Option A) (e : E) {a : A} → some_or o e ≡ ok a → o ≡ some a
some_or-ok none e h = cc
some_or-ok (some a) e h = cc

pub raise_if-ok :
    {E B : Type 0} (b : Bool) (e : E) (k : Result E B) {r : B}
    → (raise_if b e >> k) ≡ ok r
    → (b ≡ false) × (k ≡ ok r)
raise_if-ok true e k h = cc
raise_if-ok false e k h = (refl, h)

pub some_or-bind :
    {E A B : Type 0} (o : Option A) (e : E) (k : A → Result E B) {r : B}
    → (some_or o e >>= k) ≡ ok r
    → (a : A) × (o ≡ some a) × (k a ≡ ok r)
some_or-bind none e k h = cc
some_or-bind (some a) e k h = (a, refl, h)

pub Result-cases {ℓ} :
    {E A : Type ℓ} (r : Result E A) → ((a : A) × (r ≡ ok a)) ⊎ ((e : E) × (r ≡ err e))
Result-cases (ok a) = inl (a, refl)
Result-cases (err e) = inr (e, refl)
