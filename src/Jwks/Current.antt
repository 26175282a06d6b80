-- ===== src/Jwks/Current.antt =====
-- The one signing key of a set, and the separation of two sets (dnsid/models.py).
use dnsid_py.Jwks.{current_operational_signing_key}
use dnsid_py.Jwks.{validate_operational}
use dnsid_py.Base.{◌∙◌}
use dnsid_py.Base.{sym}
use dnsid_py.Base.{
  ◌≡◌, ap, String, Bool, false, Option, some, List, [], ◌∷◌, str_eq, eq_iff, In, inl, inr,
  Bool-cases, Option-cases, arith, All,
}
use dnsid_py.Base.Result.{ok, Result-cases}
use dnsid_py.Keys.{Jwk, thumbprint}
use dnsid_py.Jwks.{
  signature_alg, signature_alg_from_raw, select, for_signing, only_key, validate, key_by_id,
  current_signing_key, thumbprints, has_text, shares_text, check_ek_ku_distinctness,
}
use dnsid_py.Jwks.Lookup.{key_by_id-validate}

select-In :
    (p : Jwk → Bool) (keys : List Jwk) (k : Jwk) (rest : List Jwk)
    → select p keys ≡ k ∷ rest
    → In k keys
unfolding select
select-In p [] k rest h = cc
select-In p (x ∷ keys) k rest h = elim (Bool-cases (p x)) [
  | inl chosen ↦ let same : x ≡ k = ground arith in inl (sym same)
  | inr passed ↦ inr (select-In p keys k rest (ground arith))
]

only_key_lem : (keys : List Jwk) (k : Jwk) → only_key keys ≡ ok k → keys ≡ k ∷ []
only_key_lem [] k h = cc
only_key_lem (x ∷ []) k h = cc
only_key_lem (x ∷ y ∷ keys) k h = cc

signature_alg_lem :
    (k : Jwk) (a : String) → signature_alg k ≡ ok a → str_eq k.alg "" ≡ false → k.alg ≡ a
unfolding signature_alg
signature_alg_lem k a h named = elim (Option-cases (signature_alg_from_raw k.raw)) [
  | inl q ↦ absurd (ground arith)
  | inr (derived, q) ↦
      let same : derived ≡ a = ground arith in ground (arith, same, eq_iff k.alg derived)
]

current_lem :
    (keys : List Jwk) (profile : Option String) (k : Jwk)
    → current_signing_key keys profile ≡ ok k
    → (validate keys ≡ ok tt)
      × (select for_signing keys ≡ k ∷ [])
      × (str_eq k.kid "" ≡ false)
      × (str_eq k.alg "" ≡ false)
      × (signature_alg k ≡ ok k.alg)
unfolding current_signing_key
current_lem keys profile k h = elim (Result-cases (validate keys)) [
  | inr (x, q) ↦ absurd (ground arith)
  | inl (tt, q) ↦ elim (Result-cases (only_key (select for_signing keys))) [
    | inr (x, r) ↦ absurd (ground arith)
    | inl (key, r) ↦ elim (Result-cases (signature_alg key)) [
      | inr (x, u) ↦ absurd (ground arith)
      | inl (a, u) ↦
          let same : key ≡ k = ground arith in
          let named : str_eq key.kid "" ≡ false = ground arith in
          let alg : str_eq key.alg "" ≡ false = ground arith in
          let only = only_key_lem (select for_signing keys) key r in
          rw (← same) (q, only, named, alg, u ∙ ap ok (sym (signature_alg_lem key a u alg)))
    ]
  ]
]

-- The current signing key of a set is in it, and it is the only key of the set whose use allows
-- signing; the set passes `validate`; the key states an algorithm, the one that its type and
-- curve bind; and it has an id, under which `key_by_id` finds exactly this key.
pub current_signing_key-key_by_id :
    (keys : List Jwk) (profile : Option String) (k : Jwk)
    → current_signing_key keys profile ≡ ok k
    → In k keys
      × (select for_signing keys ≡ k ∷ [])
      × (validate keys ≡ ok tt)
      × (signature_alg k ≡ ok k.alg)
      × (key_by_id keys k.kid ≡ some k)
current_signing_key-key_by_id keys profile k h =
    let (valid, only, named, alg, derived) = current_lem keys profile k h in
    let m = select-In for_signing keys k [] only in
    (m, only, valid, derived, key_by_id-validate keys k valid m named)

module _ (digest : List (String × String) → String) where
  -- Two keys of different thumbprints.
  abbrev pub Differ : Jwk → Jwk → Type 0
  Differ a b =
      (s : String) × (t : String) × (thumbprint digest a ≡ some s)
      × (thumbprint digest b ≡ some t)
      × (str_eq s t ≡ false)

  others_lem :
      (a : Jwk) (s : String) (ku : List Jwk) (ts : List String)
      → thumbprint digest a ≡ some s
      → thumbprints digest ku ≡ ok ts
      → has_text s ts ≡ false
      → All (Differ a) ku
  unfolding thumbprints has_text
  others_lem a s [] ts q r h = tt
  others_lem a s (b ∷ ku) ts q r h = elim (Option-cases (thumbprint digest b)) [
    | inl u ↦ absurd (ground arith)
    | inr (t, u) ↦ elim (Result-cases (thumbprints digest ku)) [
      | inr (x, v) ↦ absurd (ground arith)
      | inl (more, v) ↦
          let same : t ∷ more ≡ ts = ground arith in
          let apart : has_text s (t ∷ more) ≡ false = ap (has_text s) same ∙ h in
          ((s, t, q, u, ground arith), others_lem a s ku more q v (ground arith))
    ]
  ]

  pairs_lem :
      (ek ku : List Jwk) (ss ts : List String)
      → thumbprints digest ek ≡ ok ss
      → thumbprints digest ku ≡ ok ts
      → shares_text digest ss ts ≡ false
      → All (λ a. All (Differ a) ku) ek
  unfolding thumbprints shares_text
  pairs_lem [] ku ss ts q r h = tt
  pairs_lem (a ∷ ek) ku ss ts q r h = elim (Option-cases (thumbprint digest a)) [
    | inl u ↦ absurd (ground arith)
    | inr (s, u) ↦ elim (Result-cases (thumbprints digest ek)) [
      | inr (x, v) ↦ absurd (ground arith)
      | inl (more, v) ↦
          let same : s ∷ more ≡ ss = ground arith in
          let apart : shares_text digest (s ∷ more) ts ≡ false =
            ap (λ l. shares_text digest l ts) same ∙ h in
          (others_lem a s ku ts u r (ground arith), pairs_lem ek ku more ts v r (ground arith))
    ]
  ]

  empty_lem : (ek : List Jwk) → All (λ a. All (Differ a) []) ek
  empty_lem [] = tt
  empty_lem (a ∷ ek) = (tt, empty_lem ek)

  -- If `check_ek_ku_distinctness` accepts two key sets, no key of the one has the thumbprint of a
  -- key of the other.
  pub check_ek_ku_distinctness-Differ :
      (ek ku : List Jwk)
      → check_ek_ku_distinctness digest (some ek) (some ku) ≡ ok tt
      → All (λ a. All (Differ a) ku) ek
  unfolding check_ek_ku_distinctness
  check_ek_ku_distinctness-Differ [] ku h = tt
  check_ek_ku_distinctness-Differ (a ∷ ek) [] h = empty_lem (a ∷ ek)
  check_ek_ku_distinctness-Differ (a ∷ ek) (b ∷ ku) h =
      elim (Result-cases (thumbprints digest (a ∷ ek))) [
        | inr (x, u) ↦ absurd (ground arith)
        | inl (ss, u) ↦ elim (Result-cases (thumbprints digest (b ∷ ku))) [
          | inr (x, v) ↦ absurd (ground arith)
          | inl (ts, v) ↦ pairs_lem (a ∷ ek) (b ∷ ku) ss ts u v (ground arith)
        ]
      ]

-- `validate_operational` accepts only sets that have a current operational signing key, and
-- all of them pass `validate`.
pub validate_operational-current_operational_signing_key :
    (keys : List Jwk) (profile : Option String)
    → validate_operational keys profile ≡ ok tt
    → (k : Jwk) × (current_operational_signing_key keys profile ≡ ok k) × (validate keys ≡ ok tt)
unfolding validate_operational current_operational_signing_key
validate_operational-current_operational_signing_key keys profile h =
    elim (Result-cases (current_signing_key keys profile)) [
      | inr (x, q) ↦ absurd (ground arith)
      | inl (k, q) ↦ (k, q, (current_lem keys profile k q).0)
    ]
