-- ===== src/Policy/Enforce/Sound.antt =====
-- What an enforced policy guarantees (dnsid/c2sp_tlog/policy.py).
use dnsid_py.Base.{◌≢◌}
use dnsid_py.Base.{
  ℕ, ◌+◌, ◌*◌, ◌≤◌, ◌≡◌, refl, String, Bool, true, false, not, ◌&&◌, Option, none, some, List, [],
  ◌∷◌, Bytes, str_eq, eq_iff, Bool-cases, Option-cases, inl, inr, In, All, arith, ◌⊎◌, bytes_eq_iff,
}
use dnsid_py.Base.Result.{ok, Result-cases}
use dnsid_py.Base.Decimal.{Text}
use dnsid_py.SignedNote.{Checkpoint, SignedNoteKey, is_type, verified_cosignature_timestamp}
use dnsid_py.SignedNote.Sound.{
  SignedBy, CosignedAt, verify_checkpoint_signature-SignedBy,
  verified_cosignature_timestamp-CosignedAt,
}
use dnsid_py.Policy.{evaluate_quorum, normalize_rule}
use dnsid_py.Policy.Enforce.{
  TlogPolicy, NormalizedPolicy, PolicyResult, any_key, has_duplicate, share_keys, as_keys,
  same_identity, collect_keys, is_none, or_rule, or_zero, flat_quorum_rule, bad_witness_key_type,
  bad_log_key_type, normalized_origin_policy, accepts, enforce_checkpoint_policy,
}
use dnsid_py.Policy.Enforce.Timestamps.{Vouched, All-map, evaluate_quorum-Vouched}

any_key-In :
    (p : SignedNoteKey → Bool) (ks : List SignedNoteKey)
    → any_key p ks ≡ true
    → (k : SignedNoteKey) × In k ks × (p k ≡ true)
unfolding any_key
any_key-In p [] h = cc
any_key-In p (k ∷ ks) h = elim (Bool-cases (p k)) [
  | inl here ↦ (k, inl refl, here)
  | inr there ↦ let (found, m, q) = any_key-In p ks (ground arith) in (found, inr m, q)
]

any_key-false :
    (p : SignedNoteKey → Bool) (ks : List SignedNoteKey)
    → any_key p ks ≡ false
    → All (λ k. p k ≡ false) ks
unfolding any_key
any_key-false p [] h = tt
any_key-false p (k ∷ ks) h = (ground arith, any_key-false p ks (ground arith))

-- No two places of the list hold keys of the same kind and bytes.
abbrev pub IsDistinct : List SignedNoteKey → Type 0
IsDistinct [] = Unit
IsDistinct (k ∷ ks) = All (λ q. same_identity k q ≡ false) ks × IsDistinct ks

distinct : (ks : List SignedNoteKey) → has_duplicate ks ≡ false → IsDistinct ks
unfolding has_duplicate
distinct [] h = tt
distinct (k ∷ ks) h =
    (any_key-false (same_identity k) ks (ground arith), distinct ks (ground arith))

unshared :
    (ws ks : List SignedNoteKey)
    → share_keys ws ks ≡ false
    → All (λ w. All (λ k. same_identity w k ≡ false) ks) ws
unfolding share_keys
unshared ws ks h =
    All-map (λ w. any_key (same_identity w) ks ≡ false)
      (λ w. All (λ k. same_identity w k ≡ false) ks) ws
      (λ w e. any_key-false (same_identity w) ks e)
      (any_key-false (λ k. any_key (same_identity k) ks) ws h)

of_type : (t : Option Bytes) → not (is_type 4 t) ≡ false → t ≡ some (4 ∷ [])
of_type none h = cc
of_type (some b) h = ground (arith, bytes_eq_iff b (4 ∷ []))

-- The type of an Ed25519 log key, or none.
abbrev pub IsLogType : Option Bytes → Type 0
IsLogType t = (t ≡ none) ⊎ (t ≡ some (1 ∷ []))

log_type_lem : (k : SignedNoteKey) → bad_log_key_type k ≡ false → IsLogType k.signature_type
log_type_lem k h = elim (Option-cases k.signature_type) [
  | inl q ↦ inl q
  | inr (t, q) ↦ inr (ground (arith, bytes_eq_iff t (1 ∷ [])))
]

named : (k : SignedNoteKey) (origin : String) → not (str_eq k.name origin) ≡ false → k.name ≡ origin
named k origin h = ground (arith, eq_iff k.name origin)

module _ (parse_key : String → Option SignedNoteKey) where
  -- The tests that the normalized policy has passed.
  abbrev Passed : String → NormalizedPolicy → Type 0
  Passed origin p =
      (collect_keys p.quorum_rule ≡ ok p.witness_keys)
      × (any_key (λ k. not (str_eq k.name origin)) p.log_keys ≡ false)
      × (any_key bad_witness_key_type p.witness_keys ≡ false)
      × (any_key bad_log_key_type p.log_keys ≡ false)
      × (has_duplicate p.log_keys ≡ false)
      × (has_duplicate p.witness_keys ≡ false)
      × (share_keys p.witness_keys p.log_keys ≡ false)

  normalized_lem :
      (policy : TlogPolicy) (origin : String) (p : NormalizedPolicy)
      → normalized_origin_policy parse_key policy origin ≡ ok p
      → Passed origin p
  unfolding normalized_origin_policy
  normalized_lem policy origin p h = elim (Option-cases (policy.origins origin)) [
    | inl e ↦ absurd (ground arith)
    | inr (o, e) ↦ elim (Result-cases (as_keys parse_key o.log_keys)) [
      | inr (x, e1) ↦ absurd (ground arith)
      | inl (logs, e1) ↦ elim (Result-cases (as_keys parse_key o.witness_keys)) [
        | inr (x, e2) ↦ absurd (ground arith)
        | inl (flat, e2) ↦
            elim (Result-cases (
              normalize_rule parse_key
                (or_rule o.quorum_rule (flat_quorum_rule flat (or_zero o.quorum))))) [
                  | inr (x, e3) ↦ absurd (ground arith)
                  | inl (rule, e3) ↦ elim (Result-cases (collect_keys rule)) [
                    | inr (x, e4) ↦ absurd (ground arith)
                    | inl (keys, e4) ↦ (
                      ground arith,
                      ground arith,
                      ground arith,
                      ground arith,
                      ground arith,
                      ground arith,
                      ground arith,
                    )
                  ]
                ]
      ]
    ]
  ]

  -- Of a policy that passes validation: the keys the quorum reads are exactly the witness keys;
  -- no two log keys and no two witness keys have the same kind and bytes, nor do a witness and a
  -- log key; every witness key is of the cosignature type; and every log key bears the origin and
  -- has no signature type or that of an Ed25519 log key.
  pub normalized_origin_policy-IsSeparated :
      (policy : TlogPolicy) (origin : String) (p : NormalizedPolicy)
      → normalized_origin_policy parse_key policy origin ≡ ok p
      → (collect_keys p.quorum_rule ≡ ok p.witness_keys)
        × IsDistinct p.log_keys
        × IsDistinct p.witness_keys
        × All (λ w. All (λ k. same_identity w k ≡ false) p.log_keys) p.witness_keys
        × All (λ w. w.signature_type ≡ some (4 ∷ [])) p.witness_keys
        × All (λ k. k.name ≡ origin) p.log_keys
        × All (λ k. IsLogType k.signature_type) p.log_keys
  normalized_origin_policy-IsSeparated policy origin p h =
      let (collected, names, types, log_types, logs, witnesses, apart) =
        normalized_lem policy origin p h in
      (
        collected,
        distinct p.log_keys logs,
        distinct p.witness_keys witnesses,
        unshared p.witness_keys p.log_keys apart,
        All-map (λ w. bad_witness_key_type w ≡ false) (λ w. w.signature_type ≡ some (4 ∷ []))
            p.witness_keys (λ w. of_type w.signature_type)
            (any_key-false bad_witness_key_type p.witness_keys types),
        All-map (λ k. not (str_eq k.name origin) ≡ false) (λ k. k.name ≡ origin) p.log_keys
            (λ k. named k origin)
            (any_key-false (λ k. not (str_eq k.name origin)) p.log_keys names),
        All-map (λ k. bad_log_key_type k ≡ false) (λ k. IsLogType k.signature_type) p.log_keys
            log_type_lem (any_key-false bad_log_key_type p.log_keys log_types),
      )

  module _ (sha256 : Bytes → Bytes) (ed25519 : Bytes → Bytes → Text → Bool) where
    -- A witness of the list has cosigned the checkpoint at the time, which is not after the limit.
    abbrev pub Attested : Checkpoint → List SignedNoteKey → ℕ → ℕ → Type 0
    Attested checkpoint keys limit t =
        (k : SignedNoteKey) × In k keys × CosignedAt ed25519 checkpoint k t × (t * 1000 ≤ limit)

    abbrev Enforced : Checkpoint → String → String → ℕ → NormalizedPolicy → PolicyResult → Type 0
    Enforced checkpoint origin scope limit p result =
        (checkpoint.origin ≡ origin)
        × (any_key (accepts parse_key sha256 ed25519 scope checkpoint) p.log_keys ≡ true)
        × ((str_eq scope "public" && is_none p.quorum_rule) ≡ false)
        × (evaluate_quorum (verified_cosignature_timestamp ed25519 checkpoint) limit p.quorum_rule
            ≡ ok (some result.accepted_witness_timestamps))

    enforced_lem :
        (checkpoint : Checkpoint) (origin : String) (policy : TlogPolicy) (scope : String)
        (now_ms skew : ℕ) (result : PolicyResult)
        → enforce_checkpoint_policy parse_key sha256 ed25519 checkpoint origin policy scope now_ms
            skew
          ≡ ok result
        → (p : NormalizedPolicy) × (normalized_origin_policy parse_key policy origin ≡ ok p)
          × Enforced checkpoint origin scope (now_ms + skew) p result
    unfolding enforce_checkpoint_policy
    enforced_lem checkpoint origin policy scope now_ms skew result h =
        elim (Result-cases (normalized_origin_policy parse_key policy origin)) [
          | inr (x, e) ↦ absurd (ground arith)
          | inl (p, e) ↦
              elim (Result-cases (
                evaluate_quorum (verified_cosignature_timestamp ed25519 checkpoint) (now_ms + skew)
                  p.quorum_rule)) [
                    | inr (x, e1) ↦ absurd (ground arith)
                    | inl (none, e1) ↦ absurd (ground arith)
                    | inl (some ts, e1) ↦ (
                      p,
                      e,
                      (
                        ground (arith, eq_iff checkpoint.origin origin),
                        ground arith,
                        ground arith,
                        ground arith,
                      ),
                    )
                  ]
        ]

    log_key_lem :
        (scope : String) (checkpoint : Checkpoint) (k : SignedNoteKey)
        → accepts parse_key sha256 ed25519 scope checkpoint k ≡ true
        → SignedBy ed25519 checkpoint k × ((scope ≢ "public") ⊎ (is_type 1 k.signature_type ≡ true))
    unfolding accepts
    log_key_lem scope checkpoint k h = (
      verify_checkpoint_signature-SignedBy ed25519 checkpoint k (ground arith),
      elim (Bool-cases (is_type 1 k.signature_type)) [
        | inl t ↦ inr t
        | inr t ↦ inl (λ e. ground (arith, eq_iff scope "public"))
      ],
    )

    -- An accepted checkpoint is of the origin, and its policy passes validation as some `p`. A log
    -- key of `p` has signed it, of type 1 if the scope is public, where the quorum rule is not
    -- the empty one. Every accepted timestamp is that of a cosignature by a witness key of `p`
    -- over this checkpoint, and in milliseconds not after the clock and the allowed skew.
    pub enforce_checkpoint_policy-Attested :
        (checkpoint : Checkpoint) (origin : String) (policy : TlogPolicy) (scope : String)
        (now_ms skew : ℕ) (result : PolicyResult)
        → enforce_checkpoint_policy parse_key sha256 ed25519 checkpoint origin policy scope now_ms
            skew
          ≡ ok result
        → (p : NormalizedPolicy) × (normalized_origin_policy parse_key policy origin ≡ ok p)
          × (checkpoint.origin ≡ origin)
          × ((k : SignedNoteKey) × In k p.log_keys
              × SignedBy ed25519 checkpoint k
              × ((scope ≢ "public") ⊎ (is_type 1 k.signature_type ≡ true)))
          × ((str_eq scope "public" && is_none p.quorum_rule) ≡ false)
          × All
              (Attested checkpoint p.witness_keys (now_ms + skew))
              result.accepted_witness_timestamps
    enforce_checkpoint_policy-Attested checkpoint origin policy scope now_ms skew result h =
        let (p, e, (same, signed, public, evaluated)) =
          enforced_lem checkpoint origin policy scope now_ms skew result h in
        let (k, m, good) =
          any_key-In (accepts parse_key sha256 ed25519 scope checkpoint) p.log_keys signed in
        let stamp = verified_cosignature_timestamp ed25519 checkpoint in
        (
          p,
          e,
          same,
          (k, m, (log_key_lem scope checkpoint k good).0, (log_key_lem scope checkpoint k good).1),
          public,
          All-map (Vouched stamp (now_ms + skew) p.witness_keys)
              (Attested checkpoint p.witness_keys (now_ms + skew))
              result.accepted_witness_timestamps
              (λ t (w, mw, at_t, early). (
                w,
                mw,
                verified_cosignature_timestamp-CosignedAt ed25519 checkpoint w t at_t,
                early,
              ))
              (evaluate_quorum-Vouched stamp (now_ms + skew) p.quorum_rule
                result.accepted_witness_timestamps p.witness_keys evaluated
                (normalized_lem policy origin p e).0),
        )
