-- ===== src/Lifecycle/Select/Unsigned.antt =====
-- What the identity has not signed is not authenticated (dnsid/c2sp_tlog/stream_verifier.py).
use dnsid_py.Keys.{thumbprint}
use dnsid_py.Lifecycle.Select.{is_limited}
use dnsid_py.Lifecycle.Select.{same_thumb}
use dnsid_py.Lifecycle.Candidate.{last_keys}
use dnsid_py.Base.Result.{err}
use dnsid_py.Lifecycle.Select.{up_to}
use dnsid_py.Lifecycle.Candidate.{check_signers}
use dnsid_py.Lifecycle.Candidate.{applied_keys}
use dnsid_py.Lifecycle.{signed_of}
use dnsid_py.Events.{Signed}
use dnsid_py.Base.{All}
use dnsid_py.Base.{
  ◌≡◌, refl, ap, ◌∙◌, sym, String, true, false, some, List, [], ◌∷◌, Bytes, Bool-cases,
  Option-cases, inl, inr, arith,
}
use mathlib.Core.Path.{subst}
use dnsid_py.Base.Result.{Result, ok, Result-cases}
use dnsid_py.Keys.{Jwk}
use dnsid_py.Events.{
  MigrationEvent, LogEvent, issuance, key_rotation, revocation, retirement, migration, delegation,
  foreign,
}
use dnsid_py.StreamBundle.{IndexedEntry}
use dnsid_py.Lifecycle.{VerifiedLifecycleEvent, LifecycleError, Options, Decoders, signature_ok}
use dnsid_py.Lifecycle.Spec.{Signs, signs_lem}
use dnsid_py.Lifecycle.Candidate.{candidate_is_authenticated}
use dnsid_py.Lifecycle.Candidate.Authentic.{SignedByAll, signers_lem}
use dnsid_py.Lifecycle.Candidate.Charge.{last_keys-IsLast}
use dnsid_py.Lifecycle.Select.Trusted.{
  All-at, IsPinned, IsCarried, IsRecorded, IsTrusted, thumb_lem,
}
use dnsid_py.Lifecycle.Select.{
  Codec, has_id, authority_of, migration_signed_by, issuance_is_authenticated,
  migration_is_authenticated, first_is_authenticated, later_is_authenticated, authenticated,
}

module _ (d : Decoders) (opts : Options) (leaf : Bytes → Bytes) (c : Codec) (domain : String)
    (entries : List IndexedEntry) (pin : Jwk) where
  -- The keys of the identity that may sign an event, as far as a scan and the pinned entity key
  -- show: a rotation, an operational key that some entry brings in or a previous log hands over;
  -- any other event, a key with the thumbprint of the pinned one.
  abbrev pub MaySign : LogEvent → Jwk → Type 0
  MaySign (key_rotation e) key = IsCarried d opts leaf c domain entries pin key
  MaySign _ key = IsPinned d opts leaf c domain entries pin key

  -- The signature of the event is not one of the identity: it does not verify under a key that may
  -- sign it. It may well verify under others.
  abbrev pub IsUnsigned : Bytes → LogEvent → Type 0
  IsUnsigned data_bytes event =
      (payload : Bytes) × (d.signed_bytes data_bytes ≡ some payload)
      × ((s : Signed) (sig : Bytes) (key : Jwk)
          → signed_of event ≡ some s
          → d.decode s.sig ≡ some sig
          → MaySign event key
          → d.verify key payload sig ≡ false)

  check_signers-unlimited :
      (item : VerifiedLifecycleEvent) (event : LogEvent) (keys : Jwk × Jwk) (e : LifecycleError)
      → check_signers d opts item event keys ≡ err e
      → is_limited e ≡ false
  unfolding check_signers signed_of
  check_signers-unlimited item (issuance x) keys e h = elim (Option-cases x.entity_key) [
    | inl q ↦ ground arith
    | inr (entity, q) ↦ elim (Option-cases x.operational_key) [
      | inl r ↦ ground arith
      | inr (operational, r) ↦ elim (Option-cases (thumbprint d.digest entity)) [
        | inl u ↦ ground arith
        | inr (a, u) ↦ elim (Option-cases (thumbprint d.digest keys.0)) [
          | inl v ↦ ground arith
          | inr (b, v) ↦ ground arith
        ]
      ]
    ]
  ]
  check_signers-unlimited item (key_rotation x) keys e h = elim (Option-cases x.new_public_key) [
    | inl q ↦ ground arith
    | inr (new, q) ↦ ground arith
  ]
  check_signers-unlimited item (revocation x) keys e h = ground arith
  check_signers-unlimited item (retirement x) keys e h = ground arith
  check_signers-unlimited item (migration x) keys e h = ground arith
  check_signers-unlimited item (delegation x) keys e h = ground arith
  check_signers-unlimited item (foreign f t) keys e h = ground arith

  unsigned-Signs :
      (item : VerifiedLifecycleEvent) (event : LogEvent) (s : Signed) (key : Jwk)
      → IsUnsigned item.data_bytes event
      → signed_of event ≡ some s
      → MaySign event key
      → Signs d opts item s.sig key
      → ⊥
  unsigned-Signs item event s key (payload, signs, bad) of may (other, sig, same, decoded, good) =
      let is : other ≡ payload = ground (arith, signs, same) in
      clash (sym good ∙ (ap (λ p. d.verify key p sig) is ∙ bad s sig key of decoded may))
    where
      clash : true ≡ false → ⊥
      clash h = cc

  unsigned-signature_ok :
      (item : VerifiedLifecycleEvent) (event : LogEvent) (s : Signed) (key : Jwk)
      → IsUnsigned item.data_bytes event
      → signed_of event ≡ some s
      → MaySign event key
      → signature_ok d item s.sig key ≡ false
  unsigned-signature_ok item event s key bad of may =
      elim (Bool-cases (signature_ok d item s.sig key)) [
        | inr q ↦ q
        | inl q ↦
            absurd (unsigned-Signs item event s key bad of may (signs_lem d opts item s.sig key q))
      ]

  unsigned-SignedByAll :
      (item : VerifiedLifecycleEvent) (event : LogEvent) (keys : Jwk × Jwk)
      → IsUnsigned item.data_bytes event
      → IsPinned d opts leaf c domain entries pin keys.0
      → IsCarried d opts leaf c domain entries pin keys.1
      → SignedByAll d opts item event keys
      → ⊥
  unfolding signed_of
  unsigned-SignedByAll item (key_rotation e) keys bad pinned carried (new, given, kid, old, proof) =
      unsigned-Signs item (key_rotation e) e.signed keys.1 bad refl carried old
  unsigned-SignedByAll item (issuance e) keys bad pinned carried
        (operational, given, counter, (s, is, kid, signs)) =
      unsigned-Signs item (issuance e) s keys.0 bad is pinned signs
  unsigned-SignedByAll item (revocation e) keys bad pinned carried (s, is, kid, signs) =
      unsigned-Signs item (revocation e) s keys.0 bad is pinned signs
  unsigned-SignedByAll item (retirement e) keys bad pinned carried (s, is, kid, signs) =
      unsigned-Signs item (retirement e) s keys.0 bad is pinned signs
  unsigned-SignedByAll item (migration e) keys bad pinned carried (s, is, kid, signs) =
      unsigned-Signs item (migration e) s keys.0 bad is pinned signs
  unsigned-SignedByAll item (delegation e) keys bad pinned carried (s, is, kid, signs) =
      unsigned-Signs item (delegation e) s keys.0 bad is pinned signs
  unsigned-SignedByAll item (foreign f t) keys bad pinned carried (s, is, kid, signs) =
      unsigned-Signs item (foreign f t) s keys.0 bad is pinned signs

  first_lem :
      (item : VerifiedLifecycleEvent) (event : LogEvent)
      (verify_migration : MigrationEvent → Result LifecycleError (Jwk × Jwk))
      → opts.signer_key ≡ some pin
      → opts.verify_migration ≡ some verify_migration
      → IsUnsigned item.data_bytes event
      → first_is_authenticated d opts item event ≡ ok false
  unfolding issuance_is_authenticated migration_is_authenticated migration_signed_by signed_of
  first_lem item (issuance e) vm pins verifies bad = elim (Option-cases e.entity_key) [
    | inl q ↦ ground arith
    | inr (entity, q) ↦ elim (Option-cases e.operational_key) [
      | inl r ↦ ground arith
      | inr (operational, r) ↦ elim (Bool-cases (same_thumb d opts entity pin)) [
        | inr u ↦ ground (arith, pins)
        | inl u ↦ ground (
          arith,
          pins,
          unsigned-signature_ok item (issuance e) e.signed entity bad refl
              (thumb_lem d opts leaf c domain entries pin entity pin u),
        )
      ]
    ]
  ]
  first_lem item (migration e) vm pins verifies bad =
      ground
        (arith, pins, verifies, unsigned-signature_ok item (migration e) e.signed pin bad refl refl)
  first_lem item (key_rotation e) vm pins verifies bad = refl
  first_lem item (revocation e) vm pins verifies bad = refl
  first_lem item (retirement e) vm pins verifies bad = refl
  first_lem item (delegation e) vm pins verifies bad = refl
  first_lem item (foreign f t) vm pins verifies bad = refl

  -- What follows trusted events and is unsigned is not authenticated.
  later_lem :
      (item : VerifiedLifecycleEvent) (authority : List VerifiedLifecycleEvent)
      → All (IsRecorded d opts leaf c domain entries pin) authority
      → IsUnsigned item.data_bytes item.event
      → later_is_authenticated d opts item authority ≡ ok false
  unfolding candidate_is_authenticated applied_keys
  later_lem item [] recorded bad = refl
  later_lem item (first ∷ rest) recorded bad =
      let (v, (front, last), same) = last_keys-IsLast first rest in
      let (read, (keys, has, pinned, carried)) =
        All-at (IsRecorded d opts leaf c domain entries pin) (first ∷ rest) front [] v recorded
          last in
      let charge : last_keys first rest ≡ some keys = same ∙ has in
      elim (Result-cases (check_signers d opts item item.event keys)) [
        | inl (u, q) ↦ absurd (
            unsigned-SignedByAll item item.event keys bad pinned carried
              (signers_lem d opts item item.event keys q))
        | inr (e, q) ↦ let fine = check_signers-unlimited item item.event keys e q in ground arith
      ]

  up_to-All :
      (P : VerifiedLifecycleEvent → Type 0) (id : String) (vs us : List VerifiedLifecycleEvent)
      → All P vs
      → up_to d opts id vs ≡ some us
      → All P us
  unfolding up_to
  up_to-All P id [] us h found = cc
  up_to-All P id (v ∷ vs) us (h, hs) found = elim (Bool-cases (has_id d opts id v)) [
    | inl q ↦ let same : us ≡ v ∷ [] = ground arith in subst (All P) (sym same) (h, tt)
    | inr q ↦ elim (Option-cases (up_to d opts id vs)) [
      | inl r ↦ absurd (ground arith)
      | inr (found_us, r) ↦
          let same : us ≡ v ∷ found_us = ground arith in
          subst (All P) (sym same) (h, up_to-All P id vs found_us hs r)
    ]
  ]

  authority-All :
      (P : VerifiedLifecycleEvent → Type 0) (id : String) (vs : List VerifiedLifecycleEvent)
      → All P vs
      → All P (authority_of d opts id vs)
  authority-All P id vs h = elim (Option-cases (up_to d opts id vs)) [
    | inl q ↦ let same : authority_of d opts id vs ≡ vs = ground arith in subst (All P) (sym same) h
    | inr (us, q) ↦
        let same : authority_of d opts id vs ≡ us = ground arith in
        subst (All P) (sym same) (up_to-All P id vs us h q)
  ]

  -- Nothing unsigned is authenticated, in a reader that pins the entity key and verifies previous
  -- logs.
  pub authenticated-unsigned :
      (item : VerifiedLifecycleEvent) (selected : List VerifiedLifecycleEvent)
      (verify_migration : MigrationEvent → Result LifecycleError (Jwk × Jwk))
      → opts.signer_key ≡ some pin
      → opts.verify_migration ≡ some verify_migration
      → IsTrusted d opts leaf c domain entries pin selected
      → IsUnsigned item.data_bytes item.event
      → authenticated d opts c item selected ≡ ok false
  unfolding authenticated
  authenticated-unsigned item [] vm pins verifies trusted bad =
      first_lem item item.event vm pins verifies bad
  authenticated-unsigned item (v ∷ vs) vm pins verifies (recorded, start) bad =
      later_lem item (authority_of d opts (c.predecessor_id item.data_bytes) (v ∷ vs))
        (authority-All (IsRecorded d opts leaf c domain entries pin)
          (c.predecessor_id item.data_bytes) (v ∷ vs) recorded)
        bad
