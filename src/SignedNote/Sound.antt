-- ===== src/SignedNote/Sound.antt =====
-- What an accepted signature line is (dnsid/c2sp_tlog/signed_note.py).
use dnsid_py.Base.{
  ℕ, ◌≤◌, ◌≡◌, refl, Bool, true, false, not, ◌&&◌, ◌||◌, Option, none, some, List, [], ◌∷◌, Bytes,
  bytes_eq_iff, length, drop, leb, ◌==◌, str_eq, eq_iff, In, leb→le, Bool-cases, inl, inr, arith,
}
use dnsid_py.Base.Decimal.{Text}
use dnsid_py.SignedNote.{
  NoteSignature, Checkpoint, SignedNoteKey, max_cosig_timestamp, timestamp_of, cosigned_text,
  key_id_matches, verify_note_signature, any_signature, verify_checkpoint_signature,
  first_timestamp, verified_cosignature_timestamp, is_type,
}

module _ (ed25519 : Bytes → Bytes → Text → Bool) where
  -- A signature line of the checkpoint that names the key and verifies under it.
  abbrev pub SignedBy : Checkpoint → SignedNoteKey → Type 0
  SignedBy checkpoint key =
      (sig : NoteSignature) × In sig checkpoint.signatures
      × (sig.name ≡ key.name)
      × (key_id_matches sig key ≡ true)
      × (verify_note_signature ed25519 checkpoint.signed_text sig key ≡ true)

  -- A cosignature line: 72 bytes, of which the first eight are the time, and the others sign that
  -- time and the text of the checkpoint.
  abbrev pub CosignedAt : Checkpoint → SignedNoteKey → ℕ → Type 0
  CosignedAt checkpoint key t =
      (sig : NoteSignature) × In sig checkpoint.signatures
      × (sig.name ≡ key.name)
      × (key_id_matches sig key ≡ true)
      × (length sig.signature ≡ 72)
      × (timestamp_of sig ≡ t)
      × (t ≤ max_cosig_timestamp)
      × (ed25519 key.key_bytes (drop 8 sig.signature) (cosigned_text t checkpoint.signed_text)
          ≡ true)

  any_signature-In :
      (text : Text) (key : SignedNoteKey) (sigs : List NoteSignature)
      → any_signature ed25519 text key sigs ≡ true
      → (sig : NoteSignature) × In sig sigs
        × (sig.name ≡ key.name)
        × (key_id_matches sig key ≡ true)
        × (verify_note_signature ed25519 text sig key ≡ true)
  unfolding any_signature
  any_signature-In text key [] h = cc
  any_signature-In text key (sig ∷ sigs) h =
      elim (Bool-cases (
        str_eq sig.name key.name
        && (key_id_matches sig key && verify_note_signature ed25519 text sig key))) [
          | inl here ↦
              (sig, inl refl, ground (arith, eq_iff sig.name key.name), ground arith, ground arith)
          | inr there ↦
              let (found, m, p, q, r) = any_signature-In text key sigs (ground arith) in
              (found, inr m, p, q, r)
        ]

  pub verify_checkpoint_signature-SignedBy :
      (checkpoint : Checkpoint) (key : SignedNoteKey)
      → verify_checkpoint_signature ed25519 checkpoint key ≡ true
      → SignedBy checkpoint key
  unfolding verify_checkpoint_signature
  verify_checkpoint_signature-SignedBy checkpoint key h =
      any_signature-In checkpoint.signed_text key checkpoint.signatures h

  type_four : (t : Option Bytes) → is_type 4 t ≡ true → t ≡ some (4 ∷ [])
  type_four none h = cc
  type_four (some b) h = ground (arith, bytes_eq_iff b (4 ∷ []))

  abbrev TimedLine : Text → SignedNoteKey → ℕ → NoteSignature → Type 0
  TimedLine text key t sig =
      (sig.name ≡ key.name)
      × (key_id_matches sig key ≡ true)
      × (length sig.signature ≡ 72)
      × (timestamp_of sig ≡ t)
      × (t ≤ max_cosig_timestamp)
      × (verify_note_signature ed25519 text sig key ≡ true)

  abbrev skips : Text → SignedNoteKey → NoteSignature → Bool
  skips text key sig =
      not (str_eq sig.name key.name)
      || (not (key_id_matches sig key)
          || (not (verify_note_signature ed25519 text sig key) || not (length sig.signature == 72)))

  timed_line :
      (text : Text) (key : SignedNoteKey) (sig : NoteSignature) (t : ℕ)
      → skips text key sig ≡ false
      → leb (timestamp_of sig) max_cosig_timestamp ≡ true
      → timestamp_of sig ≡ t
      → TimedLine text key t sig
  timed_line text key sig t kept small e = (
    ground (arith, eq_iff sig.name key.name),
    ground arith,
    ground arith,
    e,
    rw (← e) (leb→le _ _ small),
    ground arith,
  )

  first_timestamp-In :
      (text : Text) (key : SignedNoteKey) (sigs : List NoteSignature) (t : ℕ)
      → first_timestamp ed25519 text key sigs ≡ some t
      → (sig : NoteSignature) × In sig sigs × TimedLine text key t sig
  unfolding first_timestamp
  first_timestamp-In text key [] t h = cc
  first_timestamp-In text key (sig ∷ sigs) t h = elim (Bool-cases (skips text key sig)) [
    | inl skipped ↦
        let (found, m, line) = first_timestamp-In text key sigs t (rw skipped at h) in
        (found, inr m, line)
    | inr kept ↦ elim (Bool-cases (leb (timestamp_of sig) max_cosig_timestamp)) [
      | inl small ↦ (sig, inl refl, timed_line text key sig t kept small (ground arith))
      | inr large ↦
          let (found, m, line) = first_timestamp-In text key sigs t (rw (kept, large) at h) in
          (found, inr m, line)
    ]
  ]

  cosigned :
      (text : Text) (key : SignedNoteKey) (sig : NoteSignature) (t : ℕ)
      → key.signature_type ≡ some (4 ∷ [])
      → timestamp_of sig ≡ t
      → verify_note_signature ed25519 text sig key ≡ true
      → ed25519 key.key_bytes (drop 8 sig.signature) (cosigned_text t text) ≡ true
  unfolding verify_note_signature
  cosigned text key sig t four e h = rw (← e) (ground arith)

  -- The timestamp of a witness is that of a cosignature line of the checkpoint: 72 bytes, signed
  -- by the key over exactly that time and the text of the checkpoint.
  pub verified_cosignature_timestamp-CosignedAt :
      (checkpoint : Checkpoint) (key : SignedNoteKey) (t : ℕ)
      → verified_cosignature_timestamp ed25519 checkpoint key ≡ some t
      → CosignedAt checkpoint key t
  unfolding verified_cosignature_timestamp
  verified_cosignature_timestamp-CosignedAt checkpoint key t h =
      elim (Bool-cases (is_type 4 key.signature_type)) [
        | inr other ↦ absurd (ground arith)
        | inl four ↦
            let (sig, m, (p, q, size, time, small, valid)) =
              first_timestamp-In checkpoint.signed_text key checkpoint.signatures t
                (rw four at h) in
            (
              sig,
              m,
              p,
              q,
              size,
              time,
              small,
              cosigned checkpoint.signed_text key sig t (type_four key.signature_type four) time
                  valid,
            )
      ]
