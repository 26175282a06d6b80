-- ===== src/SignedNote/Runs.antt =====
-- Runs of dnsid/c2sp_tlog/signed_note.py, on a stand-in for the signature scheme that accepts every
-- signature of a key of sevens.
use dnsid_py.Base.{◌≡◌, refl, Bool, true, none, some, [], ◌∷◌, ◌++◌, Bytes, bytes_eq, replicate}
use dnsid_py.Base.Decimal.{Text, codes}
use dnsid_py.SignedNote.{
  Checkpoint, SignedNoteKey, big_endian, cosigned_text, key_id_matches, verify_note_signature,
  any_signature, verify_checkpoint_signature, first_timestamp, verified_cosignature_timestamp,
}
use dnsid_py.SignedNote.Sound.{
  SignedBy, CosignedAt, verify_checkpoint_signature-SignedBy,
  verified_cosignature_timestamp-CosignedAt,
}

abbrev pub sevens : Bytes → Bytes → Text → Bool
sevens key sig message = bytes_eq key (replicate 32 7)

abbrev pub log_key : SignedNoteKey
log_key = record {
  name = "log";
  key_bytes = replicate 32 7;
  kind = "ed25519";
  key_id = none;
  signature_type = some (1 ∷ []);
}

abbrev pub witness_7 : SignedNoteKey
witness_7 = record {
  name = "w";
  key_bytes = replicate 32 7;
  kind = "ed25519";
  key_id = some (9 ∷ []);
  signature_type = some (4 ∷ []);
}

-- A log signature, then a cosignature at time 5.
abbrev pub signed : Checkpoint
signed = record {
  origin = "log";
  tree_size = 3;
  root_hash = replicate 32 1;
  signatures =
      record { name = "log"; signature = replicate 64 2; key_hash = none }
      ∷ record {
        name = "w";
        signature = replicate 7 0 ++ (5 ∷ replicate 64 2);
        key_hash = some (9 ∷ []);
      }
      ∷ [];
  signed_text = codes "log";
}

log_signed : verify_checkpoint_signature sevens signed log_key ≡ true
unfolding verify_checkpoint_signature any_signature key_id_matches verify_note_signature bytes_eq
log_signed = refl

cosigned_at : verified_cosignature_timestamp sevens signed witness_7 ≡ some 5
unfolding verified_cosignature_timestamp first_timestamp key_id_matches verify_note_signature
    bytes_eq big_endian cosigned_text
cosigned_at = refl

verify_checkpoint_signature-SignedBy_example : SignedBy sevens signed log_key
verify_checkpoint_signature-SignedBy_example =
    verify_checkpoint_signature-SignedBy sevens signed log_key log_signed

verified_cosignature_timestamp-CosignedAt_example : CosignedAt sevens signed witness_7 5
verified_cosignature_timestamp-CosignedAt_example =
    verified_cosignature_timestamp-CosignedAt sevens signed witness_7 5 cosigned_at
