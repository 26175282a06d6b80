-- ===== src/SignedNote.antt =====
-- dnsid/c2sp_tlog/signed_note.py, and the records of dnsid/c2sp_tlog/checkpoint.py: which
-- signature lines of a checkpoint count under a key. `ed25519` is the library's verification of a
-- signature over a text under a public key, with its exceptions read as false.
pub mod Sound
mod Runs
use dnsid_py.Base.{
  ℕ, ◌+◌, ◌*◌, ◌-◌, ◌^◌, String, Bool, true, false, not, ◌&&◌, ◌||◌, Option, none, some, List, [],
  ◌∷◌, ◌++◌, Bytes, bytes_eq, length, take, drop, ltb, leb, ◌==◌, str_eq, if◌then◌else◌,
}
use dnsid_py.Base.Decimal.{Text, codes, decimal}

pub record NoteSignature : Type 0 where
  pub name : String
  pub signature : Bytes
  pub key_hash : Option Bytes

pub record Checkpoint : Type 0 where
  pub origin : String
  pub tree_size : ℕ
  pub root_hash : Bytes
  pub signatures : List NoteSignature
  pub signed_text : Text

pub record SignedNoteKey : Type 0 where
  pub name : String
  pub key_bytes : Bytes
  pub kind : String
  pub key_id : Option Bytes
  pub signature_type : Option Bytes

abbrev pub max_cosig_timestamp : ℕ
max_cosig_timestamp = 2 ^ 63 - 1

-- `int.from_bytes(b, "big")`
unfoldable pub big_endian : ℕ → Bytes → ℕ
big_endian acc [] = acc
big_endian acc (b ∷ bs) = big_endian (acc * 256 + b) bs

abbrev pub timestamp_of : NoteSignature → ℕ
timestamp_of sig = big_endian 0 (take 8 sig.signature)

-- The text under a cosignature/v1.
unfoldable pub cosigned_text : ℕ → Text → Text
cosigned_text timestamp message =
    codes "cosignature/v1\ntime " ++ (decimal timestamp ++ (codes "\n" ++ message))

unfoldable pub key_id_matches : NoteSignature → SignedNoteKey → Bool
key_id_matches sig key = elim key.key_id [
  | none ↦ true
  | some id ↦ elim sig.key_hash [ none ↦ false | some hash ↦ bytes_eq hash id ]
]

-- `key.signature_type[0] if key.signature_type else 0x01`, for a type of at most one byte.
abbrev type_byte : Option Bytes → ℕ
type_byte none = 1
type_byte (some []) = 1
type_byte (some (b ∷ bs)) = b

-- `key.signature_type is not None and len(key.signature_type) != 1`
abbrev long_type : Option Bytes → Bool
long_type none = false
long_type (some b) = not (length b == 1)

abbrev pub is_type : ℕ → Option Bytes → Bool
is_type t none = false
is_type t (some b) = bytes_eq b (t ∷ [])

module _ (ed25519 : Bytes → Bytes → Text → Bool) where
  unfoldable pub verify_note_signature : Text → NoteSignature → SignedNoteKey → Bool
  verify_note_signature message sig key =
      if not (str_eq key.kind "ed25519") || not (length key.key_bytes == 32)
      then false
      else if long_type key.signature_type
      then false
      else if type_byte key.signature_type == 1
      then (if not (length sig.signature == 64)
          then false
          else ed25519 key.key_bytes sig.signature message)
      else if type_byte key.signature_type == 4
      then (if not (length sig.signature == 72)
          then false
          else if ltb max_cosig_timestamp (timestamp_of sig)
          then false
          else ed25519 key.key_bytes (drop 8 sig.signature)
              (cosigned_text (timestamp_of sig) message))
      else false

  unfoldable pub any_signature : Text → SignedNoteKey → List NoteSignature → Bool
  any_signature text key [] = false
  any_signature text key (sig ∷ sigs) =
      (str_eq sig.name key.name && (key_id_matches sig key && verify_note_signature text sig key))
      || any_signature text key sigs

  unfoldable pub verify_checkpoint_signature : Checkpoint → SignedNoteKey → Bool
  verify_checkpoint_signature checkpoint key =
      any_signature checkpoint.signed_text key checkpoint.signatures

  -- The loop of `verified_cosignature_timestamp`; `continue` makes the recursive call.
  unfoldable pub first_timestamp : Text → SignedNoteKey → List NoteSignature → Option ℕ
  first_timestamp text key [] = none
  first_timestamp text key (sig ∷ sigs) =
      let rest = first_timestamp text key sigs in
      if not (str_eq sig.name key.name)
        || (not (key_id_matches sig key)
            || (not (verify_note_signature text sig key) || not (length sig.signature == 72)))
      then rest
      else if leb (timestamp_of sig) max_cosig_timestamp
      then some (timestamp_of sig)
      else rest

  unfoldable pub verified_cosignature_timestamp : Checkpoint → SignedNoteKey → Option ℕ
  verified_cosignature_timestamp checkpoint key =
      if not (is_type 4 key.signature_type)
      then none
      else first_timestamp checkpoint.signed_text key checkpoint.signatures
