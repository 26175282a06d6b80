-- ===== src/CheckpointStore.antt =====
-- dnsid/c2sp_tlog/checkpoint_store.py: the highest trusted checkpoint of each log origin.
-- The hash, `str.strip` and the two operations of `datetime` are parameters. The dictionary
-- `_by_origin` is a function. A budget that is spent while a lock is awaited, or between the
-- caller's check and the write, comes as a Boolean argument.
pub mod Validity
pub mod Advance
pub mod Interleaving
pub mod Runs
use dnsid_py.Base.{
  ℕ, String, Bool, true, false, not, ◌&&◌, ◌||◌, Option, none, some, Bytes, [], bytes_eq, length,
  leb, ◌==◌, str_eq, if◌then◌else◌,
}
use dnsid_py.Base.Result.{Result, ok, err, ◌>>=◌, ◌>>◌, raise_if, some_or}

pub record TrustedCheckpoint (Datetime : Type 0) : Type 0 where
  pub origin : String
  pub tree_size : ℕ
  pub root_hash : Bytes
  pub witness_time : Datetime

-- ValueError, C2spCheckpointStoreError, the LOG_FORK consistency error, a spent budget, and what
-- the caller's check raised.
pub data StoreError : Type 0 where
  value_error malformed_stored log_fork out_of_budget : StoreError
  rejected : String → StoreError

abbrev pub Table : Type 0 → Type 0
Table D = String → Option (TrustedCheckpoint D)

abbrev pub put_origin : {D : Type 0} → String → TrustedCheckpoint D → Table D → Table D
put_origin k c table j = if str_eq k j then some c else table j

-- What the library code outside this repository answers.
pub record Platform : Type 1 where
  pub Datetime : Type 0
  pub sha256 : Bytes → Bytes
  pub strip : String → String
  pub is_aware : Datetime → Bool
  pub as_utc : Datetime → Option Datetime

module _ (p : Platform) where
  open p use {Datetime, sha256, strip, is_aware, as_utc}

  -- `_validate_origin`
  unfoldable pub blank_origin : String → Bool
  blank_origin origin = str_eq (strip origin) ""

  -- `_checkpoint_snapshot`
  unfoldable pub checkpoint_snapshot :
      TrustedCheckpoint Datetime → Result StoreError (TrustedCheckpoint Datetime)
  checkpoint_snapshot c = do
    raise_if (blank_origin c.origin) value_error
    raise_if (not (length c.root_hash == 32)) value_error
    raise_if ((c.tree_size == 0) && not (bytes_eq c.root_hash (sha256 []))) value_error
    raise_if (not (is_aware c.witness_time)) value_error
    instant ← some_or (as_utc c.witness_time) value_error
    ok (record {
      origin = c.origin;
      tree_size = c.tree_size;
      root_hash = c.root_hash;
      witness_time = instant;
    })

  -- `_stored_checkpoint`: any failure means that the stored record is malformed.
  unfoldable pub stored_checkpoint :
      Option (TrustedCheckpoint Datetime)
      → String
      → Result StoreError (Option (TrustedCheckpoint Datetime))
  stored_checkpoint none origin = ok none
  stored_checkpoint (some c) origin = elim (checkpoint_snapshot c) [
    | ok snapshot ↦
        if str_eq snapshot.origin origin then ok (some snapshot) else err malformed_stored
    | err e ↦ err malformed_stored
  ]

  -- `_advance_locked`: the new table, or the fork.
  unfoldable pub advance_locked :
      Table Datetime → TrustedCheckpoint Datetime → Result StoreError (Table Datetime)
  advance_locked table c = elim (table c.origin) [
    | none ↦ ok (put_origin c.origin c table)
    | some current ↦
        if (c.tree_size == current.tree_size) && not (bytes_eq c.root_hash current.root_hash)
        then err log_fork
        else if leb current.tree_size c.tree_size
        then ok (put_origin c.origin c table)
        else ok table
  ]

  -- `get`; `entered` says that the lock was had within the budget.
  pub get : Table Datetime → Bool → String → Result StoreError (Option (TrustedCheckpoint Datetime))
  get table entered origin = do
    raise_if (blank_origin origin) value_error
    raise_if (not entered) out_of_budget
    stored_checkpoint (table origin) origin

  -- `verify_and_advance`: the table after the call. The caller's check returns or raises a text.
  unfoldable pub verify_and_advance :
      Table Datetime
      → Bool
      → Bool
      → TrustedCheckpoint Datetime
      → (Option (TrustedCheckpoint Datetime) → Option String)
      → Result StoreError (Table Datetime)
  verify_and_advance table entered in_time candidate verify = do
    c ← checkpoint_snapshot candidate
    raise_if (blank_origin c.origin) value_error
    raise_if (not entered) out_of_budget
    stored ← stored_checkpoint (table c.origin) c.origin
    elim (verify stored) [
      | some message ↦ err (rejected message)
      | none ↦ if in_time then advance_locked table c else err out_of_budget
    ]

  -- `put`: the check accepts anything.
  pub put :
      Table Datetime → Bool → Bool → TrustedCheckpoint Datetime → Result StoreError (Table Datetime)
  put table entered in_time checkpoint =
      verify_and_advance table entered in_time checkpoint (λ stored. none)

-- The table after a call: an exception leaves it as it was.
abbrev pub table_after : {D : Type 0} → Table D → Result StoreError (Table D) → Table D
table_after table (ok next) = next
table_after table (err e) = table
