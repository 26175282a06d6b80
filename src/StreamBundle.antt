-- ===== src/StreamBundle.antt =====
-- How a verified checkpoint meets the trusted one: `_verify_and_advance_checkpoint`,
-- `_verify_checkpoint_prefix` and `_verified_complete_scan_entries` of
-- dnsid/c2sp_tlog/stream_bundle.py, which call the checkpoint store and the Merkle tree. The errors
-- of the check are texts: the category, or a phrase where there is none. The fetch of a proof and
-- the reading of hash tiles are options.
pub mod Sorting
pub mod Growth
mod Runs
use dnsid_py.Base.{
  ℕ, ◌+◌, String, Bool, true, false, not, ◌&&◌, ◌||◌, Option, none, some, List, [], ◌∷◌, map, Bytes,
  bytes_eq, length, take, ltb, leb, ◌==◌, if◌then◌else◌,
}
use dnsid_py.Base.Result.{Result, ok, err, ◌>>=◌, ◌>>◌, raise_if}
use dnsid_py.Merkle.{merkle_root_from_entries}
use dnsid_py.Merkle.Consistency.{verify_consistency}
use dnsid_py.CheckpointStore.{
  TrustedCheckpoint, StoreError, rejected, Table, Platform, stored_checkpoint, verify_and_advance,
}

pub record IndexedEntry : Type 0 where
  pub index : ℕ
  pub data_bytes : Bytes

abbrev pub entry_data : IndexedEntry → Bytes
entry_data e = e.data_bytes

-- `sorted(entries, key=lambda entry: entry.index)`, which is stable
unfoldable pub insert_entry : IndexedEntry → List IndexedEntry → List IndexedEntry
insert_entry e [] = e ∷ []
insert_entry e (x ∷ xs) =
    let deeper = x ∷ insert_entry e xs in if leb e.index x.index then e ∷ x ∷ xs else deeper

unfoldable pub sort_entries : List IndexedEntry → List IndexedEntry
unfolding insert_entry
sort_entries [] = []
sort_entries (e ∷ es) = insert_entry e (sort_entries es)

-- `any(entry.index != index for index, entry in enumerate(prefix))`
unfoldable pub misplaced : ℕ → List IndexedEntry → Bool
misplaced i [] = false
misplaced i (e ∷ es) = not (e.index == i) || misplaced (i + 1) es

abbrev pub has_root : Option Bytes → Bytes → Bool
has_root none root = false
has_root (some r) root = bytes_eq r root

-- StreamBundleVerifierOptions.consistency_source, and the argument `tile_consistency`
pub record Evidence (D : Type 0) : Type 0 where
  pub fetch_consistency_proof : Option (ℕ → ℕ → Result String (List Bytes))
  pub tile_consistency : Option (TrustedCheckpoint D → TrustedCheckpoint D → Option String)

module _ (p : Platform) where
  open p use {Datetime, sha256}

  -- `_verify_checkpoint_prefix`; `none` is a return.
  unfoldable pub verify_checkpoint_prefix : List IndexedEntry → ℕ → Bytes → Option String
  unfolding misplaced
  verify_checkpoint_prefix entries tree_size root_hash =
      if not (length (take tree_size entries) == tree_size) || misplaced 0 (take tree_size entries)
      then some "INVALID_EVIDENCE"
      else if not (
          has_root (merkle_root_from_entries sha256 (map entry_data (take tree_size entries)))
            root_hash)
      then some "INVALID_EVIDENCE"
      else none

  -- `_verified_complete_scan_entries`
  unfoldable pub verified_complete_scan_entries :
      Bool → List IndexedEntry → ℕ → Bytes → Result String (List IndexedEntry)
  verified_complete_scan_entries complete entries tree_size root_hash = do
    raise_if (not complete) "INVALID_EVIDENCE"
    raise_if (not (length (sort_entries entries) == tree_size)) "INVALID_EVIDENCE"
    elim (verify_checkpoint_prefix (sort_entries entries) tree_size root_hash) [
      | some e ↦ err e
      | none ↦ ok (sort_entries entries)
    ]

  -- Growth shown by the entries of a complete scan.
  abbrev by_scan : List IndexedEntry → TrustedCheckpoint Datetime → Option String
  by_scan entries stored =
      elim (verify_checkpoint_prefix entries stored.tree_size stored.root_hash) [
        | none ↦ none
        | some e ↦ some "LOG_INCONSISTENT"
      ]

  -- Growth shown by a consistency proof.
  abbrev by_proof :
      (ℕ → ℕ → Result String (List Bytes))
      → TrustedCheckpoint Datetime
      → TrustedCheckpoint Datetime
      → Option String
  by_proof fetch stored candidate = elim (fetch stored.tree_size candidate.tree_size) [
    | err e ↦ some e
    | ok proof ↦
        if verify_consistency sha256 stored.tree_size candidate.tree_size stored.root_hash
          candidate.root_hash proof
        then none
        else some "LOG_INCONSISTENT"
  ]

  abbrev by_tiles :
      Option (TrustedCheckpoint Datetime → TrustedCheckpoint Datetime → Option String)
      → TrustedCheckpoint Datetime
      → TrustedCheckpoint Datetime
      → Option String
  by_tiles none stored candidate = some "missing consistency evidence"
  by_tiles (some tiles) stored candidate = tiles stored candidate

  abbrev by_evidence :
      Evidence Datetime → TrustedCheckpoint Datetime → TrustedCheckpoint Datetime → Option String
  by_evidence ev stored candidate = elim ev.fetch_consistency_proof [
    | some fetch ↦ by_proof fetch stored candidate
    | none ↦ by_tiles ev.tile_consistency stored candidate
  ]

  -- The stored checkpoint is older and not empty.
  abbrev check_growth :
      Evidence Datetime
      → Option (List IndexedEntry)
      → TrustedCheckpoint Datetime
      → TrustedCheckpoint Datetime
      → Option String
  check_growth ev (some entries) stored candidate = by_scan entries stored
  check_growth ev none stored candidate = by_evidence ev stored candidate

  unfoldable pub check_stored :
      Evidence Datetime
      → Option (List IndexedEntry)
      → TrustedCheckpoint Datetime
      → TrustedCheckpoint Datetime
      → Option String
  check_stored ev entries candidate stored =
      if ltb candidate.tree_size stored.tree_size
      then some "LOG_ROLLBACK"
      else if stored.tree_size == candidate.tree_size
      then (if bytes_eq stored.root_hash candidate.root_hash then none else some "LOG_FORK")
      else if stored.tree_size == 0
      then none
      else check_growth ev entries stored candidate

  abbrev check_optional :
      Evidence Datetime
      → Option (List IndexedEntry)
      → TrustedCheckpoint Datetime
      → Option (TrustedCheckpoint Datetime)
      → Option String
  check_optional ev entries candidate none = none
  check_optional ev entries candidate (some stored) = check_stored ev entries candidate stored

  abbrev check_scan : Option (List IndexedEntry) → TrustedCheckpoint Datetime → Option String
  check_scan none candidate = none
  check_scan (some entries) candidate =
      verify_checkpoint_prefix entries candidate.tree_size candidate.root_hash

  -- The local function `_verify`.
  unfoldable pub verify_stored :
      Evidence Datetime
      → Option (List IndexedEntry)
      → TrustedCheckpoint Datetime
      → Option (TrustedCheckpoint Datetime)
      → Option String
  verify_stored ev entries candidate stored = elim (stored_checkpoint p stored candidate.origin) [
    | err e ↦ some "malformed stored checkpoint"
    | ok snapshot ↦ elim (check_scan entries candidate) [
      | some e ↦ some e
      | none ↦ check_optional ev entries candidate snapshot
    ]
  ]

  abbrev sorted_scan : Option (List IndexedEntry) → Option (List IndexedEntry)
  sorted_scan none = none
  sorted_scan (some entries) = some (sort_entries entries)

  -- `_verify_and_advance_checkpoint`: the store's table after the call.
  unfoldable pub verify_and_advance_checkpoint :
      Table Datetime
      → Bool
      → Bool
      → Evidence Datetime
      → Option (List IndexedEntry)
      → TrustedCheckpoint Datetime
      → Result StoreError (Table Datetime)
  verify_and_advance_checkpoint table entered in_time ev complete_entries candidate = do
    raise_if ((candidate.tree_size == 0) && not (bytes_eq candidate.root_hash (sha256 [])))
        (rejected "INVALID_EVIDENCE")
    verify_and_advance p table entered in_time candidate
        (verify_stored ev (sorted_scan complete_entries) candidate)
