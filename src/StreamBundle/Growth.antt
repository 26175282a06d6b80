-- ===== src/StreamBundle/Growth.antt =====
-- An accepted checkpoint continues the trusted one (dnsid/c2sp_tlog/stream_bundle.py).
use dnsid_py.Base.{
  ℕ, ◌≡◌, ap, true, Option, none, some, List, map, Bytes, bytes_eq_iff, length, take, arith,
}
use dnsid_py.Merkle.{merkle_root_from_entries}
use dnsid_py.CheckpointStore.{Platform}
use dnsid_py.CheckpointStore.Validity.{UtcLaws}
use dnsid_py.StreamBundle.{IndexedEntry, entry_data, has_root, verify_checkpoint_prefix}

module _ (p : Platform) (utc : UtcLaws p) where
  open p use {Datetime, sha256}

  -- The first `size` entries are there, and `root` is the Merkle root of their data.
  abbrev pub HasPrefix : List IndexedEntry → ℕ → Bytes → Type 0
  HasPrefix entries size root =
      (length (take size entries) ≡ size)
      × (merkle_root_from_entries sha256 (map entry_data (take size entries)) ≡ some root)

  has_root_lem : (o : Option Bytes) (root : Bytes) → has_root o root ≡ true → o ≡ some root
  has_root_lem none root h = cc
  has_root_lem (some r) root h = ap some ((bytes_eq_iff r root).0 h)

  pub prefix-HasPrefix :
      (entries : List IndexedEntry) (size : ℕ) (root : Bytes)
      → verify_checkpoint_prefix p entries size root ≡ none
      → HasPrefix entries size root
  unfolding verify_checkpoint_prefix
  prefix-HasPrefix entries size root h = (
    ground arith,
    has_root_lem (merkle_root_from_entries sha256 (map entry_data (take size entries))) root
        (ground arith),
  )
