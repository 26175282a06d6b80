-- ===== src/CheckpointStore/Validity.antt =====
-- Stored checkpoints stay well formed (dnsid/c2sp_tlog/checkpoint_store.py).
use dnsid_py.Base.{none, [], bytes_eq_iff}
use dnsid_py.Base.{
  ◌≡◌, ◌≢◌, refl, ap, ◌∙◌, String, Bool, true, Option, some, str_eq, eq_iff, Option-cases,
  Bool-cases, inl, inr, arith,
}
use dnsid_py.Base.Result.{ok, Result-cases}
use dnsid_py.CheckpointStore.{
  TrustedCheckpoint, Table, put_origin, Platform, checkpoint_snapshot, stored_checkpoint,
  advance_locked, verify_and_advance, table_after,
}
use dnsid_py.Base.{◌⊎◌}
use dnsid_py.CheckpointStore.Advance.{
  Fits, IsBehind, advance_locked-cases, advance_elsewhere, accepted_lem,
}

-- What `datetime` documents of `astimezone(UTC)`: its result is aware, and in UTC already.
pub record UtcLaws (p : Platform) : Type 0 where
  pub aware : (t u : p.Datetime) → p.as_utc t ≡ some u → p.is_aware u ≡ true
  pub idem : (t u : p.Datetime) → p.as_utc t ≡ some u → p.as_utc u ≡ some u

module _ (p : Platform) (utc : UtcLaws p) where
  open p use {Datetime, as_utc}

  -- A snapshot is its own snapshot.
  pub checkpoint_snapshot_idem :
      (c s : TrustedCheckpoint Datetime)
      → checkpoint_snapshot p c ≡ ok s
      → checkpoint_snapshot p s ≡ ok s
  unfolding checkpoint_snapshot
  checkpoint_snapshot_idem c s h = elim (Option-cases (as_utc c.witness_time)) [
    | inl missing ↦ absurd (ground arith)
    | inr (u, e) ↦ ground (arith, utc.aware c.witness_time u e, utc.idem c.witness_time u e)
  ]

  -- A valid checkpoint of size 0 has the hash of the empty text as its root.
  pub checkpoint_snapshot-empty :
      (c s : TrustedCheckpoint Datetime)
      → checkpoint_snapshot p c ≡ ok s
      → c.tree_size ≡ 0
      → c.root_hash ≡ p.sha256 []
  unfolding checkpoint_snapshot
  checkpoint_snapshot-empty c s h z = ground (arith, bytes_eq_iff c.root_hash (p.sha256 []))

  -- Every stored record is a snapshot under its own origin.
  abbrev pub IsWellFormed : Table Datetime → Type 0
  IsWellFormed table =
      (k : String) (c : TrustedCheckpoint Datetime)
      → table k ≡ some c
      → (checkpoint_snapshot p c ≡ ok c) × (c.origin ≡ k)

  pub origin-checkpoint_snapshot :
      (c s : TrustedCheckpoint Datetime) → checkpoint_snapshot p c ≡ ok s → s.origin ≡ c.origin
  unfolding checkpoint_snapshot
  origin-checkpoint_snapshot c s h = ground arith

  stored-some :
      (k : String) (c : TrustedCheckpoint Datetime)
      → checkpoint_snapshot p c ≡ ok c
      → c.origin ≡ k
      → stored_checkpoint p (some c) k ≡ ok (some c)
  unfolding stored_checkpoint
  stored-some k c valid same = ground (arith, eq_iff c.origin k)

  pub stored-IsWellFormed :
      (table : Table Datetime) (k : String)
      → IsWellFormed table
      → stored_checkpoint p (table k) k ≡ ok (table k)
  stored-IsWellFormed table k wf = elim (Option-cases (table k)) [
    | inl missing ↦ rw missing (unfold stored_checkpoint in refl)
    | inr (c, e) ↦ let (valid, same) = wf k c e in rw e (stored-some k c valid same)
  ]

  put_origin-IsWellFormed :
      (table : Table Datetime) (c : TrustedCheckpoint Datetime)
      → IsWellFormed table
      → checkpoint_snapshot p c ≡ ok c
      → IsWellFormed (put_origin c.origin c table)
  put_origin-IsWellFormed table c wf valid k d e = elim (Bool-cases (str_eq c.origin k)) [
    | inl same ↦ let d-c : c ≡ d = ground arith in rw (← d-c) (valid, (eq_iff c.origin k).0 same)
    | inr other ↦ wf k d (ground arith)
  ]

  pub advance_locked-IsWellFormed :
      (table t : Table Datetime) (c : TrustedCheckpoint Datetime)
      → IsWellFormed table
      → checkpoint_snapshot p c ≡ ok c
      → advance_locked p table c ≡ ok t
      → IsWellFormed t
  advance_locked-IsWellFormed table t c wf valid h = elim (advance_locked-cases p table t c h) [
    | inl (behind, same) ↦ rw same wf
    | inr (fits, same) ↦ rw same (put_origin-IsWellFormed table c wf valid)
  ]

  -- `verify_and_advance` keeps every stored record well formed, whether it returns or raises.
  pub verify_and_advance-IsWellFormed :
      (table : Table Datetime) (entered in_time : Bool) (candidate : TrustedCheckpoint Datetime)
      (verify : Option (TrustedCheckpoint Datetime) → Option String)
      → IsWellFormed table
      → IsWellFormed
          (table_after table (verify_and_advance p table entered in_time candidate verify))
  verify_and_advance-IsWellFormed table entered in_time candidate verify wf =
      elim (Result-cases (verify_and_advance p table entered in_time candidate verify)) [
        | inr (x, e) ↦ rw e wf
        | inl (t, e) ↦
            let (c, stored, valid, read, accepted, moved) =
              accepted_lem p table t entered in_time candidate verify e in
            rw e (
              advance_locked-IsWellFormed table t c wf (checkpoint_snapshot_idem candidate c valid)
                moved)
      ]

  -- Over a well-formed table, a call that returns has a valid candidate `c`; the caller's check
  -- accepted exactly what the table held for its origin; the table keeps what it has for every other
  -- origin; and for this origin it holds `c` afterwards, which fits what it replaces, or, only if
  -- that is larger than `c`, what it held.
  pub verify_and_advance-checked :
      (table t : Table Datetime) (entered in_time : Bool) (candidate : TrustedCheckpoint Datetime)
      (verify : Option (TrustedCheckpoint Datetime) → Option String)
      → IsWellFormed table
      → verify_and_advance p table entered in_time candidate verify ≡ ok t
      → (c : TrustedCheckpoint Datetime) × (checkpoint_snapshot p candidate ≡ ok c)
        × (verify (table c.origin) ≡ none)
        × ((k : String) → c.origin ≢ k → t k ≡ table k)
        × ((IsBehind p table c × (t c.origin ≡ table c.origin))
            ⊎ (Fits (table c.origin) c × (t c.origin ≡ some c)))
  verify_and_advance-checked table t entered in_time candidate verify wf h =
      let (c, stored, valid, read, accepted, moved) =
        accepted_lem p table t entered in_time candidate verify h in
      let same : stored ≡ table c.origin = cc (stored-IsWellFormed table c.origin wf) in
      (
        c,
        valid,
        rw same at accepted,
        λ k ne. advance_elsewhere p table t c k moved ne,
        elim (advance_locked-cases p table t c moved) [
          | inl (behind, still) ↦ inl (behind, ap (λ (u : Table Datetime). u c.origin) still)
          | inr (fits, put) ↦ inr (
            fits,
            ap (λ (u : Table Datetime). u c.origin) put ∙ ground (arith, eq_iff c.origin c.origin),
          )
        ],
      )
