-- ===== src/CheckpointStore/Advance.antt =====
-- What an update of the trusted checkpoints does (dnsid/c2sp_tlog/checkpoint_store.py): it never
-- goes back, never replaces a root at the same size, and only follows the caller's check.
use dnsid_py.Base.{
  ◌≤◌, ◌<◌, ◌≡◌, ◌≢◌, ◌⊎◌, refl, ◌∙◌, String, Bool, true, false, not, ◌&&◌, Option, none, some,
  bytes_eq, bytes_eq_iff, ◌==◌, leb, str_eq, eq_iff, Option-cases, Bool-cases, inl, inr, arith,
}
use dnsid_py.Base.Result.{ok, Result-cases}
use dnsid_py.CheckpointStore.{
  TrustedCheckpoint, Table, put_origin, Platform, blank_origin, checkpoint_snapshot,
  stored_checkpoint, advance_locked, verify_and_advance, table_after,
}

-- `c` may stand where the table has what it has: its size does not fall, and at the same size its
-- root is the same.
abbrev pub Fits : {D : Type 0} → Option (TrustedCheckpoint D) → TrustedCheckpoint D → Type 0
Fits none c = Unit
Fits (some current) c =
    (current.tree_size ≤ c.tree_size)
    × (c.tree_size ≡ current.tree_size → c.root_hash ≡ current.root_hash)

module _ (p : Platform) where
  open p use {Datetime}

  stored_lem :
      (current c : TrustedCheckpoint Datetime)
      → ((c.tree_size == current.tree_size) && not (bytes_eq c.root_hash current.root_hash)) ≡ false
      → leb current.tree_size c.tree_size ≡ true
      → Fits (some current) c
  stored_lem current c same le =
      (ground arith, λ e. ground (arith, bytes_eq_iff c.root_hash current.root_hash))

  -- The table has a larger checkpoint of the origin.
  abbrev pub IsBehind : Table Datetime → TrustedCheckpoint Datetime → Type 0
  IsBehind table c =
      (current : TrustedCheckpoint Datetime) × (table c.origin ≡ some current)
      × (c.tree_size < current.tree_size)

  -- A write that returns stores the candidate, which fits, or leaves the table, where the table has
  -- a larger checkpoint.
  pub advance_locked-cases :
      (table t : Table Datetime) (c : TrustedCheckpoint Datetime)
      → advance_locked p table c ≡ ok t
      → (IsBehind table c × (t ≡ table))
        ⊎ (Fits (table c.origin) c × (t ≡ put_origin c.origin c table))
  unfolding advance_locked
  advance_locked-cases table t c h = elim (Option-cases (table c.origin)) [
    | inl missing ↦ inr (rw missing tt, ground arith)
    | inr (current, e) ↦
        elim (Bool-cases
          ((c.tree_size == current.tree_size) && not (bytes_eq c.root_hash current.root_hash))) [
            | inl conflict ↦ absurd (ground arith)
            | inr same ↦ elim (Bool-cases (leb current.tree_size c.tree_size)) [
              | inl grows ↦ inr (rw e (stored_lem current c same grows), ground arith)
              | inr smaller ↦ inl ((current, e, ground arith), ground arith)
            ]
          ]
  ]

  pub advance_elsewhere :
      (table t : Table Datetime) (c : TrustedCheckpoint Datetime) (k : String)
      → advance_locked p table c ≡ ok t
      → c.origin ≢ k
      → t k ≡ table k
  advance_elsewhere table t c k h ne = elim (advance_locked-cases table t c h) [
    | inl (behind, same) ↦ rw same refl
    | inr (fits, same) ↦ rw same (ground (arith, eq_iff c.origin k))
  ]

  -- A call that returns has a valid candidate, and the caller's check has accepted the stored
  -- checkpoint, as it stood when the candidate was written.
  pub accepted_lem :
      (table t : Table Datetime) (entered in_time : Bool) (candidate : TrustedCheckpoint Datetime)
      (verify : Option (TrustedCheckpoint Datetime) → Option String)
      → verify_and_advance p table entered in_time candidate verify ≡ ok t
      → (c : TrustedCheckpoint Datetime) × (stored : Option (TrustedCheckpoint Datetime))
        × (checkpoint_snapshot p candidate ≡ ok c)
        × (stored_checkpoint p (table c.origin) c.origin ≡ ok stored)
        × (verify stored ≡ none)
        × (advance_locked p table c ≡ ok t)
  unfolding verify_and_advance
  accepted_lem table t entered in_time candidate verify h =
      elim (Result-cases (checkpoint_snapshot p candidate)) [
        | inr (x, e) ↦ absurd (ground arith)
        | inl (c, e) ↦ elim (Result-cases (stored_checkpoint p (table c.origin) c.origin)) [
          | inr (x, f) ↦ absurd (ground arith)
          | inl (stored, f) ↦ (c, stored, e, f, ground arith, ground arith)
        ]
      ]

module _ (p : Platform) where
  open p use {Datetime}

  origin_lem :
      (candidate c : TrustedCheckpoint Datetime)
      → checkpoint_snapshot p candidate ≡ ok c
      → blank_origin p c.origin ≡ false
  unfolding checkpoint_snapshot
  origin_lem candidate c h = elim (Option-cases (p.as_utc candidate.witness_time)) [
    | inl q ↦ absurd (ground arith)
    | inr (u, q) ↦
        let same : candidate.origin ≡ c.origin = ground arith in rw (← same) (ground arith)
  ]

  -- The steps of a call's body make the call.
  pub verify_and_advance-from_steps :
      (table t : Table Datetime) (candidate c : TrustedCheckpoint Datetime)
      (stored : Option (TrustedCheckpoint Datetime))
      (verify : Option (TrustedCheckpoint Datetime) → Option String)
      → checkpoint_snapshot p candidate ≡ ok c
      → stored_checkpoint p (table c.origin) c.origin ≡ ok stored
      → verify stored ≡ none
      → advance_locked p table c ≡ ok t
      → verify_and_advance p table true true candidate verify ≡ ok t
  unfolding verify_and_advance
  verify_and_advance-from_steps table t candidate c stored verify valid read accepted moved =
      let named = origin_lem candidate c valid in ground arith

-- A later table: no origin is forgotten, no size falls, and no root changes at one size.
abbrev pub Extends : {D : Type 0} → Table D → Table D → Type 0
Extends {D} before after =
    (k : String) (c : TrustedCheckpoint D)
    → before k ≡ some c
    → (d : TrustedCheckpoint D) × (after k ≡ some d) × Fits (some c) d

pub Extends-refl : {D : Type 0} (t : Table D) → Extends t t
Extends-refl t k c e = (c, e, (omega arith, λ _. refl))

pub Extends-trans : {D : Type 0} (a b c : Table D) → Extends a b → Extends b c → Extends a c
Extends-trans a b c f g k x e =
    let (y, p, fy) = f k x e in
    let (z, r, fz) = g k y p in (z, r, (omega arith, λ h. fz.1 (omega arith) ∙ fy.1 (omega arith)))

module _ (p : Platform) where
  open p use {Datetime}

  pub put_origin-Extends :
      (table : Table Datetime) (c : TrustedCheckpoint Datetime)
      → Fits (table c.origin) c
      → Extends table (put_origin c.origin c table)
  put_origin-Extends table c fits k d e = elim (Bool-cases (str_eq c.origin k)) [
    | inl same ↦
        let here : c.origin ≡ k = (eq_iff c.origin k).0 same in
        let at : table c.origin ≡ some d = cc in (c, ground arith, rw at at fits)
    | inr other ↦ (d, ground arith, (omega arith, λ _. refl))
  ]

  -- Whatever a call of `verify_and_advance` does, returning or raising, the table after it
  -- extends the table before it.
  pub verify_and_advance-Extends :
      (table : Table Datetime) (entered in_time : Bool) (candidate : TrustedCheckpoint Datetime)
      (verify : Option (TrustedCheckpoint Datetime) → Option String)
      → Extends table
          (table_after table (verify_and_advance p table entered in_time candidate verify))
  verify_and_advance-Extends table entered in_time candidate verify =
      elim (Result-cases (verify_and_advance p table entered in_time candidate verify)) [
        | inr (x, e) ↦ rw e (Extends-refl table)
        | inl (t, e) ↦
            let (c, stored, valid, read, accepted, moved) =
              accepted_lem p table t entered in_time candidate verify e in
            rw e (elim (advance_locked-cases p table t c moved) [
              | inl (behind, same) ↦ rw same (Extends-refl table)
              | inr (fits, same) ↦ rw same (put_origin-Extends table c fits)
            ])
      ]
