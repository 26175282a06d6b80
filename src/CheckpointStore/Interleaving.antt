-- ===== src/CheckpointStore/Interleaving.antt =====
-- Threads that call verify_and_advance on one store (dnsid/c2sp_tlog/checkpoint_store.py), as
-- interleavings of the steps of its body. `_locked` takes the lock of the candidate's origin, the
-- caller's check runs, the write follows, and the lock is released on every way out. `_lock_for`,
-- which makes the lock of an origin, is not modelled: every origin has one lock from the start.
use dnsid_py.Base.{
  ℕ, ◌≡◌, ◌≢◌, ◌⊎◌, refl, sym, ◌∙◌, ap, String, true, false, Option, none, some, ◌==◌, ==_iff,
  str_eq, eq_iff, if◌then◌else◌, Bool-cases, inl, inr, arith,
}
use mathlib.Core.Path.{subst}
use dnsid_py.Base.Result.{ok}
use dnsid_py.CheckpointStore.{
  TrustedCheckpoint, Table, Platform, checkpoint_snapshot, stored_checkpoint, advance_locked,
  verify_and_advance,
}
use dnsid_py.CheckpointStore.Advance.{advance_elsewhere, verify_and_advance-from_steps}

-- Where a thread stands: outside, behind the lock with its snapshot, or after a check that
-- accepted the stored checkpoint.
pub data Place (D : Type 0) : Type 0 where
  outside : Place D
  entered : TrustedCheckpoint D → Place D
  checked : TrustedCheckpoint D → Option (TrustedCheckpoint D) → Place D

-- The table, the owner of each origin's lock, and the place of each thread.
pub record Threads (D : Type 0) : Type 0 where
  pub table : Table D
  pub owner : String → Option ℕ
  pub place : ℕ → Place D

abbrev set_owner : String → Option ℕ → (String → Option ℕ) → String → Option ℕ
set_owner k o owner j = if str_eq k j then o else owner j

abbrev set_place : {D : Type 0} → ℕ → Place D → (ℕ → Place D) → ℕ → Place D
set_place i q place j = if i == j then q else place j

-- `verify` is the check of each thread's caller, for its candidate.
module _ (p : Platform)
    (verify : ℕ
      → TrustedCheckpoint p.Datetime
      → Option (TrustedCheckpoint p.Datetime)
      → Option String) where
  open p use {Datetime}

  -- One step of thread `i`.
  pub data Move (s : Threads Datetime) (i : ℕ) (t : Threads Datetime) : Type 0 where
    acquire :
        (candidate c : TrustedCheckpoint Datetime)
        → s.place i ≡ outside
        → checkpoint_snapshot p candidate ≡ ok c
        → s.owner c.origin ≡ none
        → t ≡ record s {
          owner = set_owner c.origin (some i) s.owner;
          place = set_place i (entered c) s.place;
        }
        → Move s i t
    check :
        (c : TrustedCheckpoint Datetime) (stored : Option (TrustedCheckpoint Datetime))
        → s.place i ≡ entered c
        → stored_checkpoint p (s.table c.origin) c.origin ≡ ok stored
        → verify i c stored ≡ none
        → t ≡ record s { place = set_place i (checked c (s.table c.origin)) s.place }
        → Move s i t
    write :
        (c : TrustedCheckpoint Datetime) (seen : Option (TrustedCheckpoint Datetime))
        (moved : Table Datetime)
        → s.place i ≡ checked c seen
        → advance_locked p s.table c ≡ ok moved
        → t ≡ record {
          table = moved;
          owner = set_owner c.origin none s.owner;
          place = set_place i outside s.place;
        }
        → Move s i t
    -- An exception after the lock was taken: nothing is written.
    abandon :
        (c : TrustedCheckpoint Datetime)
        → (s.place i ≡ entered c)
          ⊎ ((seen : Option (TrustedCheckpoint Datetime)) × (s.place i ≡ checked c seen))
        → t ≡ record s {
          owner = set_owner c.origin none s.owner;
          place = set_place i outside s.place;
        }
        → Move s i t

  pub data Run (s : Threads Datetime) : Threads Datetime → Type 0 where
    here : Run s s
    next : {t u : Threads Datetime} (i : ℕ) → Run s t → Move t i u → Run s u

  -- A thread past the lock owns it, and what its check saw is what the table holds.
  abbrev pub Holds : Threads Datetime → ℕ → Place Datetime → Type 0
  Holds s i outside = Unit
  Holds s i (entered c) = s.owner c.origin ≡ some i
  Holds s i (checked c seen) = (s.owner c.origin ≡ some i) × (s.table c.origin ≡ seen)

  abbrev pub IsLocked : Threads Datetime → Type 0
  IsLocked s = (i : ℕ) → Holds s i (s.place i)

  -- What another thread's step must leave alone for thread `j` to keep what it holds.
  Holds-keep :
      (s t : Threads Datetime) (j : ℕ) (q : Place Datetime)
      → ((k : String) → s.owner k ≡ some j → (t.owner k ≡ some j) × (t.table k ≡ s.table k))
      → Holds s j q
      → Holds t j q
  Holds-keep s t j outside keep h = tt
  Holds-keep s t j (entered c) keep h = (keep c.origin h).0
  Holds-keep s t j (checked c seen) keep (h, e) = ((keep c.origin h).0, (keep c.origin h).1 ∙ e)

  Holds-at :
      (s : Threads Datetime) (i : ℕ) (q : Place Datetime) → IsLocked s → s.place i ≡ q → Holds s i q
  Holds-at s i q locked e = rw e at (locked i)

  -- The step of one thread keeps what the others hold, if it only touches an origin that is free
  -- or its own.
  others_keep :
      (s t : Threads Datetime) (i j : ℕ) (q : Place Datetime)
      → IsLocked s
      → (i == j) ≡ false
      → t.place ≡ set_place i q s.place
      → ((k : String) → s.owner k ≡ some j → (t.owner k ≡ some j) × (t.table k ≡ s.table k))
      → Holds t j (t.place j)
  others_keep s t i j q locked ne e keep = rw (e, ne) (Holds-keep s t j (s.place j) keep (locked j))

  other_origin :
      (s : Threads Datetime) (i j : ℕ) (origin k : String)
      → (i == j) ≡ false
      → (s.owner origin ≡ some i) ⊎ (s.owner origin ≡ none)
      → s.owner k ≡ some j
      → origin ≢ k
  other_origin s i j origin k ne (inl mine) his e =
      let both : some i ≡ some j = sym mine ∙ ap s.owner e ∙ his in ground arith
  other_origin s i j origin k ne (inr free) his e =
      let both : none ≡ some j = sym free ∙ ap s.owner e ∙ his in cc

  set_owner-ne :
      (s : Threads Datetime) (origin k : String) (o : Option ℕ)
      → origin ≢ k
      → set_owner origin o s.owner k ≡ s.owner k
  set_owner-ne s origin k o ne = ground (arith, eq_iff origin k)

  set_owner_self :
      (s : Threads Datetime) (origin : String) (o : Option ℕ)
      → set_owner origin o s.owner origin ≡ o
  set_owner_self s origin o = ground (arith, eq_iff origin origin)

  holder :
      (s : Threads Datetime) (i : ℕ) (c : TrustedCheckpoint Datetime)
      → IsLocked s
      → (s.place i ≡ entered c)
        ⊎ ((seen : Option (TrustedCheckpoint Datetime)) × (s.place i ≡ checked c seen))
      → s.owner c.origin ≡ some i
  holder s i c locked (inl q) = Holds-at s i (entered c) locked q
  holder s i c locked (inr (seen, q)) = (Holds-at s i (checked c seen) locked q).0

  Move-IsLocked : (s t : Threads Datetime) (i : ℕ) → Move s i t → IsLocked s → IsLocked t
  Move-IsLocked s t i (acquire candidate c q v o e) locked j = elim (Bool-cases (i == j)) [
    | inl same ↦
        let i-j : i ≡ j = (==_iff i j).0 same in
        rw e (rw same (set_owner_self s c.origin (some i) ∙ ap some i-j))
    | inr ne ↦
        others_keep s t i j (entered c) locked ne (ap (λ (u : Threads Datetime). u.place) e)
          (λ k his. rw e (
            set_owner-ne s c.origin k (some i) (other_origin s i j c.origin k ne (inr o) his) ∙ his,
            refl,
          ))
  ]
  Move-IsLocked s t i (check c stored q r v e) locked j = elim (Bool-cases (i == j)) [
    | inl same ↦
        let i-j : i ≡ j = (==_iff i j).0 same in
        rw e (rw same (Holds-at s i (entered c) locked q ∙ ap some i-j, refl))
    | inr ne ↦
        others_keep s t i j (checked c (s.table c.origin)) locked ne
          (ap (λ (u : Threads Datetime). u.place) e) (λ k his. rw e (his, refl))
  ]
  Move-IsLocked s t i (write c seen moved q a e) locked j = elim (Bool-cases (i == j)) [
    | inl same ↦ rw e (rw same tt)
    | inr ne ↦
        let mine = holder s i c locked (inr (seen, q)) in
        others_keep s t i j outside locked ne (ap (λ (u : Threads Datetime). u.place) e) (λ k his.
          let away = other_origin s i j c.origin k ne (inl mine) his in
          rw e (
            set_owner-ne s c.origin k none away ∙ his,
            advance_elsewhere p s.table moved c k a away,
          ))
  ]
  Move-IsLocked s t i (abandon c q e) locked j = elim (Bool-cases (i == j)) [
    | inl same ↦ rw e (rw same tt)
    | inr ne ↦
        let mine = holder s i c locked q in
        others_keep s t i j outside locked ne (ap (λ (u : Threads Datetime). u.place) e) (λ k his.
          rw e (
            set_owner-ne s c.origin k none (other_origin s i j c.origin k ne (inl mine) his) ∙ his,
            refl,
          ))
  ]

  Run-IsLocked : (s t : Threads Datetime) → Run s t → IsLocked s → IsLocked t
  Run-IsLocked s t here h = h
  Run-IsLocked s t (next {t = mid} i r m) h = Move-IsLocked mid t i m (Run-IsLocked s mid r h)

  -- From a start in which no thread is past a lock, whatever steps were made: if a thread's check
  -- has accepted a checkpoint `c` against what it saw for the origin of `c`, the table still holds
  -- exactly that, and no thread stands at its check inside the lock of the same origin.
  pub checked-is_current :
      (s t : Threads Datetime) (i j : ℕ) (c d : TrustedCheckpoint Datetime)
      (seen : Option (TrustedCheckpoint Datetime))
      → ((k : ℕ) → s.place k ≡ outside)
      → Run s t
      → t.place i ≡ checked c seen
      → (t.table c.origin ≡ seen) × (¬ ((t.place j ≡ entered d) × (d.origin ≡ c.origin)))
  checked-is_current s t i j c d seen start r at =
      let locked = Run-IsLocked s t r (λ k. rw (start k) tt) in
      let (mine, current) = Holds-at t i (checked c seen) locked at in
      (
        current,
        λ (there, same).
            let his : t.owner d.origin ≡ some j = Holds-at t j (entered d) locked there in
            let both : some j ≡ some i = sym his ∙ ap t.owner same ∙ mine in
            let one : j ≡ i = ground arith in cc (one, there, at),
      )

  -- Some candidate has passed what comes before the place: its snapshot, and the caller's check
  -- against what was seen.
  abbrev HasPassed : ℕ → Place Datetime → Type 0
  HasPassed i outside = Unit {0}
  HasPassed i (entered c) =
      (candidate : TrustedCheckpoint Datetime) × (checkpoint_snapshot p candidate ≡ ok c)
  HasPassed i (checked c seen) =
      (candidate : TrustedCheckpoint Datetime) × (stored : Option (TrustedCheckpoint Datetime))
      × (checkpoint_snapshot p candidate ≡ ok c)
      × (stored_checkpoint p seen c.origin ≡ ok stored)
      × (verify i c stored ≡ none)

  place_lem :
      (s : Threads Datetime) (i j : ℕ) (q : Place Datetime)
      → HasPassed i q
      → HasPassed j (s.place j)
      → HasPassed j (set_place i q s.place j)
  place_lem s i j q mine theirs = elim (Bool-cases (i == j)) [
    | inl same ↦ rw same (subst (λ n. HasPassed n q) ((==_iff i j).0 same) mine)
    | inr ne ↦ rw ne theirs
  ]

  Move-HasPassed :
      (s t : Threads Datetime) (i : ℕ)
      → Move s i t
      → ((j : ℕ) → HasPassed j (s.place j))
      → (j : ℕ) → HasPassed j (t.place j)
  Move-HasPassed s t i (acquire candidate c q v o e) h j =
      rw e (place_lem s i j (entered c) (candidate, v) (h j))
  Move-HasPassed s t i (check c stored q r v e) h j =
      let (candidate, valid) = subst (HasPassed i) q (h i) in
      rw e (place_lem s i j (checked c (s.table c.origin)) (candidate, stored, valid, r, v) (h j))
  Move-HasPassed s t i (write c seen moved q a e) h j = rw e (place_lem s i j outside tt (h j))
  Move-HasPassed s t i (abandon c q e) h j = rw e (place_lem s i j outside tt (h j))

  Run-HasPassed :
      (s t : Threads Datetime)
      → Run s t
      → ((j : ℕ) → HasPassed j (s.place j))
      → (j : ℕ) → HasPassed j (t.place j)
  Run-HasPassed s t here h = h
  Run-HasPassed s t (next {t = mid} i r m) h = Move-HasPassed mid t i m (Run-HasPassed s mid r h)

  -- Whole calls of `verify_and_advance`, one after another, none of which runs out of time.
  pub data Serial (before : Table Datetime) : Table Datetime → Type 0 where
    start : Serial before before
    call :
        {mid after : Table Datetime} (i : ℕ) (candidate c : TrustedCheckpoint Datetime)
        → Serial before mid
        → checkpoint_snapshot p candidate ≡ ok c
        → verify_and_advance p mid true true candidate (verify i c) ≡ ok after
        → Serial before after

  -- Only the write changes the table, and under the lock it is a whole call.
  Move-IsSerial :
      (before : Table Datetime) (s t : Threads Datetime) (i : ℕ)
      → Move s i t
      → IsLocked s
      → ((j : ℕ) → HasPassed j (s.place j))
      → Serial before s.table
      → Serial before t.table
  Move-IsSerial before s t i (acquire candidate c q v o e) locked h run = rw e run
  Move-IsSerial before s t i (check c stored q r v e) locked h run = rw e run
  Move-IsSerial before s t i (abandon c q e) locked h run = rw e run
  Move-IsSerial before s t i (write c seen moved q a e) locked h run =
      let (candidate, stored, valid, read, accepted) = subst (HasPassed i) q (h i) in
      let (mine, current) = Holds-at s i (checked c seen) locked q in
      rw e (
        call i candidate c run valid (
          verify_and_advance-from_steps p s.table moved candidate c stored (verify i c) valid
            (subst (λ o. stored_checkpoint p o c.origin ≡ ok stored) (sym current) read) accepted
            a))

  -- From a start in which no thread is past a lock, whatever the threads do and in whatever order
  -- their steps come, the table is one that whole calls of `verify_and_advance` with the threads'
  -- checks, made one after another, leave behind.
  pub Run-IsSerial :
      (s t : Threads Datetime) → ((k : ℕ) → s.place k ≡ outside) → Run s t → Serial s.table t.table
  Run-IsSerial s t idle here = start
  Run-IsSerial s t idle (next {t = mid} i r m) =
      Move-IsSerial s.table mid t i m (Run-IsLocked s mid r (λ k. rw (idle k) tt))
        (Run-HasPassed s mid r (λ k. rw (idle k) tt)) (Run-IsSerial s mid idle r)
