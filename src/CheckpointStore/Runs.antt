-- ===== src/CheckpointStore/Runs.antt =====
-- Runs of the checkpoint store (dnsid/c2sp_tlog/checkpoint_store.py) over a toy platform: the
-- time is a number with a flag for its zone, and the hash of the empty text is 32 zeros.
use dnsid_py.Base.{
  ℕ, ◌≡◌, ◌≢◌, ◌⊎◌, refl, String, Bool, true, false, Option, none, some, replicate, if◌then◌else◌,
  arith, bytes_eq, str_eq, ◌==◌,
}
use dnsid_py.Base.Result.{ok, err}
use dnsid_py.CheckpointStore.{
  TrustedCheckpoint, Table, Platform, put_origin, log_fork, rejected, blank_origin,
  checkpoint_snapshot, stored_checkpoint, advance_locked, verify_and_advance, table_after,
}
use dnsid_py.CheckpointStore.Advance.{Fits, IsBehind, verify_and_advance-Extends}
use dnsid_py.CheckpointStore.Validity.{
  UtcLaws, IsWellFormed, verify_and_advance-IsWellFormed, verify_and_advance-checked,
}
use dnsid_py.CheckpointStore.Interleaving.{
  Threads, outside, checked, entered, acquire, check, write, Run, here, next, Serial, Run-IsSerial,
  checked-is_current,
}

abbrev in_utc : ℕ × Bool → Option (ℕ × Bool)
in_utc (t, true) = some (t, true)
in_utc (t, false) = none

abbrev toy : Platform
toy = record {
  Datetime = ℕ × Bool;
  sha256 = λ b. replicate 32 0;
  strip = λ s. s;
  is_aware = λ t. t.1;
  as_utc = in_utc;
}

toy_utc : UtcLaws toy
toy_utc = record { aware = aware; idem = idem }
  where
    aware : (t u : ℕ × Bool) → in_utc t ≡ some u → u.1 ≡ true
    aware (t, true) (u, b) e = ground arith
    aware (t, false) u e = cc

    idem : (t u : ℕ × Bool) → in_utc t ≡ some u → in_utc u ≡ some u
    idem (t, true) (u, true) e = refl
    idem (t, true) (u, false) e = ground arith
    idem (t, false) u e = cc

abbrev at_size : ℕ → ℕ → TrustedCheckpoint (ℕ × Bool)
at_size n b = record {
  origin = "log.example";
  tree_size = n;
  root_hash = replicate 32 b;
  witness_time = (5, true);
}

abbrev no_checkpoints : Table (ℕ × Bool)
no_checkpoints k = none

abbrev one_checkpoint : Table (ℕ × Bool)
one_checkpoint = put_origin "log.example" (at_size 3 1) no_checkpoints

first_contact :
    verify_and_advance toy no_checkpoints true true (at_size 3 1) (λ stored. none)
    ≡ ok one_checkpoint
unfolding verify_and_advance checkpoint_snapshot blank_origin stored_checkpoint advance_locked
first_contact = refl

fork : verify_and_advance toy one_checkpoint true true (at_size 3 2) (λ stored. none) ≡ err log_fork
unfolding verify_and_advance checkpoint_snapshot blank_origin stored_checkpoint advance_locked
    bytes_eq
fork = refl

rollback :
    verify_and_advance toy one_checkpoint true true (at_size 2 2) (λ stored. some "shrunk")
    ≡ err (rejected "shrunk")
unfolding verify_and_advance checkpoint_snapshot blank_origin stored_checkpoint advance_locked
rollback = refl

no_checkpoints-IsWellFormed : IsWellFormed toy toy_utc no_checkpoints
no_checkpoints-IsWellFormed k c e = cc

one_checkpoint-IsWellFormed : IsWellFormed toy toy_utc one_checkpoint
unfolding verify_and_advance checkpoint_snapshot blank_origin stored_checkpoint advance_locked
one_checkpoint-IsWellFormed =
    verify_and_advance-IsWellFormed toy toy_utc no_checkpoints true true (at_size 3 1)
      (λ stored. none) no_checkpoints-IsWellFormed

stored_after :
    table_after no_checkpoints
      (verify_and_advance toy no_checkpoints true true (at_size 3 1) (λ stored. none))
      "log.example"
    ≡ some (at_size 3 1)
unfolding verify_and_advance checkpoint_snapshot blank_origin stored_checkpoint advance_locked
stored_after = refl

verify_and_advance-IsWellFormed_example :
    (checkpoint_snapshot toy (at_size 3 1) ≡ ok (at_size 3 1))
    × ((at_size 3 1).origin ≡ "log.example")
verify_and_advance-IsWellFormed_example =
    verify_and_advance-IsWellFormed toy toy_utc no_checkpoints true true (at_size 3 1)
      (λ stored. none) no_checkpoints-IsWellFormed "log.example" (at_size 3 1) stored_after

verify_and_advance-Extends_example :
    (d : TrustedCheckpoint (ℕ × Bool)) × (table_after one_checkpoint
        (verify_and_advance toy one_checkpoint true true (at_size 3 2) (λ stored. none))
        "log.example"
      ≡ some d)
    × Fits (some (at_size 3 1)) d
verify_and_advance-Extends_example =
    verify_and_advance-Extends toy one_checkpoint true true (at_size 3 2) (λ stored. none)
      "log.example" (at_size 3 1) refl

verify_and_advance-checked_example :
    (c : TrustedCheckpoint (ℕ × Bool)) × (checkpoint_snapshot toy (at_size 3 1) ≡ ok c)
    × ◌≡◌ {A = Option String} none none
    × ((k : String) → c.origin ≢ k → one_checkpoint k ≡ no_checkpoints k)
    × ((IsBehind toy no_checkpoints c × (one_checkpoint c.origin ≡ no_checkpoints c.origin))
        ⊎ (Fits (no_checkpoints c.origin) c × (one_checkpoint c.origin ≡ some c)))
verify_and_advance-checked_example =
    verify_and_advance-checked toy toy_utc no_checkpoints one_checkpoint true true (at_size 3 1)
      (λ stored. none) no_checkpoints-IsWellFormed first_contact

abbrev accepting :
    ℕ → TrustedCheckpoint (ℕ × Bool) → Option (TrustedCheckpoint (ℕ × Bool)) → Option String
accepting i c stored = none

abbrev idle : Threads (ℕ × Bool)
idle = record { table = one_checkpoint; owner = λ k. none; place = λ i. outside }

abbrev inside : Threads (ℕ × Bool)
inside = record idle {
  owner = λ k. if str_eq "log.example" k then some 0 else none;
  place = λ i. if 0 == i then entered (at_size 4 1) else outside;
}

abbrev accepted : Threads (ℕ × Bool)
accepted = record inside {
  place = λ i. if 0 == i then checked (at_size 4 1) (some (at_size 3 1)) else inside.place i;
}

two_steps : Run toy accepting idle accepted
unfolding checkpoint_snapshot blank_origin stored_checkpoint
two_steps =
    next 0 (next 0 here (acquire (at_size 4 1) (at_size 4 1) refl refl refl refl))
      (check (at_size 4 1) (some (at_size 3 1)) refl refl refl refl)

abbrev grown : Threads (ℕ × Bool)
grown = record {
  table = put_origin "log.example" (at_size 4 1) one_checkpoint;
  owner = λ k. if str_eq "log.example" k then none else accepted.owner k;
  place = λ i. if 0 == i then outside else accepted.place i;
}

-- The thread writes and is outside again.
whole_call : Run toy accepting idle grown
unfolding advance_locked
whole_call =
    next 0 two_steps (write (at_size 4 1) (some (at_size 3 1)) (grown.table) refl refl refl)

Run-IsSerial_example : Serial toy accepting one_checkpoint grown.table
Run-IsSerial_example = Run-IsSerial toy accepting idle grown (λ k. refl) whole_call

checked-is_current_example :
    (one_checkpoint "log.example" ≡ some (at_size 3 1))
    × (¬ (
        (accepted.place 1 ≡ entered (at_size 5 1)) × ((at_size 5 1).origin ≡ (at_size 4 1).origin)))
checked-is_current_example =
    checked-is_current toy accepting idle accepted 0 1 (at_size 4 1) (at_size 5 1)
      (some (at_size 3 1)) (λ k. refl) two_steps refl
