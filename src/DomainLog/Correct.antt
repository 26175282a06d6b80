-- ===== src/DomainLog/Correct.antt =====
-- `snapshot_at` (dnsid/models.py) returns a snapshot exactly where the specification has one.
use dnsid_py.Base.{
  ℕ, ◌+◌, ◌≡◌, ◌≢◌, ◌↔◌, refl, ap, String, Bool, true, false, some, List, [], ◌∷◌, ◌++◌, All, ltb,
  eq_iff, inl, inr, ◌⊎◌, Bool-cases, Option-cases, arith, append_assoc, append-nil,
}
use dnsid_py.Base.Result.{ok, bind_ok, raise_if-ok}
use dnsid_py.Events.{Time, LogEvent, domain_of, timestamp_of}
use dnsid_py.DomainLog.{
  unset, is_empty, Replay, begin, replay_event, visit, replay, conclude, snapshot_at, DomainLog,
  DomainSnapshot,
}
use dnsid_py.DomainLog.History.{Status, Steps, History, IsInside, IsLater, snapshot_of, IsSnapshot}
use dnsid_py.DomainLog.Steps.{
  as_replay, replay_event_sound, replay_event_complete, first_event_sound, first_event_complete,
  Genesis-active, Step-ne-unset,
}

-- The variables once an event after the time has been seen.
abbrev passed : Replay → Bool → Replay
passed s b = record s { past_snapshot_boundary = b }

module _ (digest : List (String × String) → String) (domain : String) (at : Time) where
  visit_sound :
      (index : ℕ) (s s' : Replay) (e : LogEvent)
      → visit digest domain at index s e ≡ ok s'
      → (IsLater domain at e × (s' ≡ passed s true))
        ⊎ (IsInside domain at e
            × (s.past_snapshot_boundary ≡ false)
            × (replay_event digest index s e ≡ ok s'))
  unfolding visit
  visit_sound index s s' e h = elim (Option-cases (domain_of e)) [
    | inl missing ↦ absurd (ground arith)
    | inr (d, p) ↦ elim (Option-cases (timestamp_of e)) [
      | inl missing ↦ absurd (ground arith)
      | inr (t, q) ↦
          let same : domain_of e ≡ some domain = ground (arith, eq_iff d domain) in
          elim (Bool-cases (ltb at t)) [
            | inl later ↦ inl ((same, t, q, ground arith), ground arith)
            | inr inside ↦ inr ((same, t, q, ground arith), ground arith, ground arith)
          ]
    ]
  ]

  visit_later :
      (index : ℕ) (s : Replay) (e : LogEvent)
      → IsLater domain at e
      → visit digest domain at index s e ≡ ok (passed s true)
  unfolding visit
  visit_later index s e (d, t, q, lt) = ground (arith, eq_iff domain domain)

  visit_inside :
      (index : ℕ) (s : Replay) (e : LogEvent)
      → IsInside domain at e
      → s.past_snapshot_boundary ≡ false
      → visit digest domain at index s e ≡ replay_event digest index s e
  unfolding visit
  visit_inside index s e (d, t, q, le) open' = ground (arith, eq_iff domain domain)

  -- After the boundary every event must be later, and nothing changes any more.
  passed_sound :
      (index : ℕ) (s s' : Replay) (es : List LogEvent)
      → replay digest domain at index (passed s true) es ≡ ok s'
      → All (IsLater domain at) es × (s' ≡ passed s true)
  unfolding replay
  passed_sound index s s' [] h = (tt, cc)
  passed_sound index s s' (e ∷ es) h =
      let (mid, v, r) = bind_ok (visit digest domain at index (passed s true) e) _ h in
      elim (visit_sound index (passed s true) mid e v) [
        | inl (later, same) ↦
            let (rest, done) = passed_sound (index + 1) s s' es (rw same at r) in
            ((later, rest), done)
        | inr (inside, before, run) ↦ cc
      ]

  later_complete :
      (index : ℕ) (s : Replay) (es : List LogEvent)
      → All (IsLater domain at) es
      → (b : Bool) × (replay digest domain at index s es ≡ ok (passed s b))
  unfolding replay
  later_complete index s [] h = (s.past_snapshot_boundary, refl)
  later_complete index s (e ∷ es) (later, rest) =
      let (b, r) = later_complete (index + 1) (passed s true) es rest in
      (b, rw (visit_later index s e later) r)

  issued_sound :
      (index : ℕ) (st : Status) (seen : List LogEvent) (s' : Replay) (es : List LogEvent)
      → st.state ≢ unset
      → replay digest domain at index (as_replay st seen false) es ≡ ok s'
      → (inside : List LogEvent) × (later : List LogEvent) × (st' : Status) × (b : Bool) × (es
          ≡ inside ++ later)
        × All (IsInside domain at) inside
        × All (IsLater domain at) later
        × Steps digest st inside st'
        × (st'.state ≢ unset)
        × (s' ≡ as_replay st' (seen ++ inside) b)
  unfolding replay
  issued_sound index st seen s' [] set h =
      ([], [], st, false, refl, tt, tt, refl, set, rw append-nil cc)
  issued_sound index st seen s' (e ∷ es) set h =
      let (mid, v, r) = bind_ok (visit digest domain at index (as_replay st seen false) e) _ h in
      elim (visit_sound index (as_replay st seen false) mid e v) [
        | inl (later, same) ↦
            let (rest, done) =
              passed_sound (index + 1) (as_replay st seen false) s' es (rw same at r) in
            ([], e ∷ es, st, true, refl, tt, (later, rest), refl, set, rw append-nil done)
        | inr (is_in, before, run) ↦
            let (st', live, step, same) = replay_event_sound digest index st seen e mid set run in
            let (inside, later, last, b, split, ins, lat, steps, set', done) =
              issued_sound (index + 1) st' (seen ++ (e ∷ [])) s' es
                (Step-ne-unset digest st st' e live step) (rw same at r) in
            (
              e ∷ inside,
              later,
              last,
              b,
              ap (λ t. e ∷ t) split,
              (is_in, ins),
              lat,
              (st', live, step, steps),
              set',
              rw append_assoc at done,
            )
      ]

  issued_complete :
      (index : ℕ) (st st' : Status) (seen inside later : List LogEvent)
      → All (IsInside domain at) inside
      → All (IsLater domain at) later
      → Steps digest st inside st'
      → (b : Bool) × (replay digest domain at index (as_replay st seen false) (inside ++ later)
          ≡ ok (as_replay st' (seen ++ inside) b))
  unfolding replay
  issued_complete index st st' seen [] later ins lat steps =
      let (b, r) = later_complete index (as_replay st seen false) later lat in
      (b, rw (steps, append-nil) r)
  issued_complete index st st' seen (e ∷ inside) later (is_in, ins) lat (mid, live, step, steps) =
      let (b, r) =
        issued_complete (index + 1) mid st' (seen ++ (e ∷ [])) inside later ins lat steps in
      (
        b,
        rw
            (
              visit_inside index (as_replay st seen false) e is_in refl,
              replay_event_complete digest index st mid seen e live step,
            )
            (rw append_assoc at r),
      )

Steps-ne-unset :
    (digest : List (String × String) → String) (st st' : Status) (es : List LogEvent)
    → st.state ≢ unset
    → Steps digest st es st'
    → st'.state ≢ unset
Steps-ne-unset digest st st' [] h same = rw same h
Steps-ne-unset digest st st' (e ∷ es) h (mid, live, step, rest) =
    Steps-ne-unset digest mid st' es (Step-ne-unset digest st mid e live step) rest

module _ (digest : List (String × String) → String) (log : DomainLog) (at : Time) where
  concluded :
      (e : LogEvent) (es : List LogEvent) (st : Status) (b : Bool)
      → st.state ≢ unset
      → conclude log at (as_replay st (e ∷ es) b) ≡ ok (snapshot_of log at (e ∷ es) st)
  unfolding conclude
  concluded e es st b set = ground arith

  nothing_inside : (snap : DomainSnapshot) → conclude log at (passed begin true) ≢ ok snap
  unfolding conclude
  nothing_inside snap h = cc

  -- `IsSnapshot` for a list of events.
  abbrev Covers : List LogEvent → DomainSnapshot → Type 0
  Covers es snap =
      (inside : List LogEvent) × (later : List LogEvent) × (st : Status) × (es ≡ inside ++ later)
      × All (IsInside log.domain at) inside
      × All (IsLater log.domain at) later
      × History digest inside st
      × (snap ≡ snapshot_of log at inside st)

  replay_sound :
      (es : List LogEvent) (s : Replay) (snap : DomainSnapshot)
      → is_empty es ≡ false
      → replay digest log.domain at 0 begin es ≡ ok s
      → conclude log at s ≡ ok snap
      → Covers es snap
  unfolding replay
  replay_sound [] s snap p h c = cc
  replay_sound (x ∷ es) s snap p h c =
      let (mid, v, r) = bind_ok (visit digest log.domain at 0 begin x) _ h in
      elim (visit_sound digest log.domain at 0 begin mid x v) [
        | inl (later, same) ↦
            let (rest, done) =
              passed_sound digest log.domain at (0 + 1) begin s es (rw same at r) in
            absurd (nothing_inside snap (rw done at c))
        | inr (is_in, before, run) ↦
            let (first, genesis, same) = first_event_sound digest 0 x mid run in
            let set : first.state ≢ unset = λ u. cc (u, Genesis-active digest x first genesis) in
            let (inside, later, st, b, split, ins, lat, steps, set', done) =
              issued_sound digest log.domain at (0 + 1) first (x ∷ []) s es set (rw same at r) in
            (
              x ∷ inside,
              later,
              st,
              ap (λ t. x ∷ t) split,
              (is_in, ins),
              lat,
              (first, genesis, steps),
              cc (concluded x inside st b set'),
            )
      ]

  replay_complete :
      (es : List LogEvent) (snap : DomainSnapshot)
      → Covers es snap
      → (is_empty es ≡ false)
        × (s : Replay) × (replay digest log.domain at 0 begin es ≡ ok s)
        × (conclude log at s ≡ ok snap)
  unfolding replay
  replay_complete es snap ([], later, st, split, ins, lat, h, same) = absurd h
  replay_complete es snap
        (x ∷ inside, later, st, split, (is_in, ins), lat, (first, genesis, steps), same) =
      let set : first.state ≢ unset = λ u. cc (u, Genesis-active digest x first genesis) in
      let (b, r) =
        issued_complete digest log.domain at (0 + 1) first st (x ∷ []) inside later ins lat steps in
      (
        ap is_empty split,
        as_replay st (x ∷ inside) b,
        rw split (
            rw
              (
                visit_inside digest log.domain at 0 begin x is_in refl,
                first_event_complete digest 0 x first genesis,
              )
              r),
        rw same (concluded x inside st b (Steps-ne-unset digest first st inside set steps)),
      )

  -- `snapshot_at` answers with a snapshot exactly if the log is a prefix of events of its domain
  -- at or before the time, followed by events of its domain after the time, and the prefix is a
  -- history: an ISSUANCE with two distinct keys, and then events that each continue an active
  -- identity. The snapshot carries the state and the keys at the end of that history.
  pub snapshot_at-IsSnapshot :
      (snap : DomainSnapshot)
      → (snapshot_at digest log at ≡ ok snap) ↔ IsSnapshot digest log at snap
  unfolding snapshot_at
  snapshot_at-IsSnapshot snap = (sound, complete)
    where
      sound : snapshot_at digest log at ≡ ok snap → IsSnapshot digest log at snap
      sound h =
          let (p, h1) = raise_if-ok (is_empty log.events) _ _ h in
          let (s, r, c) = bind_ok (replay digest log.domain at 0 begin log.events) _ h1 in
          replay_sound log.events s snap p r c

      complete : IsSnapshot digest log at snap → snapshot_at digest log at ≡ ok snap
      complete h = let (p, s, r, c) = replay_complete log.events snap h in rw (p, r) c
