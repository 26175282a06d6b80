-- ===== src/Reader/Whole.antt =====
-- A snapshot at the last event of a history covers the whole of it (dnsid/c2sp_tlog/reader.py).
use dnsid_py.Base.{
  ◌≤◌, ◌≡◌, refl, sym, ap, ◌∙◌, String, true, some, List, [], ◌∷◌, ◌++◌, append-nil, max, All,
  Option-cases, inl, inr, arith,
}
use mathlib.Core.Path.{subst}
use dnsid_py.Base.Result.{ok, Result-cases}
use dnsid_py.Events.{Time, LogEvent, domain_of, timestamp_of}
use dnsid_py.DomainLog.{
  DomainLog, DomainSnapshot, HistoricalState, active, unset, revoked, retired, snapshot_at,
}
use dnsid_py.DomainLog.History.{Status, IsInside, IsLater, History, snapshot_of}
use dnsid_py.DomainLog.Correct.{snapshot_at-IsSnapshot}
use dnsid_py.Reader.{latest, is_active, active_snapshot}

-- An event of the domain.
abbrev pub IsOf : String → LogEvent → Type 0
IsOf domain e = domain_of e ≡ some domain

inside-IsOf :
    (domain : String) (at : Time) (es : List LogEvent)
    → All (IsInside domain at) es
    → All (IsOf domain) es
inside-IsOf domain at [] h = tt
inside-IsOf domain at (e ∷ es) ((p, t, q, le), hs) = (p, inside-IsOf domain at es hs)

abbrev IsBefore : Time → LogEvent → Type 0
IsBefore at e = (t : Time) × (timestamp_of e ≡ some t) × (t ≤ at)

later-IsBefore :
    (a b : Time) (es : List LogEvent) → a ≤ b → All (IsBefore a) es → All (IsBefore b) es
later-IsBefore a b [] h hs = tt
later-IsBefore a b (e ∷ es) h ((t, p, q), hs) = ((t, p, omega arith), later-IsBefore a b es h hs)

latest-IsBefore : (es : List LogEvent) (at : Time) → latest es ≡ ok at → All (IsBefore at) es
unfolding latest
latest-IsBefore [] at h = cc
latest-IsBefore (e ∷ []) at h = elim (Option-cases (timestamp_of e)) [
  | inl q ↦ absurd (ground arith)
  | inr (t, q) ↦ ((t, q, ground arith), tt)
]
latest-IsBefore (e ∷ x ∷ rest) at h = elim (Option-cases (timestamp_of e)) [
  | inl q ↦ absurd (ground arith)
  | inr (t, q) ↦ elim (Result-cases (latest (x ∷ rest))) [
    | inr (y, r) ↦ absurd (ground arith)
    | inl (u, r) ↦
        let top : max t u ≡ at = ground arith in
        (
          (t, q, ground (arith, top)),
          later-IsBefore u at (x ∷ rest) (ground (arith, top)) (latest-IsBefore (x ∷ rest) u r),
        )
  ]
]

-- Nothing of a list of events at or before a time is after it.
none_later :
    (domain : String) (at : Time) (inside later es : List LogEvent)
    → es ≡ inside ++ later
    → All (IsBefore at) es
    → All (IsLater domain at) later
    → es ≡ inside
none_later domain at inside [] es split before after = split ∙ append-nil inside
none_later domain at [] (e ∷ later) es split before ((dom, t, p, q), after) =
    let ((u, r, s), rest) = subst (All (IsBefore at)) split before in absurd (ground arith)
none_later domain at (x ∷ inside) (e ∷ later) [] split before after = cc
none_later domain at (x ∷ inside) (e ∷ later) (y ∷ es) split (b, before) after =
    let heads : y ≡ x = cc in
    let same = none_later domain at inside (e ∷ later) es (cc) before after in cc

module _ (digest : List (String × String) → String) where
  -- If the snapshot at the last event is active, the events are one whole history of the domain,
  -- at whose end the identity is active with the keys of the snapshot.
  pub active_snapshot-History :
      (domain : String) (events : List LogEvent) (snap : DomainSnapshot)
      → active_snapshot digest domain events ≡ ok snap
      → (st : Status) × History digest events st
        × (st.state ≡ active)
        × (snap.active_key_thumbprint ≡ st.active_key_thumbprint)
        × (snap.events ≡ events)
        × All (IsOf domain) events
  unfolding active_snapshot
  active_snapshot-History domain events snap h = elim (Result-cases (latest events)) [
    | inr (x, q) ↦ absurd (ground arith)
    | inl (at, q) ↦
        let log : DomainLog = record { domain = domain; events = events } in
        elim (Result-cases (snapshot_at digest log at)) [
          | inr (x, r) ↦ absurd (ground arith)
          | inl (found, r) ↦
              let same : found ≡ snap = ground arith in
              let (inside, later, st, split, ins, lat, history, shape) =
                (snapshot_at-IsSnapshot digest log at found).0 r in
              let whole : events ≡ inside =
                none_later domain at inside later events split (latest-IsBefore events at q) lat in
              let found_shape : snap ≡ snapshot_of log at inside st = sym same ∙ shape in
              let awake : is_active found.historical_state ≡ true = ground arith in
              (
                st,
                subst (λ l. History digest l st) (sym whole) history,
                active_lem st.state
                    (sym (ap (λ (s : DomainSnapshot). is_active s.historical_state) shape) ∙ awake),
                ap (λ (s : DomainSnapshot). s.active_key_thumbprint) found_shape,
                ap (λ (s : DomainSnapshot). s.events) found_shape ∙ sym whole,
                subst (All (IsOf domain)) (sym whole) (inside-IsOf domain at inside ins),
              )
        ]
  ]
    where
      active_lem : (s : HistoricalState) → is_active s ≡ true → s ≡ active
      active_lem active h = refl
      active_lem unset h = cc
      active_lem revoked h = cc
      active_lem retired h = cc
