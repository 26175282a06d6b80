-- ===== src/Lifecycle/Select/Selected.antt =====
-- What the selection returns (dnsid/c2sp_tlog/stream_verifier.py).
use dnsid_py.Base.{
  ℕ, ◌≡◌, ◌≢◌, refl, sym, String, Bool, true, false, not, ◌&&◌, Option, none, some, List, [], ◌∷◌,
  ◌++◌, Bytes, All, In, Bool-cases, Option-cases, inl, inr, ◌⊎◌, arith, eq_iff,
}
use mathlib.Core.Path.{subst}
use dnsid_py.Base.Result.{ok, Result-cases}
use dnsid_py.Keys.{Jwk}
use dnsid_py.Events.{LogEvent, domain_of}
use dnsid_py.StreamBundle.{IndexedEntry, sort_entries}
use dnsid_py.StreamBundle.Sorting.{sort_entries-All, All-In}
use dnsid_py.Lifecycle.{Chain, VerifiedLifecycleEvent, Options, Decoders, is_text}
use dnsid_py.TxtRecord.Elements.{All-join}
use dnsid_py.Lifecycle.Verify.{verify_lifecycle}
use dnsid_py.Lifecycle.Select.{
  Reading, got, failed, limit, Codec, no_chain, is_empty, may_start, has_id, applied_event,
  candidate_of, malformed_authenticated, authenticated, apply_candidate, consider, select_new,
  select_entry, select_entries, lifecycle_keys, verify_stream_lifecycle,
}

pub Reading-cases :
    {A : Type 0} (r : Reading A) → ((a : A) × (r ≡ got a)) ⊎ ((r ≡ failed) ⊎ (r ≡ limit))
Reading-cases (got a) = inl (a, refl)
Reading-cases failed = inr (inl refl)
Reading-cases limit = inr (inr refl)

module _ (d : Decoders) (opts : Options) (leaf : Bytes → Bytes) (c : Codec) (domain : String) where
  -- An event of the domain that was read from an entry.
  abbrev pub IsReadFrom : VerifiedLifecycleEvent → IndexedEntry → Type 0
  IsReadFrom v entry =
      (v.index ≡ entry.index)
      × (v.data_bytes ≡ entry.data_bytes)
      × (c.read_event entry.data_bytes ≡ got v.event)
      × (domain_of v.event ≡ some domain)

  -- No event has the id.
  abbrev pub IsNew : Option String → List VerifiedLifecycleEvent → Type 0
  IsNew id vs = All (λ v. d.event_id v.data_bytes ≢ id) vs

  -- No two events have one id.
  abbrev pub UniqueIds : List VerifiedLifecycleEvent → Type 0
  UniqueIds [] = Unit {0}
  UniqueIds (v ∷ vs) = IsNew (d.event_id v.data_bytes) vs × UniqueIds vs

  applied_event-IsNew :
      (id : String) (vs : List VerifiedLifecycleEvent)
      → applied_event d opts id vs ≡ none
      → IsNew (some id) vs
  unfolding applied_event
  applied_event-IsNew id [] h = tt
  applied_event-IsNew id (v ∷ vs) h = elim (Bool-cases (has_id d opts id v)) [
    | inl q ↦ absurd (ground arith)
    | inr q ↦ (
      (λ (same : d.event_id v.data_bytes ≡ some id). ground (arith, same, eq_iff id id)),
      applied_event-IsNew id vs (ground arith),
    )
  ]

  -- The candidate has no keys yet, was authenticated, and is given the keys in charge after it.
  abbrev pub IsApplied :
      List VerifiedLifecycleEvent → VerifiedLifecycleEvent → VerifiedLifecycleEvent → Type 0
  IsApplied selected item v =
      (keys : Option (Jwk × Jwk)) × (v ≡ record item { post_keys = keys })
      × (item.post_keys ≡ none)
      × (authenticated d opts c item selected ≡ ok true)
      × (lifecycle_keys d opts (selected ++ (item ∷ [])) ≡ ok keys)

  -- Either nothing is selected, or the entry's event, and its id is new.
  abbrev pub Selects :
      IndexedEntry → List VerifiedLifecycleEvent → List VerifiedLifecycleEvent → Type 0
  Selects entry selected next =
      (next ≡ selected)
      ⊎ ((v : VerifiedLifecycleEvent) × (item : VerifiedLifecycleEvent) × (next
            ≡ selected ++ (v ∷ []))
          × IsReadFrom v entry
          × IsNew (d.event_id entry.data_bytes) selected
          × IsApplied selected item v)

  apply_candidate-grows :
      (item : VerifiedLifecycleEvent) (chain_failed : Bool)
      (selected next : List VerifiedLifecycleEvent)
      → apply_candidate d opts item chain_failed selected ≡ ok next
      → (keys : Option (Jwk × Jwk)) × (next ≡ selected ++ (record item { post_keys = keys } ∷ []))
        × (lifecycle_keys d opts (selected ++ (item ∷ [])) ≡ ok keys)
  unfolding apply_candidate
  apply_candidate-grows item chain_failed selected next h =
      elim (Result-cases (verify_lifecycle d opts (selected ++ (item ∷ [])))) [
        | inr (x, q) ↦ absurd (ground arith)
        | inl (u, q) ↦ elim (Result-cases (lifecycle_keys d opts (selected ++ (item ∷ [])))) [
          | inr (x, r) ↦ absurd (ground arith)
          | inl (keys, r) ↦ (keys, ground arith, r)
        ]
      ]

  consider-grows :
      (item : VerifiedLifecycleEvent) (chain_failed : Bool)
      (selected next : List VerifiedLifecycleEvent)
      → consider d opts c item chain_failed selected ≡ ok next
      → (next ≡ selected)
        ⊎ ((keys : Option (Jwk × Jwk)) × (next
              ≡ selected ++ (record item { post_keys = keys } ∷ []))
            × (lifecycle_keys d opts (selected ++ (item ∷ [])) ≡ ok keys)
            × (authenticated d opts c item selected ≡ ok true))
  unfolding consider
  consider-grows item chain_failed selected next h =
      elim (Bool-cases (is_empty selected && not (may_start item.event))) [
        | inl p ↦ inl (ground arith)
        | inr p ↦ elim (Result-cases (authenticated d opts c item selected)) [
          | inr (x, q) ↦ absurd (ground arith)
          | inl (true, q) ↦
              let (keys, grown, r) =
                apply_candidate-grows item chain_failed selected next (ground arith) in
              inr (keys, grown, r, q)
          | inl (false, q) ↦ inl (ground arith)
        ]
      ]

  is_text-some : (o : Option String) (t : String) → is_text o t ≡ true → o ≡ some t
  is_text-some none t h = cc
  is_text-some (some s) t h = ground (arith, eq_iff s t)

  select_new-Selects :
      (entry : IndexedEntry) (selected next : List VerifiedLifecycleEvent)
      → IsNew (d.event_id entry.data_bytes) selected
      → select_new d opts leaf c domain entry selected ≡ ok next
      → Selects entry selected next
  unfolding select_new
  select_new-Selects entry selected next fresh h =
      elim (Reading-cases (c.read_event entry.data_bytes)) [
        | inl (event, p) ↦ elim (Bool-cases (is_text (domain_of event) domain)) [
          | inr q ↦ inl (ground arith)
          | inl q ↦
              let ours = is_text-some (domain_of event) domain q in
              elim (Reading-cases (c.read_chain entry.data_bytes)) [
                | inl (chain, r) ↦ appended event chain false p ours (
                    consider-grows (candidate_of d opts entry (leaf entry.data_bytes) event chain)
                      false selected next (ground arith))
                | inr (inl r) ↦ appended event no_chain true p ours (
                    consider-grows
                      (candidate_of d opts entry (leaf entry.data_bytes) event no_chain) true
                      selected next (ground arith))
                | inr (inr r) ↦ absurd (ground arith)
              ]
        ]
        | inr (inl p) ↦
            elim (Bool-cases (malformed_authenticated d opts c entry.data_bytes domain selected)) [
              | inl q ↦ absurd (ground arith)
              | inr q ↦ inl (ground arith)
            ]
        | inr (inr p) ↦ absurd (ground arith)
      ]
    where
      appended :
          (event : LogEvent) (chain : Chain) (bad : Bool)
          → c.read_event entry.data_bytes ≡ got event
          → domain_of event ≡ some domain
          → (next ≡ selected)
            ⊎ ((keys : Option (Jwk × Jwk)) × (next
                  ≡ selected
                    ++ (record (candidate_of d opts entry (leaf entry.data_bytes) event chain) {
                      post_keys = keys;
                    }
                        ∷ []))
                × (lifecycle_keys d opts (
                      selected
                      ++ (candidate_of d opts entry (leaf entry.data_bytes) event chain ∷ []))
                    ≡ ok keys)
                × (authenticated d opts c
                      (candidate_of d opts entry (leaf entry.data_bytes) event chain)
                      selected
                    ≡ ok true))
          → Selects entry selected next
      appended event chain bad p ours (inl same) = inl same
      appended event chain bad p ours (inr (keys, grown, r, q)) = inr (
        record (candidate_of d opts entry (leaf entry.data_bytes) event chain) { post_keys = keys },
        candidate_of d opts entry (leaf entry.data_bytes) event chain,
        grown,
        (refl, refl, p, ours),
        fresh,
        (keys, refl, refl, q, r),
      )

  pub select_entry-Selects :
      (entry : IndexedEntry) (selected next : List VerifiedLifecycleEvent)
      → select_entry d opts leaf c domain entry selected ≡ ok next
      → Selects entry selected next
  unfolding select_entry
  select_entry-Selects entry selected next h =
      elim (Reading-cases (c.read_public entry.data_bytes)) [
        | inr (inl p) ↦ inl (ground arith)
        | inr (inr p) ↦ absurd (ground arith)
        | inl (fqdn, p) ↦ elim (Option-cases (d.signed_bytes entry.data_bytes)) [
          | inl q ↦ inl (ground arith)
          | inr (payload, q) ↦ elim (Option-cases (d.event_id entry.data_bytes)) [
            | inl r ↦ inl (ground arith)
            | inr (id, r) ↦ elim (Option-cases (applied_event d opts id selected)) [
              | inr (v, s) ↦ elim (Bool-cases (is_text fqdn domain)) [
                | inr t ↦ inl (ground arith)
                | inl t ↦ elim (Option-cases (d.signed_bytes v.data_bytes)) [
                  | inl u ↦ absurd (ground arith)
                  | inr (earlier, u) ↦ inl (ground arith)
                ]
              ]
              | inl s ↦ elim (Bool-cases (is_text fqdn domain)) [
                | inr t ↦ inl (ground arith)
                | inl t ↦
                    select_new-Selects entry selected next
                      (subst (λ o. IsNew o selected) (sym r) (applied_event-IsNew id selected s))
                      (ground arith)
              ]
            ]
          ]
        ]
      ]

  snoc-UniqueIds :
      (vs : List VerifiedLifecycleEvent) (v : VerifiedLifecycleEvent)
      → UniqueIds vs
      → IsNew (d.event_id v.data_bytes) vs
      → UniqueIds (vs ++ (v ∷ []))
  snoc-UniqueIds [] v h k = (tt, tt)
  snoc-UniqueIds (x ∷ vs) v (h, hs) (k, ks) =
      (All-snoc vs v h (λ e. k (sym e)), snoc-UniqueIds vs v hs ks)
    where
      All-snoc :
          (us : List VerifiedLifecycleEvent) (v : VerifiedLifecycleEvent)
          → IsNew (d.event_id x.data_bytes) us
          → d.event_id v.data_bytes ≢ d.event_id x.data_bytes
          → IsNew (d.event_id x.data_bytes) (us ++ (v ∷ []))
      All-snoc [] v a b = (b, tt)
      All-snoc (u ∷ us) v (a, more) b = (a, All-snoc us v more b)

  -- What holds of the events selected so far.
  abbrev IsSelection : List IndexedEntry → List VerifiedLifecycleEvent → Type 0
  IsSelection entries selected =
      UniqueIds selected
      × All (λ v. (entry : IndexedEntry) × In entry entries × IsReadFrom v entry) selected

  select_entry-IsSelection :
      (entries : List IndexedEntry) (entry : IndexedEntry)
      (selected next : List VerifiedLifecycleEvent)
      → In entry entries
      → IsSelection entries selected
      → Selects entry selected next
      → IsSelection entries next
  select_entry-IsSelection entries entry selected next place base (inl same) =
      subst (IsSelection entries) (sym same) base
  select_entry-IsSelection entries entry selected next place (unique, origins)
        (inr (v, item, grown, (index, bytes, event, ours), fresh, applied)) =
      rw grown (
        (
          snoc-UniqueIds selected v unique
              (subst (λ b. IsNew (d.event_id b) selected) (sym bytes) fresh),
          All-join _ selected (v ∷ []) origins ((entry, place, (index, bytes, event, ours)), tt),
        ))

  select_entries-IsSelection :
      (entries todo : List IndexedEntry) (selected next : List VerifiedLifecycleEvent)
      → All (λ entry. In entry entries) todo
      → IsSelection entries selected
      → select_entries d opts leaf c domain todo selected ≡ ok next
      → IsSelection entries next
  unfolding select_entries
  select_entries-IsSelection entries [] selected next places base h =
      subst (IsSelection entries) (ground arith) base
  select_entries-IsSelection entries (entry ∷ todo) selected next (place, places) base h =
      elim (Result-cases (select_entry d opts leaf c domain entry selected)) [
        | inr (x, q) ↦ absurd (ground arith)
        | inl (mid, q) ↦
            select_entries-IsSelection entries todo mid next places
              (select_entry-IsSelection entries entry selected mid place base
                (select_entry-Selects entry selected mid q))
              (ground arith)
      ]

  -- If `verify_stream_lifecycle` returns, `verify_lifecycle` accepts the selected events, no two of
  -- them have the same id, and each was read from an entry of the scan, with its index, and is an
  -- event of the domain.
  pub verify_stream_lifecycle-IsSelection :
      (max_entries max_entry_bytes : ℕ) (entries : List IndexedEntry)
      (selected : List VerifiedLifecycleEvent)
      → verify_stream_lifecycle d opts leaf c max_entries max_entry_bytes domain entries
        ≡ ok selected
      → (verify_lifecycle d opts selected ≡ ok tt)
        × UniqueIds selected
        × All (λ v. (entry : IndexedEntry) × In entry entries × IsReadFrom v entry) selected
  unfolding verify_stream_lifecycle
  verify_stream_lifecycle-IsSelection max_entries max_entry_bytes entries selected h =
      elim (Result-cases (select_entries d opts leaf c domain (sort_entries entries) [])) [
        | inr (x, q) ↦ absurd (ground arith)
        | inl (found, q) ↦ elim (Result-cases (verify_lifecycle d opts found)) [
          | inr (x, r) ↦ absurd (ground arith)
          | inl (u, r) ↦
              let same : found ≡ selected = ground arith in
              let (unique, origins) =
                select_entries-IsSelection entries (sort_entries entries) [] found
                  (sort_entries-All _ entries (All-In _ entries (λ e place. place))) (tt, tt) q in
              (
                subst (λ l. verify_lifecycle d opts l ≡ ok tt) same r,
                subst UniqueIds same unique,
                subst (All (λ v. (entry : IndexedEntry) × In entry entries × IsReadFrom v entry))
                    same origins,
              )
        ]
      ]
