-- ===== src/Lifecycle/Select/Trusted.antt =====
-- The keys that a selection has recorded (dnsid/c2sp_tlog/stream_verifier.py): its entity keys are
-- the pinned one, and its operational keys come from entries of the scan or a previous log.
use dnsid_py.Base.{str_eq}
use dnsid_py.Base.{
  ◌≡◌, refl, ap, sym, ◌∙◌, String, true, false, Option, none, some, List, [], ◌∷◌, ◌++◌, Bytes, All,
  In, ◌⊎◌, inl, inr, arith, eq_iff, Option-cases,
}
use mathlib.Core.Path.{subst}
use dnsid_py.Base.Result.{Result, ok, Result-cases}
use dnsid_py.Keys.{Jwk, thumbprint}
use dnsid_py.Events.{
  MigrationEvent, LogEvent, issuance, key_rotation, revocation, retirement, migration, delegation,
  foreign,
}
use dnsid_py.StreamBundle.{IndexedEntry}
use dnsid_py.TxtRecord.Elements.{All-join}
use dnsid_py.Lifecycle.{VerifiedLifecycleEvent, LifecycleError, Options, Decoders}
use dnsid_py.Lifecycle.Candidate.{applied_keys}
use dnsid_py.Lifecycle.Candidate.Charge.{IsLastKey, Begins, applied_keys-InCharge}
use dnsid_py.Lifecycle.Select.Selected.{IsApplied, Selects}
use dnsid_py.Lifecycle.Select.{got, Codec, issuance_is_authenticated, authenticated, lifecycle_keys}

pub All-at :
    {A : Type 0} (P : A → Type 0) (xs before after : List A) (x : A)
    → All P xs
    → xs ≡ before ++ (x ∷ after)
    → P x
All-at P [] [] after x h split = cc
All-at P [] (b ∷ before) after x h split = cc
All-at P (y ∷ xs) [] after x (h, hs) split = let same : y ≡ x = cc in subst P same h
All-at P (y ∷ xs) (b ∷ before) after x (h, hs) split = All-at P xs before after x hs (cc)

snoc-injective : {A : Type 0} (xs ys : List A) (x y : A) → xs ++ (x ∷ []) ≡ ys ++ (y ∷ []) → x ≡ y
snoc-injective [] [] x y h = cc
snoc-injective [] (b ∷ []) x y h = cc
snoc-injective [] (b ∷ c ∷ ys) x y h = cc
snoc-injective (a ∷ []) [] x y h = cc
snoc-injective (a ∷ b ∷ xs) [] x y h = cc
snoc-injective (a ∷ xs) (b ∷ ys) x y h = snoc-injective xs ys x y (cc)

-- The operational key that an event brings in.
abbrev pub Brings : LogEvent → Jwk → Type 0
Brings (issuance e) key = e.operational_key ≡ some key
Brings (key_rotation e) key = e.new_public_key ≡ some key
Brings _ key = ⊥

module _ (d : Decoders) (opts : Options) (leaf : Bytes → Bytes) (c : Codec) (domain : String)
    (entries : List IndexedEntry) (pin : Jwk) where
  abbrev pub IsPinned : Jwk → Type 0
  IsPinned key = thumbprint d.digest key ≡ thumbprint d.digest pin

  -- An operational key that an event of the scan brings in, or that a previous log hands over.
  abbrev pub IsCarried : Jwk → Type 0
  IsCarried key =
      ((entry : IndexedEntry) × (event : LogEvent) × In entry entries
        × (c.read_event entry.data_bytes ≡ got event)
        × Brings event key)
      ⊎ ((verify_migration : MigrationEvent → Result LifecycleError (Jwk × Jwk))
          × (e : MigrationEvent) × (entity : Jwk) × (opts.verify_migration ≡ some verify_migration)
          × (verify_migration e ≡ ok (entity, key)))

  -- The previous log of a migration hands over the pinned entity key.
  abbrev pub KeepsPin : Type 0
  KeepsPin =
      (verify_migration : MigrationEvent → Result LifecycleError (Jwk × Jwk)) (e : MigrationEvent)
      (entity operational : Jwk)
      → opts.verify_migration ≡ some verify_migration
      → verify_migration e ≡ ok (entity, operational)
      → IsPinned entity

  abbrev pub IsRead : VerifiedLifecycleEvent → Type 0
  IsRead v =
      (entry : IndexedEntry) × In entry entries
      × (v.data_bytes ≡ entry.data_bytes)
      × (c.read_event entry.data_bytes ≡ got v.event)

  abbrev pub IsRecorded : VerifiedLifecycleEvent → Type 0
  IsRecorded v =
      IsRead v
      × ((keys : Jwk × Jwk) × (v.post_keys ≡ some keys) × IsPinned keys.0 × IsCarried keys.1)

  abbrev pub IsPinnedStart : LogEvent → Type 0
  IsPinnedStart event =
      (entity operational : Jwk) → Begins d opts event entity operational → IsPinned entity

  abbrev pub StartsPinned : List VerifiedLifecycleEvent → Type 0
  StartsPinned [] = Unit {0}
  StartsPinned (v ∷ vs) = IsPinnedStart v.event

  abbrev pub IsTrusted : List VerifiedLifecycleEvent → Type 0
  IsTrusted selected = All IsRecorded selected × StartsPinned selected

  Begins-IsCarried :
      (v : VerifiedLifecycleEvent) (event : LogEvent) (entity operational : Jwk)
      → v.event ≡ event
      → IsRead v
      → Begins d opts event entity operational
      → IsCarried operational
  Begins-IsCarried v (issuance e) entity operational same (entry, place, bytes, read) (a, b) =
      inl (entry, issuance e, place, read ∙ ap got same, b)
  Begins-IsCarried v (migration e) entity operational same read (verify_migration, given, done) =
      inr (verify_migration, e, entity, given, done)
  Begins-IsCarried v (key_rotation e) entity operational same read h = absurd h
  Begins-IsCarried v (revocation e) entity operational same read h = absurd h
  Begins-IsCarried v (retirement e) entity operational same read h = absurd h
  Begins-IsCarried v (delegation e) entity operational same read h = absurd h
  Begins-IsCarried v (foreign f t) entity operational same read h = absurd h

  IsLastKey-IsCarried :
      (initial key : Jwk) (items : List VerifiedLifecycleEvent)
      → IsCarried initial
      → All IsRead items
      → IsLastKey initial items key
      → IsCarried key
  IsLastKey-IsCarried initial key items carried reads (inl (still, same)) =
      subst IsCarried (sym same) carried
  IsLastKey-IsCarried initial key items carried reads
        (inr (before, v, after, e, split, is, given, rest)) =
      let (entry, place, bytes, read) = All-at IsRead items before after v reads split in
      inl (entry, key_rotation e, place, read ∙ ap got is, given)

  -- The keys in charge after a candidate that has none recorded.
  applied_keys-trusted :
      (first item : VerifiedLifecycleEvent) (rest front : List VerifiedLifecycleEvent)
      (keys : Jwk × Jwk)
      → IsRead first
      → All IsRead rest
      → IsPinnedStart first.event
      → first ∷ rest ≡ front ++ (item ∷ [])
      → item.post_keys ≡ none
      → applied_keys d opts first rest ≡ ok keys
      → IsPinned keys.0 × IsCarried keys.1
  applied_keys-trusted first item rest front keys read reads pinned split fresh h =
      let (v, (front', last), charge) = applied_keys-InCharge d opts first rest keys h in
      let same : v ≡ item = snoc-injective front' front v item (sym last ∙ split) in
      let bare : v.post_keys ≡ none =
        ap (λ (u : VerifiedLifecycleEvent). u.post_keys) same ∙ fresh in
      elim charge [
        | inl recorded ↦ absurd (ground (arith, bare, recorded))
        | inr (operational, empty, begins, last_key) ↦ (
          pinned keys.0 operational begins,
          IsLastKey-IsCarried operational keys.1 rest
              (Begins-IsCarried first first.event keys.0 operational refl read begins) reads
              last_key,
        )
      ]

  pub thumb_lem :
      (entity key : Jwk)
      → elim (thumbprint d.digest entity) [
        | none ↦ false
        | some s ↦ elim (thumbprint d.digest key) [ none ↦ false | some t ↦ str_eq s t ]
      ]
        ≡ true
      → thumbprint d.digest entity ≡ thumbprint d.digest key
  thumb_lem entity key h = elim (Option-cases (thumbprint d.digest entity)) [
    | inl p ↦ absurd (ground arith)
    | inr (s, p) ↦ elim (Option-cases (thumbprint d.digest key)) [
      | inl q ↦ absurd (ground arith)
      | inr (t, q) ↦ ground (arith, eq_iff s t)
    ]
  ]

  -- The first selected event begins with the pinned entity key.
  authenticated-IsPinnedStart :
      (item : VerifiedLifecycleEvent) (event : LogEvent)
      → opts.signer_key ≡ some pin
      → KeepsPin
      → item.event ≡ event
      → authenticated d opts c item [] ≡ ok true
      → IsPinnedStart event
  unfolding authenticated issuance_is_authenticated
  authenticated-IsPinnedStart item (issuance e) pins keeps same h entity operational (a, b) =
      thumb_lem entity pin (ground (arith, same, a, b, pins))
  authenticated-IsPinnedStart item (migration e) pins keeps same h entity operational
        (verify_migration, given, done) =
      keeps verify_migration e entity operational given done
  authenticated-IsPinnedStart item (key_rotation e) pins keeps same h entity operational b =
      absurd b
  authenticated-IsPinnedStart item (revocation e) pins keeps same h entity operational b = absurd b
  authenticated-IsPinnedStart item (retirement e) pins keeps same h entity operational b = absurd b
  authenticated-IsPinnedStart item (delegation e) pins keeps same h entity operational b = absurd b
  authenticated-IsPinnedStart item (foreign f t) pins keeps same h entity operational b = absurd b

  All-IsRead : (vs : List VerifiedLifecycleEvent) → All IsRecorded vs → All IsRead vs
  All-IsRead [] h = tt
  All-IsRead (v ∷ vs) ((read, keys), hs) = (read, All-IsRead vs hs)

  -- The event that was applied after `first ∷ rest`, where `item` is the last of these.
  applied-IsRecorded :
      (selected rest front : List VerifiedLifecycleEvent) (first item v : VerifiedLifecycleEvent)
      (keys : Option (Jwk × Jwk))
      → selected ++ (item ∷ []) ≡ first ∷ rest
      → first ∷ rest ≡ front ++ (item ∷ [])
      → v ≡ record item { post_keys = keys }
      → item.post_keys ≡ none
      → lifecycle_keys d opts (selected ++ (item ∷ [])) ≡ ok keys
      → IsRead first
      → All IsRead rest
      → IsPinnedStart first.event
      → IsRead v
      → IsRecorded v
  applied-IsRecorded selected rest front first item v keys whole split shape bare found read reads
        begins v_read =
      elim (Result-cases (applied_keys d opts first rest)) [
        | inr (x, q) ↦ absurd (ground (arith, whole))
        | inl (ks, q) ↦
            let is : keys ≡ some ks = ground (arith, whole) in
            let (pinned, carried) =
              applied_keys-trusted first item rest front ks read reads begins split bare q in
            (
              v_read,
              (ks, ap (λ (u : VerifiedLifecycleEvent). u.post_keys) shape ∙ is, pinned, carried),
            )
      ]

  bare-IsRead :
      (item v : VerifiedLifecycleEvent) (keys : Option (Jwk × Jwk))
      → v ≡ record item { post_keys = keys }
      → IsRead v
      → IsRead item
  bare-IsRead item v keys shape (entry, place, bytes, read) = (
    entry,
    place,
    sym (ap (λ (u : VerifiedLifecycleEvent). u.data_bytes) shape) ∙ bytes,
    read ∙ ap got (ap (λ (u : VerifiedLifecycleEvent). u.event) shape),
  )

  applied-IsTrusted :
      (selected : List VerifiedLifecycleEvent) (item v : VerifiedLifecycleEvent)
      → opts.signer_key ≡ some pin
      → KeepsPin
      → IsRead v
      → IsTrusted selected
      → IsApplied d opts leaf c domain selected item v
      → IsTrusted (selected ++ (v ∷ []))
  applied-IsTrusted [] item v pins keeps v_read trusted (keys, shape, bare, auth, found) =
      let event_of : v.event ≡ item.event = ap (λ (u : VerifiedLifecycleEvent). u.event) shape in
      let begins = authenticated-IsPinnedStart item item.event pins keeps refl auth in
      (
        (
          applied-IsRecorded [] [] [] item item v keys refl refl shape bare found
              (bare-IsRead item v keys shape v_read) tt begins v_read,
          tt,
        ),
        subst IsPinnedStart (sym event_of) begins,
      )
  applied-IsTrusted (first ∷ rest) item v pins keeps v_read ((h, hs), start)
        (keys, shape, bare, auth, found) =
      (
        (
          h,
          All-join IsRecorded rest (v ∷ []) hs (
            applied-IsRecorded (first ∷ rest) (rest ++ (item ∷ [])) (first ∷ rest) first item v keys
                refl refl shape bare found h.0
                (All-join IsRead rest (item ∷ []) (All-IsRead rest hs)
                  (bare-IsRead item v keys shape v_read, tt))
                start v_read,
            tt,
          ),
        ),
        start,
      )

  -- A round of the loop over an entry of the scan keeps the selection trusted.
  pub Selects-IsTrusted :
      (entry : IndexedEntry) (selected next : List VerifiedLifecycleEvent)
      → opts.signer_key ≡ some pin
      → KeepsPin
      → In entry entries
      → IsTrusted selected
      → Selects d opts leaf c domain entry selected next
      → IsTrusted next
  Selects-IsTrusted entry selected next pins keeps place trusted (inl same) =
      subst IsTrusted (sym same) trusted
  Selects-IsTrusted entry selected next pins keeps place trusted
        (inr (v, item, grown, (index, bytes, read, ours), fresh, applied)) =
      subst IsTrusted (sym grown)
        (applied-IsTrusted selected item v pins keeps (entry, place, bytes, read) trusted applied)
