-- ===== src/StreamBundle/Sorting.antt =====
-- Sorting the entries of a scan by their index (dnsid/c2sp_tlog/stream_source.py).
use dnsid_py.Base.{◌≡◌, refl, ap, List, [], ◌∷◌, ◌++◌, All, In, inl, inr, leb, Bool-cases}
use dnsid_py.StreamBundle.{IndexedEntry, insert_entry, sort_entries}

insert_entry-All :
    (P : IndexedEntry → Type 0) (e : IndexedEntry) (xs : List IndexedEntry)
    → P e
    → All P xs
    → All P (insert_entry e xs)
unfolding insert_entry
insert_entry-All P e [] p h = (p, tt)
insert_entry-All P e (x ∷ xs) p (h, hs) = elim (Bool-cases (leb e.index x.index)) [
  | inl q ↦ rw q ((p, (h, hs)))
  | inr q ↦ rw q ((h, insert_entry-All P e xs p hs))
]

pub sort_entries-All :
    (P : IndexedEntry → Type 0) (xs : List IndexedEntry) → All P xs → All P (sort_entries xs)
unfolding sort_entries
sort_entries-All P [] h = tt
sort_entries-All P (x ∷ xs) (h, hs) =
    insert_entry-All P x (sort_entries xs) h (sort_entries-All P xs hs)

pub All-In :
    (P : IndexedEntry → Type 0) (xs : List IndexedEntry)
    → ((e : IndexedEntry) → In e xs → P e)
    → All P xs
All-In P [] f = tt
All-In P (x ∷ xs) f = (f x (inl refl), All-In P xs (λ e p. f e (inr p)))

-- An inserted entry stands somewhere among the others, whose order does not change.
pub insert_entry-split :
    (e : IndexedEntry) (xs : List IndexedEntry)
    → (before : List IndexedEntry) × (after : List IndexedEntry) × (xs ≡ before ++ after)
      × (insert_entry e xs ≡ before ++ (e ∷ after))
unfolding insert_entry
insert_entry-split e [] = ([], [], refl, refl)
insert_entry-split e (x ∷ xs) = elim (Bool-cases (leb e.index x.index)) [
  | inl q ↦ ([], x ∷ xs, refl, rw q refl)
  | inr q ↦
      let (before, after, whole, grown) = insert_entry-split e xs in
      (x ∷ before, after, ap (λ l. x ∷ l) whole, rw q (ap (λ l. x ∷ l) grown))
]
