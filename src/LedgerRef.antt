-- ===== src/LedgerRef.antt =====
-- Ledger references: parse_ledger_ref and is_valid_ledger_method of dnsid/_utils.py.
mod Runs
use dnsid_py.Base.{
  ℕ, ◌≡◌, ◌↔◌, refl, Bool, true, false, not, ◌&&◌, ◌||◌, [], ◌∷◌, ◌++◌, leb, ◌==◌, arith,
  Option-cases, inl, inr,
}
use dnsid_py.Base.Decimal.{Text}
use dnsid_py.Base.Result.{Result, ok, ◌>>=◌, ◌>>◌, raise_if, some_or}
use dnsid_py.TxtRecord.Texts.{all_of, cut}
use dnsid_py.TxtRecord.Splitting.{Lacks, all_of-All, All-map, cut-append, cut_parts}

pub data LedgerRefError : Type 0 where
  no_separator bad_method : LedgerRefError

abbrev is_lower : ℕ → Bool
is_lower c = leb 97 c && leb c 122

abbrev is_method_char : ℕ → Bool
is_method_char c = is_lower c || ((leb 48 c && leb c 57) || c == 45)

unfoldable pub is_valid_ledger_method : Text → Bool
is_valid_ledger_method [] = false
is_valid_ledger_method (c ∷ cs) = is_lower c && all_of is_method_char cs

-- An empty method is not valid either, so its own message is left out.
unfoldable pub parse_ledger_ref : Text → Result LedgerRefError (Text × Text)
parse_ledger_ref lr = do
  (method, entry_ref) ← some_or (cut 58 lr) no_separator
  raise_if (not (is_valid_ledger_method method)) bad_method
  ok (method, entry_ref)

method-Lacks : (m : Text) → is_valid_ledger_method m ≡ true → Lacks 58 m
unfolding is_valid_ledger_method
method-Lacks [] h = tt
method-Lacks (c ∷ cs) h = (
  ground arith,
  All-map {P = λ x. is_method_char x ≡ true} (λ x p. ground arith) cs
      ((all_of-All is_method_char cs).0 (ground arith)),
)

-- A reference parses to a method and an entry exactly if it is the two joined by a colon and the
-- method is a valid one.
pub parse_ledger_ref_iff :
    (lr method entry_ref : Text)
    → (parse_ledger_ref lr ≡ ok (method, entry_ref))
      ↔ ((is_valid_ledger_method method ≡ true) × (lr ≡ method ++ (58 ∷ entry_ref)))
unfolding parse_ledger_ref
parse_ledger_ref_iff lr method entry_ref = (
  (λ h. elim (Option-cases (cut 58 lr)) [
    | inl q ↦ absurd (ground arith)
    | inr ((a, b), q) ↦
        let parts = cut_parts 58 lr a b q in
        let one : a ≡ method = ground arith in
        let two : b ≡ entry_ref = ground arith in (ground arith, cc)
  ]),
  (λ (h : (is_valid_ledger_method method ≡ true) × (lr ≡ method ++ (58 ∷ entry_ref))).
      rw (h.1, cut-append 58 method entry_ref (method-Lacks method h.0), h.0) refl),
)
