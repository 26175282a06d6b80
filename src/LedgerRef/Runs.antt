-- ===== src/LedgerRef/Runs.antt =====
-- Runs of parse_ledger_ref (dnsid/_utils.py).
use dnsid_py.Base.{◌≡◌, ◌↔◌, refl, true, ◌∷◌, ◌++◌}
use dnsid_py.Base.Decimal.{codes}
use dnsid_py.Base.Result.{ok, err}
use dnsid_py.TxtRecord.Texts.{all_of, cut}
use dnsid_py.LedgerRef.{
  bad_method, no_separator, is_valid_ledger_method, parse_ledger_ref, parse_ledger_ref_iff,
}

-- The first colon separates.
tlog :
    parse_ledger_ref (codes "c2sp-tlog:https://a/@3") ≡ ok (codes "c2sp-tlog", codes "https://a/@3")
unfolding parse_ledger_ref is_valid_ledger_method cut all_of
tlog = refl

upper_case : parse_ledger_ref (codes "Tlog:x") ≡ err bad_method
unfolding parse_ledger_ref is_valid_ledger_method cut all_of
upper_case = refl

unseparated : parse_ledger_ref (codes "tlog") ≡ err no_separator
unfolding parse_ledger_ref cut
unseparated = refl

parse_ledger_ref_iff_example :
    (parse_ledger_ref (codes "m:1") ≡ ok (codes "m", codes "1"))
    ↔ ((is_valid_ledger_method (codes "m") ≡ true) × (codes "m:1" ≡ codes "m" ++ (58 ∷ codes "1")))
parse_ledger_ref_iff_example = parse_ledger_ref_iff (codes "m:1") (codes "m") (codes "1")
