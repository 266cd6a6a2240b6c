-- ===== src/Coverage/Tests.antt =====
-- A short history of the tracker, and its theorems there.
use scrutineer.Prelude.{
  ◌≡◌, refl, false, none, some, List, [], ◌∷◌, lookup, insert, Str, codes, str_eq, sum,
}
use scrutineer.Coverage.{
  SuiteCoverage, find_test, new_tracker, register_suite, register_test, add_test, update_test,
  record_test_run, record_step, results, total_ran, report_suites, report_suite, report_tests,
  count_if,
}
use scrutineer.Coverage.Frame.{
  Event, suite_registered, test_registered, test_ran, step_done, apply, apply_all, knows,
}
use scrutineer.Coverage.Counts.{Ledger, find_test-apply_all}
use scrutineer.Coverage.Order.{registered_names}
use scrutineer.Coverage.Report.{Lines, results_total}

abbrev auth : Str
auth = codes "auth"

abbrev login : Str
login = codes "login"

abbrev history : List Event
history =
    suite_registered auth 2
    ∷ test_registered auth login 3 1
    ∷ test_registered auth (codes "out") 1 0
    ∷ step_done auth login
    ∷ step_done auth login
    ∷ test_ran auth login
    ∷ test_ran auth (codes "x")
    ∷ []

one_of_two_ran : total_ran (apply_all history new_tracker) ≡ some (1, 2)
unfolding total_ran results report_suites report_suite report_tests count_if apply_all apply
    register_suite register_test add_test record_test_run record_step update_test lookup insert
    str_eq sum
one_of_two_ran = refl

find_test-apply_all_example :
    Ledger auth login false history none (find_test auth login (apply_all history new_tracker))
unfolding knows find_test lookup
find_test-apply_all_example = find_test-apply_all auth login history new_tracker

results_total_example :
    (cs : List SuiteCoverage) × (results (apply_all history new_tracker) ≡ some cs)
    × Lines (apply_all history new_tracker) (registered_names history []) cs
results_total_example = results_total history
