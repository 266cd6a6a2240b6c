-- ===== src/Coverage.antt =====
-- core/coverage/coverage.go. The tracker's mutex makes each method one step, and a method returns
-- the new tracker. The maps hold pointers; a write through one is a write to its entry here.
pub mod Frame
pub mod Tally
pub mod Counts
pub mod Wellformed
pub mod Order
pub mod Report
mod Tests
use scrutineer.Prelude.{
  ℕ, zero, suc, ◌+◌, ◌-◌, ◌*◌, ◌/◌, ◌%◌, ◌^◌, ◌≤◌, ◌<◌, ◌≡◌, refl, sym, ap, ◌∙◌, ◌≢◌, ◌↔◌, ◌⊎◌, inl,
  inr, Bool, true, false, ◌&&◌, ◌||◌, not, Option, none, some, List, [], ◌∷◌, ◌++◌, map,
  append_assoc, append-nil, arith, GoMap, lookup, insert, keys, lookup-insert, lookup-insert_self,
  Bytes, Str, codes, str_eq, str_le, str_eq_iff, str_eq_refl, range, sum, ltb, leb, ◌==◌,
  if◌then◌else◌, Bool-cases, Option-cases, length, get_elem?, get_or, set, take, drop, All,
  length-append, length-set, take-length_append, drop-length_append, length-map, ltb→lt, lt→ltb,
  ltb-false, le→ltb-false, leb→le, ==_iff,
}
use mathlib.Core.Option

pub record TestData : Type 0 where
  pub name : Str
  pub step_count : ℕ
  pub assertion_count : ℕ
  pub ran : Bool
  pub skipped : Bool
  pub executed_steps : ℕ
  pub passed_asserts : ℕ
  pub failed_asserts : ℕ

pub record SuiteData : Type 0 where
  pub name : Str
  pub test_count : ℕ
  pub tests : GoMap TestData
  pub order : List Str

pub record Tracker : Type 0 where
  pub suites : GoMap SuiteData
  pub order : List Str

-- NewTracker
abbrev pub new_tracker : Tracker
new_tracker = record { suites = []; order = [] }

abbrev pub new_suite : Str → ℕ → SuiteData
new_suite name test_count = record { name = name; test_count = test_count; tests = []; order = [] }

abbrev pub new_test : Str → ℕ → ℕ → TestData
new_test name step_count assertion_count = record {
  name = name;
  step_count = step_count;
  assertion_count = assertion_count;
  ran = false;
  skipped = false;
  executed_steps = 0;
  passed_asserts = 0;
  failed_asserts = 0;
}

-- RegisterSuite
unfoldable pub register_suite : Str → ℕ → Tracker → Tracker
register_suite name test_count t = elim (lookup name t.suites) [
  | some s ↦ t
  | none ↦ record t {
    suites = insert name (new_suite name test_count) t.suites;
    order = t.order ++ name ∷ [];
  }
]

-- The part of RegisterTest behind the lookup of the suite.
unfoldable pub add_test : Str → ℕ → ℕ → SuiteData → SuiteData
add_test test step_count assertion_count s = elim (lookup test s.tests) [
  | some td ↦ s
  | none ↦ record s {
    tests = insert test (new_test test step_count assertion_count) s.tests;
    order = s.order ++ test ∷ [];
  }
]

-- RegisterTest
unfoldable pub register_test : Str → Str → ℕ → ℕ → Tracker → Tracker
register_test suite test step_count assertion_count t = elim (lookup suite t.suites) [
  | none ↦ t
  | some s ↦ record t {
    suites = insert suite (add_test test step_count assertion_count s) t.suites;
  }
]

-- findTest
unfoldable pub find_test : Str → Str → Tracker → Option TestData
find_test suite test t = elim (lookup suite t.suites) [ none ↦ none | some s ↦ lookup test s.tests ]

-- A write through the pointer that findTest gives; nothing where it gives nil.
unfoldable pub update_test : (TestData → TestData) → Str → Str → Tracker → Tracker
update_test f suite test t = elim (lookup suite t.suites) [
  | none ↦ t
  | some s ↦ elim (lookup test s.tests) [
    | none ↦ t
    | some td ↦ record t {
      suites = insert suite (record s { tests = insert test (f td) s.tests }) t.suites;
    }
  ]
]

-- What each Record method writes.
abbrev pub set_ran : TestData → TestData
set_ran td = record td { ran = true }

abbrev pub set_skipped : TestData → TestData
set_skipped td = record td { skipped = true }

abbrev pub count_step : TestData → TestData
count_step td = record td { executed_steps = td.executed_steps + 1 }

abbrev pub count_assertion : Bool → TestData → TestData
count_assertion passed td =
    if passed
    then record td { passed_asserts = td.passed_asserts + 1 }
    else record td { failed_asserts = td.failed_asserts + 1 }

unfoldable pub record_test_run : Str → Str → Tracker → Tracker
record_test_run = update_test set_ran

unfoldable pub record_test_skip : Str → Str → Tracker → Tracker
record_test_skip = update_test set_skipped

unfoldable pub record_step : Str → Str → Tracker → Tracker
record_step = update_test count_step

unfoldable pub record_assertion : Str → Str → Bool → Tracker → Tracker
record_assertion suite test passed = update_test (count_assertion passed) suite test

-- TestCoverage and SuiteCoverage of core/coverage/model.go; the fields that the tracker copies one by
-- one from its own data are kept as that data.
pub record SuiteCoverage : Type 0 where
  pub suite : Str
  pub tests : List TestData
  pub total_tests : ℕ
  pub ran_tests : ℕ
  pub skipped_tests : ℕ

-- The inner loop of Results; `none` is the panic at a nil pointer.
unfoldable pub report_tests : GoMap TestData → List Str → Option (List TestData)
report_tests tests [] = some []
report_tests tests (name ∷ names) = elim (lookup name tests) [
  | none ↦ none
  | some td ↦ Option.map (λ (tds : List TestData). td ∷ tds) (report_tests tests names)
]

-- `if td.ran { sc.RanTests++ }`, and likewise for the skipped ones.
unfoldable pub count_if : (TestData → Bool) → List TestData → ℕ
count_if p [] = 0
count_if p (td ∷ tds) = (if p td then 1 else 0) + count_if p tds

unfoldable pub report_suite : SuiteData → Option SuiteCoverage
report_suite s =
    Option.map
      (λ (tds : List TestData).
        let c : SuiteCoverage = record {
          suite = s.name;
          tests = tds;
          total_tests = s.test_count;
          ran_tests = count_if (λ td. td.ran) tds;
          skipped_tests = count_if (λ td. td.skipped) tds;
        } in
        c)
      (report_tests s.tests s.order)

unfoldable pub report_suites : GoMap SuiteData → List Str → Option (List SuiteCoverage)
report_suites suites [] = some []
report_suites suites (name ∷ names) = elim (lookup name suites) [
  | none ↦ none
  | some s ↦ elim (report_suite s) [
    | none ↦ none
    | some c ↦ Option.map (λ (cs : List SuiteCoverage). c ∷ cs) (report_suites suites names)
  ]
]

-- Results
unfoldable pub results : Tracker → Option (List SuiteCoverage)
results t = report_suites t.suites t.order

-- TotalPercent as the pair of its numerator and denominator: the tests that ran, and all tests.
unfoldable pub total_ran : Tracker → Option (ℕ × ℕ)
total_ran t =
    Option.map
      (λ (cs : List SuiteCoverage).
        (sum (map (λ c. c.ran_tests) cs), sum (map (λ c. c.total_tests) cs)))
      (results t)
