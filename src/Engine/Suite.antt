-- ===== src/Engine/Suite.antt =====
-- core/engine/engine.go and suite.go: a suite without an execution block, test by test, over the
-- runner and the coverage tracker. What the reporter and the telemetry writer are told is a trace,
-- newest first; times are left out. The parameter `new_context` is NewTestContext with the expression
-- registry set: a fresh variable store, in the state `W` that the runner's calls work on.
pub mod Types
pub mod Accounts
pub mod Replay
pub mod Listed
pub mod Covered
mod Tests
use scrutineer.Coverage.{
  Tracker, register_suite, register_test, record_test_run, record_test_skip, record_step,
  record_assertion,
}
use scrutineer.Schema.Types.{TestStep, Test, TestSuite}
use scrutineer.Engine.Runner.Types.{
  Happening, test_recorded, step_recorded, assertion_recorded, TestResult, Deps, Runner, State,
}
use scrutineer.Engine.Runner.{blank, run_test}
use scrutineer.Engine.Suite.Types.{
  SuiteResult, Engine, SuiteEvent, suite_start, suite_end, test_skip, SuiteHappening, suite_started,
  suite_ended, test_started, test_ended, recorded, in_test, SuiteState,
}
use scrutineer.Prelude.{
  ℕ, zero, suc, ◌+◌, ◌-◌, ◌*◌, ◌/◌, ◌%◌, ◌^◌, ◌≤◌, ◌<◌, ◌≡◌, refl, sym, ap, ◌∙◌, ◌≢◌, ◌↔◌, ◌⊎◌, inl,
  inr, Bool, true, false, ◌&&◌, ◌||◌, not, Option, none, some, List, [], ◌∷◌, ◌++◌, map,
  append_assoc, append-nil, arith, GoMap, lookup, insert, keys, lookup-insert, lookup-insert_self,
  Bytes, Str, codes, str_eq, str_le, str_eq_iff, str_eq_refl, range, sum, ltb, leb, ◌==◌,
  if◌then◌else◌, Bool-cases, Option-cases, length, get_elem?, get_or, set, take, drop, All,
  length-append, length-set, take-length_append, drop-length_append, length-map, ltb→lt, lt→ltb,
  ltb-false, le→ltb-false, leb→le, ==_iff,
}

-- The steps of `summarise`.
unfoldable pub tally : List TestResult → SuiteResult → SuiteResult
tally [] sr = sr
tally (r ∷ rs) sr = tally rs (
    if r.passed then record sr { passed = sr.passed + 1 } else record sr { failed = sr.failed + 1 })

unfoldable pub summarise : SuiteResult → SuiteResult
summarise sr = tally sr.results sr

-- ExitCode, with exitcode.OK and exitcode.TestFailure
unfoldable pub exit_code : List SuiteResult → ℕ
exit_code [] = 0
exit_code (sr ∷ srs) = let rest = exit_code srs in if ltb 0 sr.failed then 1 else rest

abbrev pub new_result : Str → SuiteResult
new_result suite = record { suite = suite; results = []; passed = 0; failed = 0; skipped = 0 }

-- What the runner's coverage calls do to the tracker; the trace is newest first.
unfoldable pub replay : Str → Str → List Happening → Tracker → Tracker
replay suite test [] t = t
replay suite test (test_recorded ∷ hs) t = record_test_run suite test (replay suite test hs t)
replay suite test (step_recorded ∷ hs) t = record_step suite test (replay suite test hs t)
replay suite test (assertion_recorded passed ∷ hs) t =
    record_assertion suite test passed (replay suite test hs t)
replay suite test (h ∷ hs) t = replay suite test hs t

module _ {W : Type 0} where
  abbrev pub tell : SuiteHappening → SuiteState W → SuiteState W
  tell h s = record s { trace = h ∷ s.trace }

  abbrev pub with_tracker : Tracker → SuiteState W → SuiteState W
  with_tracker t s = record s { tracker = t }

module _ {V : Type 0} where
  -- totalAssertions
  unfoldable pub total_assertions : List (TestStep V) → ℕ
  total_assertions [] = 0
  total_assertions (step ∷ steps) = length step.assert + total_assertions steps

  -- The registration of the tests; `count` is the number of all tests.
  unfoldable pub register_tests : Str → ℕ → List (Test V) → Tracker → Tracker
  register_tests suite count [] t = t
  register_tests suite count (test ∷ tests) t = register_tests suite count tests (
      register_test suite test.name (length test.steps) (total_assertions test.steps)
        (register_suite suite count t))

  -- connectorConfig
  unfoldable pub connector_config : Engine V → Str → GoMap V
  connector_config e name = if blank name then [] else elim e.connector_configs [
    | none ↦ []
    | some configs ↦ elim (lookup name configs) [ none ↦ [] | some config ↦ config ]
  ]

  abbrev pub runner_of : Engine V → Runner
  runner_of e = record { has_telemetry = e.has_telemetry; has_coverage = e.has_coverage }

  module _ {W : Type 0} where
    -- if e.telemetry != nil { ... }
    unfoldable pub write : Engine V → SuiteEvent → GoMap Str → SuiteState W → SuiteState W
    write e event tags s = if e.has_telemetry then tell (recorded event tags) s else s

    -- if e.coverage != nil { ... }
    unfoldable pub cover_suite : Engine V → (Tracker → Tracker) → SuiteState W → SuiteState W
    cover_suite e f s = if e.has_coverage then with_tracker (f s.tracker) s else s

    -- The body of the loop over the tests where it skips.
    unfoldable pub skip_test : Engine V → Str → Test V → SuiteState W → SuiteState W
    skip_test e suite test s =
        write e test_skip ((codes "suite", suite) ∷ (codes "test", test.name) ∷ [])
          (cover_suite e (record_test_skip suite test.name) s)

module _ {W C A V : Type 0} (d : Deps W C A V) (e : Engine V) where
  -- From OnTestStart to OnTestEnd.
  unfoldable pub run_reported : Str → Test V → SuiteState W → TestResult × SuiteState W
  run_reported suite test s =
      let s1 = tell (test_started test.name) s in
      let (result, st) =
        run_test d (runner_of e) test (connector_config e test.connector)
          (record { world = s1.world; trace = [] }) in
      (
        result,
        record {
          world = st.world;
          tracker = replay suite test.name st.trace s1.tracker;
          trace = test_ended test.name result ∷ in_test test.name st.trace ∷ s1.trace;
        },
      )

  module _ (new_context : Str → Str → GoMap V → W → W) where
    -- The loop over the tests.
    unfoldable pub run_tests :
        Str → GoMap V → List (Test V) → SuiteResult → SuiteState W → SuiteResult × SuiteState W
    run_tests suite fixtures [] sr s = (sr, s)
    run_tests suite fixtures (test ∷ tests) sr s = elim test.skip [
      | true ↦
          run_tests suite fixtures tests (record sr { skipped = sr.skipped + 1 })
            (skip_test e suite test s)
      | false ↦
          let (result, s1) =
            run_reported suite test
              (record s { world = new_context suite test.name fixtures s.world }) in
          run_tests suite fixtures tests (record sr { results = sr.results ++ result ∷ [] }) s1
    ]

    -- runSuiteSimple
    unfoldable pub run_suite_simple : TestSuite V → SuiteState W → SuiteResult × SuiteState W
    run_suite_simple suite s =
        let count = length suite.tests in
        let s1 =
          write e suite_start ((codes "suite", suite.suite) ∷ [])
            (tell (suite_started suite.suite count) s) in
        let s2 = cover_suite e (register_tests suite.suite count suite.tests) s1 in
        let (sr, s3) =
          run_tests suite.suite suite.fixtures suite.tests (new_result suite.suite) s2 in
        let sum_up = summarise sr in
        (
          sum_up,
          write e suite_end ((codes "suite", suite.suite) ∷ [])
              (tell (suite_ended suite.suite sum_up.passed sum_up.failed sum_up.skipped) s3),
        )
