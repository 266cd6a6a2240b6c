-- ===== src/Engine/Suite/Listed.antt =====
-- The run of a suite keeps the invariant of the coverage tracker.
use scrutineer.Prelude.{
  ℕ, ◌+◌, ◌≡◌, inl, inr, true, List, [], ◌∷◌, ◌++◌, GoMap, Str, codes, Bool-cases, length,
}
use scrutineer.Coverage.{
  Tracker, register_suite, record_test_run, record_test_skip, record_step, record_assertion,
  set_ran, set_skipped, count_step, count_assertion,
}
use scrutineer.Coverage.Wellformed.{Inv, register_suite-Inv, register_test-Inv, update_test-Inv}
use scrutineer.Schema.Types.{Test, TestSuite}
use scrutineer.Engine.Runner.Types.{
  Deps, Happening, test_recorded, step_recorded, assertion_recorded,
}
use scrutineer.Engine.Suite.Types.{SuiteResult, Engine, SuiteState, suite_start, suite_started}
use scrutineer.Engine.Suite.{
  new_result, total_assertions, replay, register_tests, run_reported, skip_test, write, cover_suite,
  run_tests, run_suite_simple, tell,
}
use scrutineer.Engine.Suite.Replay.{tracker-write, tracker-cover_suite}

register_tests-Inv :
    {V : Type 0} (suite : Str) (count : ℕ) (tests : List (Test V)) (t : Tracker)
    → Inv t
    → Inv (register_tests suite count tests t)
unfolding register_tests
register_tests-Inv suite count [] t v = v
register_tests-Inv suite count (test ∷ tests) t v = register_tests-Inv suite count tests _ (
    register_test-Inv suite test.name (length test.steps) (total_assertions test.steps)
      (register_suite suite count t) (register_suite-Inv suite count t v))

replay-Inv :
    (suite test : Str) (hs : List Happening) (t : Tracker) → Inv t → Inv (replay suite test hs t)
unfolding replay record_test_run record_step record_assertion
replay-Inv suite test [] t v = v
replay-Inv suite test (test_recorded ∷ hs) t v =
    update_test-Inv set_ran suite test (replay suite test hs t) (replay-Inv suite test hs t v)
replay-Inv suite test (step_recorded ∷ hs) t v =
    update_test-Inv count_step suite test (replay suite test hs t) (replay-Inv suite test hs t v)
replay-Inv suite test (assertion_recorded p ∷ hs) t v =
    update_test-Inv (count_assertion p) suite test (replay suite test hs t)
      (replay-Inv suite test hs t v)
replay-Inv suite test (h ∷ hs) t v = replay-Inv suite test hs t v

module _ {W C A V : Type 0} (d : Deps W C A V) (e : Engine V) (covers : e.has_coverage ≡ true)
    (new_context : Str → Str → GoMap V → W → W) where
  skip_test-Inv :
      (suite : Str) (test : Test V) (s : SuiteState W)
      → Inv s.tracker
      → Inv (skip_test e suite test s).tracker
  unfolding skip_test record_test_skip
  skip_test-Inv suite test s v =
      rw (tracker-write d e covers, tracker-cover_suite d e covers)
        (update_test-Inv set_skipped suite test.name s.tracker v)

  run_tests-Inv :
      (suite : Str) (fixtures : GoMap V) (tests : List (Test V)) (sr : SuiteResult)
      (s : SuiteState W)
      → Inv s.tracker
      → Inv (run_tests d e new_context suite fixtures tests sr s).1.tracker
  unfolding run_tests run_reported
  run_tests-Inv suite fixtures [] sr s v = v
  run_tests-Inv suite fixtures (test ∷ tests) sr s v = elim (Bool-cases test.skip) [
    | inl skip ↦
        simp (skip, run_tests)
          (run_tests-Inv suite fixtures tests (record sr { skipped = sr.skipped + 1 })
            (skip_test e suite test s) (skip_test-Inv suite test s v))
    | inr run ↦
        let reported =
          run_reported d e suite test
            (record s { world = new_context suite test.name fixtures s.world }) in
        simp (run, run_tests)
          (run_tests-Inv suite fixtures tests
            (record sr { results = sr.results ++ reported.0 ∷ [] }) reported.1
            (replay-Inv suite test.name _ s.tracker v))
  ]

  pub run_suite_simple-Inv :
      (suite : TestSuite V) (s : SuiteState W)
      → Inv s.tracker
      → Inv (run_suite_simple d e new_context suite s).1.tracker
  unfolding run_suite_simple
  run_suite_simple-Inv suite s v =
      let count = length suite.tests in
      let s1 =
        write e suite_start ((codes "suite", suite.suite) ∷ [])
          (tell (suite_started suite.suite count) s) in
      let registered : Inv
          (cover_suite e (register_tests suite.suite count suite.tests) s1).tracker =
        rw (tracker-cover_suite d e covers, tracker-write d e covers)
          (register_tests-Inv suite.suite count suite.tests s.tracker v) in
      rw (tracker-write d e covers) (
        run_tests-Inv suite.suite suite.fixtures suite.tests (new_result suite.suite)
          (cover_suite e (register_tests suite.suite count suite.tests) s1) registered)
