-- ===== src/Engine/Suite/Covered.antt =====
-- What the coverage tracker says of each test of a suite that has run.
use scrutineer.Coverage.{
  TestData, Tracker, new_test, register_suite, register_test, find_test, set_skipped,
}
use scrutineer.Coverage.Frame.{view-register_suite, view-register_test}
use scrutineer.Coverage.Wellformed.{Inv}
use scrutineer.Coverage.Report.{Reported, find_test-Reported}
use scrutineer.Engine.Suite.Listed.{run_suite_simple-Inv}
use scrutineer.Schema.Types.{Test, TestSuite}
use scrutineer.Engine.Runner.Types.{Deps, test_recorded}
use scrutineer.Engine.Suite.Types.{SuiteResult, Engine, SuiteState, suite_start, suite_started}
use scrutineer.Engine.Suite.{
  new_result, total_assertions, register_tests, run_reported, skip_test, write, cover_suite,
  run_tests, run_suite_simple, tell,
}
use scrutineer.Prelude.{
  ℕ, ◌+◌, ◌≡◌, refl, ap, ◌∙◌, inl, inr, true, not, none, some, List, [], ◌∷◌, ◌++◌, arith, GoMap,
  Str, codes, str_eq_refl, Bool-cases, length, All,
}
use scrutineer.Engine.Suite.Replay.{
  played, played-Kept, played-ran, tracker-write, tracker-cover_suite, skip_test_covers,
  run_reported_covers, Other, run_tests_others, run_tests-append,
}

-- The data of a test that has had its turn.
pub record Fate {V : Type 0} (test : Test V) (td : TestData) : Type 0 where
  pub ran : td.ran ≡ not test.skip
  pub skipped : td.skipped ≡ test.skip
  pub step_count : td.step_count ≡ length test.steps
  pub assertion_count : td.assertion_count ≡ total_assertions test.steps

module _ {V : Type 0} where
  -- Registering other tests does not register this one, and once it is registered, it stays so.
  register_tests_others :
      (suite x : Str) (count : ℕ) (tests : List (Test V)) (t : Tracker)
      → All (Other {V = V} x) tests
      → find_test suite x t ≡ none
      → find_test suite x (register_tests suite count tests t) ≡ none
  unfolding register_tests
  register_tests_others suite x count [] t h e = e
  register_tests_others suite x count (test ∷ tests) t (other, h) e =
      let k = length test.steps in
      let a = total_assertions test.steps in
      let known = register_suite suite count t in
      register_tests_others suite x count tests (register_test suite test.name k a known) h (
        ap (λ v. v.1) (view-register_test suite x suite test.name k a known)
        ∙ rw (str_eq_refl suite, other)
            (ap (λ v. v.1) (view-register_suite suite x suite count t) ∙ e))

  register_tests_keep :
      (suite x : Str) (count : ℕ) (tests : List (Test V)) (t : Tracker) (td : TestData)
      → find_test suite x t ≡ some td
      → find_test suite x (register_tests suite count tests t) ≡ some td
  unfolding register_tests
  register_tests_keep suite x count [] t td e = e
  register_tests_keep suite x count (test ∷ tests) t td e =
      let k = length test.steps in
      let a = total_assertions test.steps in
      let known = register_suite suite count t in
      let before : find_test suite x known ≡ some td =
        ap (λ v. v.1) (view-register_suite suite x suite count t) ∙ e in
      register_tests_keep suite x count tests (register_test suite test.name k a known) td (
        ap (λ v. v.1) (view-register_test suite x suite test.name k a known)
        ∙ ground (arith, before, str_eq_refl suite))

  register_tests-append :
      (suite : Str) (count : ℕ) (xs ys : List (Test V)) (t : Tracker)
      → register_tests suite count (xs ++ ys) t
        ≡ register_tests suite count ys (register_tests suite count xs t)
  unfolding register_tests
  register_tests-append suite count [] ys t = refl
  register_tests-append suite count (test ∷ xs) ys t = register_tests-append suite count xs ys _

  register_tests_one :
      (suite : Str) (count : ℕ) (test : Test V) (before after : List (Test V)) (t : Tracker)
      → All (Other {V = V} test.name) before
      → find_test suite test.name t ≡ none
      → find_test suite test.name (register_tests suite count (before ++ test ∷ after) t)
        ≡ some (new_test test.name (length test.steps) (total_assertions test.steps))
  unfolding register_tests
  register_tests_one suite count test before after t h e =
      let k = length test.steps in
      let a = total_assertions test.steps in
      let t1 = register_tests suite count before t in
      let known = register_suite suite count t1 in
      let fresh = register_tests_others suite test.name count before t h e in
      rw register_tests-append (
        register_tests_keep suite test.name count after (register_test suite test.name k a known)
          (new_test test.name k a)
          (ap (λ v. v.1) (view-register_test suite test.name suite test.name k a known)
            ∙ rw (str_eq_refl suite, str_eq_refl test.name)
                (rw (ap (λ v. v.0) (view-register_suite suite test.name suite count t1)) (
                  rw (str_eq_refl suite) (
                    rw (ap (λ v. v.1) (view-register_suite suite test.name suite count t1))
                      (rw fresh refl))))))

module _ {W C A V : Type 0} (d : Deps W C A V) (e : Engine V) (covers : e.has_coverage ≡ true)
    (new_context : Str → Str → GoMap V → W → W) where
  -- The turn of a test, and those behind it.
  run_tests-Fate :
      (suite : Str) (fixtures : GoMap V) (test : Test V) (after : List (Test V)) (sr : SuiteResult)
      (s : SuiteState W)
      → All (Other {V = V} test.name) after
      → find_test suite test.name s.tracker
        ≡ some (new_test test.name (length test.steps) (total_assertions test.steps))
      → (td : TestData) × (find_test suite test.name
            (run_tests d e new_context suite fixtures (test ∷ after) sr s).1.tracker
          ≡ some td)
        × Fate test td
  unfolding run_tests
  run_tests-Fate suite fixtures test after sr s h known =
      let fresh = new_test test.name (length test.steps) (total_assertions test.steps) in
      elim (Bool-cases test.skip) [
        | inl skip ↦
            let sr1 : SuiteResult = record sr { skipped = sr.skipped + 1 } in
            let rest =
              run_tests_others d e covers new_context suite test.name fixtures after sr1
                (skip_test e suite test s) h
              ∙ skip_test_covers d e covers suite test test.name s in
            (
              set_skipped fresh,
              simp (skip, run_tests)
                  (ap (λ v. v.1) rest ∙ rw (str_eq_refl test.name) (rw known refl)),
              record {
                ran = simp skip refl;
                skipped = simp skip refl;
                step_count = refl;
                assertion_count = refl;
              },
            )
        | inr run ↦
            let start : SuiteState W = record s {
              world = new_context suite test.name fixtures s.world;
            } in
            let reported = run_reported d e suite test start in
            let (hs, one) = run_reported_covers d e covers suite test test.name start in
            let sr1 : SuiteResult = record sr { results = sr.results ++ reported.0 ∷ [] } in
            let rest =
              run_tests_others d e covers new_context suite test.name fixtures after sr1 reported.1
                h
              ∙ one in
            let kept = played-Kept (test_recorded ∷ hs) fresh in
            (
              played (test_recorded ∷ hs) fresh,
              simp (run, run_tests)
                  (ap (λ v. v.1) rest ∙ rw (str_eq_refl test.name) (rw known refl)),
              record {
                ran = played-ran hs fresh ∙ simp run refl;
                skipped = kept.skipped ∙ simp run refl;
                step_count = kept.step_count;
                assertion_count = kept.assertion_count;
              },
            )
      ]

  -- Behind runSuiteSimple on a tracker that is well formed and did not know the test, each test whose
  -- name no other test of the suite has is found by the tracker, and is in the suite's line of what
  -- Results reports: as run if it is not skipped and as skipped if it is, with its numbers of steps
  -- and of assertions.
  pub run_suite_simple_covers :
      (suite : TestSuite V) (s : SuiteState W) (before : List (Test V)) (test : Test V)
      (after : List (Test V))
      → suite.tests ≡ before ++ test ∷ after
      → All (Other {V = V} test.name) before
      → All (Other {V = V} test.name) after
      → find_test suite.suite test.name s.tracker ≡ none
      → Inv s.tracker
      → (td : TestData) × (find_test suite.suite test.name
            (run_suite_simple d e new_context suite s).1.tracker
          ≡ some td)
        × Fate test td
        × Reported suite.suite td (run_suite_simple d e new_context suite s).1.tracker
  unfolding run_suite_simple
  run_suite_simple_covers suite s before test after split hb ha unknown v =
      let count = length suite.tests in
      let s1 =
        write e suite_start ((codes "suite", suite.suite) ∷ [])
          (tell (suite_started suite.suite count) s) in
      let s2 = cover_suite e (register_tests suite.suite count suite.tests) s1 in
      let first =
        run_tests d e new_context suite.suite suite.fixtures before (new_result suite.suite) s2 in
      let registered_at : find_test suite.suite test.name s2.tracker
          ≡ some (new_test test.name (length test.steps) (total_assertions test.steps)) =
        rw (tracker-cover_suite d e covers, tracker-write d e covers)
          (ap
              (λ tests.
                find_test suite.suite test.name (register_tests suite.suite count tests s.tracker))
              split
            ∙ register_tests_one suite.suite count test before after s.tracker hb unknown) in
      let (td, found, fate) =
        run_tests-Fate suite.suite suite.fixtures test after first.0 first.1 ha (
          ap (λ v. v.1)
            (run_tests_others d e covers new_context suite.suite test.name suite.fixtures before
              (new_result suite.suite) s2 hb)
          ∙ registered_at) in
      let at_end : find_test suite.suite test.name
            (run_suite_simple d e new_context suite s).1.tracker
          ≡ some td =
        rw (tracker-write d e covers) (
          ap
            (λ tests.
              find_test suite.suite test.name
                (run_tests d e new_context suite.suite suite.fixtures tests (new_result suite.suite)
                  s2).1.tracker)
            split
          ∙ rw (run_tests-append d e covers new_context) found) in
      let tracker = (run_suite_simple d e new_context suite s).1.tracker in
      (
        td,
        at_end,
        fate,
        find_test-Reported suite.suite test.name td tracker
            (run_suite_simple-Inv d e covers new_context suite s v) at_end,
      )
