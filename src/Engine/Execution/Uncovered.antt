-- ===== src/Engine/Execution/Uncovered.antt =====
-- Coverage of a suite that has an execution block or interactions.
use scrutineer.Coverage.{
  Tracker, update_test, record_test_run, record_step, record_assertion, set_ran, count_step,
  count_assertion,
}
use scrutineer.Schema.Types.{Execution, TestSuite}
use scrutineer.Engine.Runner.Types.{
  Deps, Happening, test_recorded, step_recorded, assertion_recorded,
}
use scrutineer.Coverage.{TestData}
use scrutineer.Engine.Suite.Types.{SuiteResult, Engine, SuiteState}
use scrutineer.Engine.Suite.{replay}
use scrutineer.Engine.Execution.{Surroundings, repeat_of, run_suite_with_execution}
use scrutineer.Engine.Execution.Keeps.{run_suite_with_execution-keeps}
use scrutineer.Prelude.{◌<◌, ◌≡◌, refl, none, some, List, [], ◌∷◌, lookup, Str}

update_test_unknown :
    (f : TestData → TestData) (suite test : Str) (t : Tracker)
    → lookup suite t.suites ≡ none
    → update_test f suite test t ≡ t
unfolding update_test
update_test_unknown f suite test t e = rw (e, update_test) refl

-- A suite that is not registered takes no calls.
replay_unknown :
    (suite test : Str) (hs : List Happening) (t : Tracker)
    → lookup suite t.suites ≡ none
    → replay suite test hs t ≡ t
unfolding replay record_test_run record_step record_assertion
replay_unknown suite test [] t e = refl
replay_unknown suite test (test_recorded ∷ hs) t e =
    rw (replay_unknown suite test hs t e) (update_test_unknown set_ran suite test t e)
replay_unknown suite test (step_recorded ∷ hs) t e =
    rw (replay_unknown suite test hs t e) (update_test_unknown count_step suite test t e)
replay_unknown suite test (assertion_recorded p ∷ hs) t e =
    rw (replay_unknown suite test hs t e) (update_test_unknown (count_assertion p) suite test t e)
replay_unknown suite test (h ∷ hs) t e = replay_unknown suite test hs t e

module _ {W C A V : Type 0} (d : Deps W C A V) (e : Engine V) (x : Surroundings W V) where
  -- A suite with an execution block that repeats a number of times leaves the coverage tracker as it was, if that did
  -- not know the suite before: whatever tests ran, none of them is reported.
  pub run_suite_with_execution_uncovered :
      (suite : TestSuite V) (exec : Execution V) (s : SuiteState W)
      → 0 < repeat_of d e x exec
      → lookup suite.suite s.tracker.suites ≡ none
      → (p : SuiteResult × SuiteState W) × (run_suite_with_execution d e x
            (repeat_of d e x exec)
            suite
            exec
            s
          ≡ some p)
        × (p.1.tracker ≡ s.tracker)
  run_suite_with_execution_uncovered suite exec s h unknown =
      run_suite_with_execution-keeps d e x suite (λ sr t. t ≡ s.tracker) (λ sr t k. k)
        (λ sr t result test hs k. rw k (replay_unknown suite.suite test hs s.tracker unknown))
        (λ sr t. t ≡ s.tracker) (λ sr t k. k) exec s (λ problem. refl) h refl
