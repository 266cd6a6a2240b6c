-- ===== src/Engine/Execution/Settles.antt =====
-- That a suite with an execution block ends, and what its result says.
use scrutineer.Schema.Types.{Execution, Interaction, TestSuite, mode_concurrent}
use scrutineer.Engine.Runner.Types.{Deps}
use scrutineer.Engine.Suite.Types.{SuiteResult, Engine, SuiteState}
use scrutineer.Engine.Suite.Accounts.{passes, fails, Summed, summarise-Summed}
use scrutineer.Engine.Execution.{
  Surroundings, repeat_of, interactions_of, mode_of, run_suite_with_execution,
}
use scrutineer.Engine.Execution.Keeps.{run_suite_with_execution-keeps}
use scrutineer.Prelude.{◌<◌, ◌≡◌, refl, false, some, arith, str_eq, All}

-- The interaction does not ask for the concurrent dispatcher.
abbrev pub Unshared : {V : Type 0} → Interaction V → Type 0
Unshared inter = str_eq (mode_of inter) mode_concurrent ≡ false

module _ {W C A V : Type 0} (d : Deps W C A V) (e : Engine V) (x : Surroundings W V) where
  -- A suite with an execution block that repeats a number of times, and that asks for the concurrent
  -- dispatcher neither in its block nor in an interaction, ends after at most that many passes,
  -- whatever the context, the fleet and the tests do. Its result counts as passed and as failed as
  -- many as there are test results that are passes and that are not, and none as failed exactly if
  -- all of them are passes.
  pub run_suite_with_execution_settles :
      (suite : TestSuite V) (exec : Execution V) (s : SuiteState W)
      → 0 < repeat_of d e x exec
      → str_eq exec.mode mode_concurrent ≡ false
      → All Unshared (interactions_of suite.suite suite.interactions suite.tests)
      → (p : SuiteResult × SuiteState W) × (run_suite_with_execution d e x
            (repeat_of d e x exec)
            suite
            exec
            s
          ≡ some p)
        × Summed p.0
  unfolding passes fails
  run_suite_with_execution_settles suite exec s h mode modes =
      run_suite_with_execution-keeps d e x suite (λ sr t. (sr.passed ≡ 0) × (sr.failed ≡ 0))
        (λ sr t k. k) (λ sr t result test hs k. k) (λ sr t. Summed sr)
        (λ sr t (p, f). summarise-Summed sr p f) exec s
        (λ problem. (
          refl,
          refl,
          refl,
          (λ none. absurd (omega (arith, none)), λ (wrong, _). absurd (ground (arith, wrong))),
        ))
        h (refl, refl)
