-- ===== src/Engine/Execution/Exit.antt =====
-- The exit code of a run of suites of both kinds.
use scrutineer.Schema.Types.{Execution, TestSuite, mode_concurrent}
use scrutineer.Engine.Runner.Types.{Deps}
use scrutineer.Engine.Suite.Types.{SuiteResult, Engine, SuiteState}
use scrutineer.Engine.Suite.Accounts.{Summed}
use scrutineer.Engine.Execution.{Surroundings, interactions_of, run_suite, passes_of}
use scrutineer.Engine.Execution.Settles.{Unshared}
use scrutineer.Prelude.{◌<◌, ◌≡◌, false, some, str_eq, All}

module _ {W C A V : Type 0} (d : Deps W C A V) (e : Engine V) (x : Surroundings W V) where
  -- The suite repeats a number of times and nothing in it asks for the concurrent dispatcher.
  pub record Bounded (suite : TestSuite V) : Type 0 where
    pub repeats : 0 < passes_of d e x suite
    pub block :
        (exec : Execution V)
        → suite.execution ≡ some exec
        → str_eq exec.mode mode_concurrent ≡ false
    pub inters : All Unshared (interactions_of suite.suite suite.interactions suite.tests)

  abbrev Ended : TestSuite V → SuiteState W → Type 0
  Ended suite s =
      (p : SuiteResult × SuiteState W) × (run_suite d e x (passes_of d e x suite) suite s ≡ some p)
      × Summed p.0
