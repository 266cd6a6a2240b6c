-- ===== src/Engine/Suite/Types.antt =====
-- The types of core/engine/engine.go and suite.go, and what a suite reports.
use scrutineer.Prelude.{ℕ, Bool, Option, List, Str, GoMap}
use scrutineer.Coverage.{Tracker}
use scrutineer.Engine.Runner.Types.{Happening, TestResult}

-- SuiteResult, without the time.
pub record SuiteResult : Type 0 where
  pub suite : Str
  pub results : List TestResult
  pub passed : ℕ
  pub failed : ℕ
  pub skipped : ℕ

-- Engine: which of its parts are set, and the connectors' configurations.
pub record Engine (V : Type 0) : Type 0 where
  pub has_telemetry : Bool
  pub has_coverage : Bool
  pub connector_configs : Option (GoMap (GoMap V))

-- The telemetry events of a suite.
pub data SuiteEvent : Type 0 where
  suite_start suite_end test_skip interaction_start interaction_end : SuiteEvent

-- What a suite tells the reporter and the telemetry writer; `in_test` is what RunTest reports.
pub data SuiteHappening : Type 0 where
  suite_started : Str → ℕ → SuiteHappening
  suite_ended : Str → ℕ → ℕ → ℕ → SuiteHappening
  test_started : Str → SuiteHappening
  test_ended : Str → TestResult → SuiteHappening
  recorded : SuiteEvent → GoMap Str → SuiteHappening
  in_test : Str → List Happening → SuiteHappening

-- The state of what the runner calls, the coverage tracker, and the trace.
pub record SuiteState (W : Type 0) : Type 0 where
  pub world : W
  pub tracker : Tracker
  pub trace : List SuiteHappening
