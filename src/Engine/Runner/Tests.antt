-- ===== src/Engine/Runner/Tests.antt =====
-- A test of three steps whose second one fails, and the theorems there.
use scrutineer.Prelude.{
  ℕ, ◌+◌, ◌≡◌, refl, ◌↔◌, true, false, none, some, List, [], ◌∷◌, Str, codes, str_eq, if◌then◌else◌,
  length, take, All,
}
use scrutineer.Schema.Types.{TestStep, Test}
use scrutineer.Engine.Runner.Types.{got, failed, Deps, Runner, State}
use scrutineer.Engine.Runner.{
  note, emit, cover, evaluate_assertion, run_captures, run_asserts, after_execute, in_connector,
  tear_down, with_connector, run_step, run_steps, run_test, step_parameters, step_timeout,
  string_at, option_keys, step_name, actual_value,
}
use scrutineer.Engine.Runner.Verdict.{Passed, StopsAt, run_test_passes, run_test_stops}

-- A connector is its name, a value a text, and the state counts the calls of Execute. The action
-- "bad" fails.
abbrev deps : Deps ℕ Str Str Str
deps = record {
  is_cancelled = λ w. (false, w);
  get = λ name w. (got name, w);
  setup = λ c config w. (none, w);
  execute =
      λ c step w. (if str_eq step.action (codes "bad") then failed (codes "no") else got [], w + 1);
  teardown = λ c w. w;
  interpolate = λ m w. (got m, w);
  set_capture = λ var v w. w;
  parse_duration = λ s. none;
  extract = λ m path. got path;
  as_string = λ v. some v;
  of_map = λ m. [];
  build = λ operator expected options. got operator;
  evaluate = λ a v w. (none, w);
  itoa = λ n. (n + 48) ∷ [];
}

abbrev runner : Runner
runner = record { has_telemetry = true; has_coverage = true }

abbrev step : Str → TestStep Str
step action = record {
  connector = [];
  action = action;
  parameters = [];
  assert = [];
  capture = [];
  timeout = [];
}

abbrev test : List (TestStep Str) → Test Str
test steps = record {
  name = codes "t";
  connector = codes "http";
  tags = [];
  skip = false;
  weight = 1;
  steps = steps;
}

abbrev failing_test : Test Str
failing_test = test (step (codes "get") ∷ step (codes "bad") ∷ step (codes "get") ∷ [])

abbrev start : State ℕ
start = record { world = 0; trace = [] }

-- Two steps have a result.
two_results : length (run_test deps runner failing_test [] start).0.steps ≡ 2
unfolding run_test run_steps run_step with_connector tear_down in_connector after_execute
    run_asserts run_captures evaluate_assertion step_parameters step_timeout string_at option_keys
    step_name actual_value note emit cover str_eq
two_results = refl

is_failed : (run_test deps runner failing_test [] start).0.passed ≡ false
unfolding run_test run_steps run_step with_connector tear_down in_connector after_execute
    run_asserts run_captures evaluate_assertion step_parameters step_timeout string_at option_keys
    step_name actual_value note emit cover str_eq
is_failed = refl

run_test_passes_example : ((run_test deps runner failing_test [] start).0.passed ≡ true) ↔ (
    (length (run_test deps runner failing_test [] start).0.steps ≡ length failing_test.steps)
    × All Passed (run_test deps runner failing_test [] start).0.steps)
run_test_passes_example = run_test_passes deps runner failing_test [] start

run_test_stops_example :
    StopsAt (length failing_test.steps) (run_test deps runner failing_test [] start).0.steps
    × (run_test deps runner
          (record failing_test {
            steps =
                take
                  (length (run_test deps runner failing_test [] start).0.steps)
                  failing_test.steps;
          })
          []
          start
        ≡ run_test deps runner failing_test [] start)
run_test_stops_example = run_test_stops deps runner failing_test [] start is_failed
