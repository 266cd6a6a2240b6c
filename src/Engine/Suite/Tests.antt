-- ===== src/Engine/Suite/Tests.antt =====
-- A suite of three tests, one of them skipped and one failing, and the theorems there.
use scrutineer.Coverage.{TestData, new_tracker, find_test}
use scrutineer.Coverage.Wellformed.{new_tracker-Inv}
use scrutineer.Coverage.Report.{Reported}
use scrutineer.Schema.Types.{Test, TestSuite, Execution, mode_random}
use scrutineer.Engine.Runner.Types.{got, failed, Deps}
use scrutineer.Engine.Suite.Types.{SuiteResult, Engine, SuiteState}
use scrutineer.Engine.Suite.{exit_code, run_suite_simple, run_reported, summarise, tally, run_tests}
use scrutineer.Engine.Runner.{
  run_asserts, in_connector, run_test, run_step, step_parameters, run_captures, after_execute,
  with_connector, run_steps,
}
use scrutineer.Engine.Suite.Accounts.{Accounted, Summed, run_suite_simple_accounts}
use scrutineer.Engine.Suite.Covered.{Fate, run_suite_simple_covers}
use scrutineer.Engine.Execution.{
  Surroundings, repeat_of, run_suite_with_execution, interactions_of, mode_of, run_suite,
  run_suites,
}
use scrutineer.Engine.Execution.Settles.{run_suite_with_execution_settles}
use scrutineer.Engine.Execution.Uncovered.{run_suite_with_execution_uncovered}
use scrutineer.Engine.Execution.Orders.{Fair}
use scrutineer.Engine.Execution.Totals.{Repeated, run_suite_with_execution_total}
use mathlib.Core.List.Perm
use mathlib.Core.Option
use scrutineer.Prelude.{
  ℕ, ◌+◌, ◌<◌, ◌≡◌, refl, Bool, true, false, none, some, List, [], ◌∷◌, arith, GoMap, lookup, Str,
  codes, str_eq, range, if◌then◌else◌,
}

-- As in the tests of the runner: the action "bad" fails, and the state counts the calls of Execute.
abbrev deps : Deps ℕ Str Str Str
deps = record {
  is_cancelled = λ w. (false, w);
  get = λ name w. (got name, w);
  setup = λ c config w. (none, w);
  execute =
      λ c step w. (if str_eq step.action (codes "bad") then failed (codes "no") else got [], w + 1);
  teardown = λ c w. w;
  interpolate = λ m w. (got m, w);
  set_capture = λ var v w. w;
  parse_duration = λ s. none;
  extract = λ m path. got path;
  as_string = λ v. some v;
  of_map = λ m. [];
  build = λ operator expected options. got operator;
  evaluate = λ a v w. (none, w);
  itoa = λ n. (n + 48) ∷ [];
}

abbrev engine : Engine Str
engine = record { has_telemetry = true; has_coverage = true; connector_configs = none }

abbrev test : Str → Bool → Str → Test Str
test name skip action = record {
  name = name;
  connector = codes "http";
  tags = [];
  skip = skip;
  weight = 1;
  steps =
      record {
        connector = [];
        action = action;
        parameters = [];
        assert = [];
        capture = [];
        timeout = [];
      }
      ∷ [];
}

abbrev first : Test Str
first = test (codes "a") false (codes "get")

abbrev second : Test Str
second = test (codes "b") true (codes "get")

abbrev third : Test Str
third = test (codes "c") false (codes "bad")

abbrev suite : TestSuite Str
suite = record {
  suite = codes "s";
  tags = [];
  setup = [];
  teardown = [];
  fixtures = [];
  tests = first ∷ second ∷ third ∷ [];
  execution = none;
  interactions = [];
}

abbrev start : SuiteState ℕ
start = record { world = 0; tracker = new_tracker; trace = [] }

abbrev new_context : Str → Str → GoMap Str → ℕ → ℕ
new_context s t m w = w

run_suite_simple_accounts_example :
    Accounted suite.tests (run_suite_simple deps engine new_context suite start).0
run_suite_simple_accounts_example = run_suite_simple_accounts deps engine new_context suite start

run_suite_simple_covers_example :
    (td : TestData) × (find_test
        (codes "s")
        (codes "b")
        (run_suite_simple deps engine new_context suite start).1.tracker
      ≡ some td)
    × Fate second td
    × Reported (codes "s") td (run_suite_simple deps engine new_context suite start).1.tracker
unfolding str_eq find_test lookup
run_suite_simple_covers_example =
    run_suite_simple_covers deps engine refl new_context suite start (first ∷ []) second
      (third ∷ []) refl (refl, tt) (refl, tt) refl new_tracker-Inv

abbrev exec : Execution Str
exec = record {
  mode = mode_random;
  concurrency = 0;
  duration = [];
  repeat = 2;
  interval = [];
  fleet = none;
}

-- A shuffle that swaps nothing, and arrivals in order.
abbrev surroundings : Surroundings ℕ Str
surroundings = record {
  new_context = new_context;
  in_interaction = λ name pass w. w;
  name_test = λ name w. w;
  is_stopped = λ w. false;
  wait = λ w. (w, false);
  shuffle = λ w. (λ k. k, w);
  picks = λ weights count w. ([], w);
  arrivals = λ n count w. (range 0 count, w);
  has_fleet_registry = false;
  set_up_fleet = λ config w. (none, w);
  select_provider = λ w. ([], w);
  tear_down_fleet = λ w. w;
}

surroundings-Fair : Fair surroundings
surroundings-Fair = record { shuffles = λ w k. omega arith; arrives = λ n count w. Perm.refl _ }

repeats : 0 < repeat_of deps engine surroundings exec
unfolding repeat_of
repeats = omega arith

-- The suite once more, with the execution block.
abbrev twice : TestSuite Str
twice = record suite { suite = codes "t"; execution = some exec }

failing_exit_code :
    Option.map (λ p. exit_code p.0) (run_suites deps engine surroundings (suite ∷ []) start)
    ≡ some 1
unfolding exit_code run_suites run_suite run_suite_simple summarise tally run_tests run_reported
    run_test run_steps run_step with_connector in_connector step_parameters str_eq after_execute
    run_captures run_asserts
failing_exit_code = refl

run_suite_with_execution_settles_example :
    (p : SuiteResult × SuiteState ℕ) × (run_suite_with_execution deps engine surroundings
        (repeat_of deps engine surroundings exec)
        suite
        exec
        start
      ≡ some p)
    × Summed p.0
unfolding str_eq interactions_of mode_of
run_suite_with_execution_settles_example =
    run_suite_with_execution_settles deps engine surroundings suite exec start repeats refl
      (refl, tt)

run_suite_with_execution_uncovered_example :
    (p : SuiteResult × SuiteState ℕ) × (run_suite_with_execution deps engine surroundings
        (repeat_of deps engine surroundings exec)
        suite
        exec
        start
      ≡ some p)
    × (p.1.tracker ≡ new_tracker)
unfolding lookup
run_suite_with_execution_uncovered_example =
    run_suite_with_execution_uncovered deps engine surroundings suite exec start repeats refl

run_suite_with_execution_total_example :
    (p : SuiteResult × SuiteState ℕ) × (run_suite_with_execution deps engine surroundings
        (repeat_of deps engine surroundings exec)
        suite
        exec
        start
      ≡ some p)
    × Repeated
        (repeat_of deps engine surroundings exec)
        (interactions_of (codes "s") [] suite.tests)
        []
        p
unfolding str_eq interactions_of mode_of
run_suite_with_execution_total_example =
    run_suite_with_execution_total deps engine surroundings surroundings-Fair (λ w. refl)
      (λ w. refl) suite exec start refl repeats refl (refl, tt)
