-- ===== src/Engine/Execution.antt =====
-- core/engine/engine.go: a suite with an execution block or with interactions, over the dispatchers and
-- the loop controller. The concurrent dispatcher runs whole items here, in the order in which they
-- arrive (Engine/Concurrent has its interleavings).
pub mod Keeps
pub mod Uncovered
pub mod Settles
pub mod Orders
pub mod Gauge
pub mod Totals
pub mod Exit
use scrutineer.Schema.Types.{
  FleetConfig, Execution, Test, Interaction, TestSuite, mode_sequential, mode_weighted,
}
use scrutineer.Engine.Dispatcher.{
  Dispatcher, sequential_dispatcher, random_dispatcher, concurrent_dispatcher, weighted_dispatcher,
  new_dispatcher, random_order, weighted_order, dispatch_each,
}
use scrutineer.Engine.Loop.{run}
use scrutineer.Engine.Runner.Types.{TestResult, Deps, setup_error}
use scrutineer.Engine.Runner.{blank}
use scrutineer.Engine.Suite.Types.{
  SuiteResult, Engine, SuiteEvent, suite_start, suite_end, interaction_start, interaction_end,
  SuiteHappening, suite_started, suite_ended, SuiteState,
}
use scrutineer.Engine.Suite.{summarise, new_result, tell, write, run_reported, run_suite_simple}
use scrutineer.Prelude.{
  ℕ, zero, suc, ◌+◌, ◌-◌, ◌*◌, ◌/◌, ◌%◌, ◌^◌, ◌≤◌, ◌<◌, ◌≡◌, refl, sym, ap, ◌∙◌, ◌≢◌, ◌↔◌, ◌⊎◌, inl,
  inr, Bool, true, false, ◌&&◌, ◌||◌, not, Option, none, some, List, [], ◌∷◌, ◌++◌, map,
  append_assoc, append-nil, arith, GoMap, lookup, insert, keys, lookup-insert, lookup-insert_self,
  Bytes, Str, codes, str_eq, str_le, str_eq_iff, str_eq_refl, range, sum, ltb, leb, ◌==◌,
  if◌then◌else◌, Bool-cases, Option-cases, length, get_elem?, get_or, set, take, drop, All,
  length-append, length-set, take-length_append, drop-length_append, length-map, ltb→lt, lt→ltb,
  ltb-false, le→ltb-false, leb→le, ==_iff,
}

-- What the engine calls besides the runner: the variable store of a TestContext, the context that the
-- loop controller derives, the random numbers, the arrival of concurrent items, and the fleet.
pub record Surroundings (W V : Type 0) : Type 0 where
  pub new_context : Str → Str → GoMap V → W → W
  pub in_interaction : Str → ℕ → W → W
  pub name_test : Str → W → W
  pub is_stopped : W → Bool
  pub wait : W → W × Bool
  pub shuffle : W → (ℕ → ℕ) × W
  pub picks : List ℕ → ℕ → W → List ℕ × W
  pub arrivals : ℕ → ℕ → W → List ℕ × W
  pub has_fleet_registry : Bool
  pub set_up_fleet : FleetConfig V → W → Option Str × W
  pub select_provider : W → Str × W
  pub tear_down_fleet : W → W

-- An int as a count, where a negative one stands for 0.
abbrev pub not_negative : ℕ → ℕ
not_negative n = if ltb n (2 ^ 63) then n else 0

-- if w <= 0 { w = 1 }
abbrev pub weight_or_one : ℕ → ℕ
weight_or_one w = if not_negative w == 0 then 1 else w

abbrev pub default_execution : {V : Type 0} → Execution V
default_execution = record {
  mode = mode_sequential;
  concurrency = 0;
  duration = [];
  repeat = 1;
  interval = [];
  fleet = none;
}

-- The result of a suite whose fleet is not set up.
abbrev pub fleet_failed : Str → Str → SuiteResult
fleet_failed suite problem = record {
  suite = suite;
  results =
      record {
        passed = false;
        steps =
            record {
              name = codes "fleet-setup";
              passed = false;
              error = some (setup_error problem);
            }
            ∷ [];
      }
      ∷ [];
  passed = 0;
  failed = 1;
  skipped = 0;
}

module _ {V : Type 0} where
  -- The tests of a suite without interactions are one interaction.
  unfoldable pub interactions_of : Str → List (Interaction V) → List (Test V) → List (Interaction V)
  interactions_of suite (inter ∷ inters) tests = inter ∷ inters
  interactions_of suite [] [] = []
  interactions_of suite [] (test ∷ tests) =
      record { name = suite; weight = 0; mode = mode_sequential; tests = test ∷ tests } ∷ []

  unfoldable pub total_tests : List (Interaction V) → ℕ
  total_tests [] = 0
  total_tests (inter ∷ inters) = length inter.tests + total_tests inters

  unfoldable pub mode_of : Interaction V → Str
  mode_of inter = if blank inter.mode then mode_sequential else inter.mode

module _ {W C A V : Type 0} (d : Deps W C A V) (e : Engine V) (x : Surroundings W V) where
  abbrev pub Progress : Type 0
  Progress = SuiteResult × SuiteState W

  -- parseDuration; a duration is its 64-bit two's complement pattern, so a negative one is not 0.
  unfoldable pub parse_duration : Str → ℕ
  parse_duration s = if blank s then 0 else elim (d.parse_duration s) [ none ↦ 0 | some n ↦ n ]

  -- The indices that a dispatcher takes, in their order.
  unfoldable pub dispatch_order : Dispatcher → ℕ → W → List ℕ × W
  dispatch_order sequential_dispatcher count w = (range 0 count, w)
  dispatch_order random_dispatcher count w =
      let (draw, w') = x.shuffle w in (random_order draw count, w')
  dispatch_order (concurrent_dispatcher n) count w = x.arrivals n count w
  dispatch_order (weighted_dispatcher weights) count w =
      let (draws, w') = x.picks weights count w in (weighted_order weights draws, w')

  abbrev pub stopped : Progress → Bool
  stopped (sr, s) = x.is_stopped s.world

  -- Dispatch. For the concurrent dispatcher this is a run that returns and takes its items as a whole;
  -- on a cancelled context it may also hang (Engine/Concurrent/Hang).
  unfoldable pub dispatch : Dispatcher → ℕ → (ℕ → Progress → Progress) → Progress → Progress
  dispatch dispatcher count work (sr, s) =
      let (order, w) = dispatch_order dispatcher count s.world in
      dispatch_each stopped work order (sr, record s { world = w })

  -- The context of a test in an interaction.
  unfoldable pub test_context : Bool → TestSuite V → Interaction V → ℕ → Test V → W → W
  test_context shared suite inter pass test w =
      if shared
      then x.name_test test.name w
      else x.in_interaction inter.name pass (x.new_context suite.suite test.name suite.fixtures w)

  -- The work on one test of an interaction.
  unfoldable pub interaction_test :
      Bool → TestSuite V → Interaction V → ℕ → Test V → Progress → Progress
  interaction_test shared suite inter pass test (sr, s) = elim test.skip [
    | true ↦ (record sr { skipped = sr.skipped + 1 }, s)
    | false ↦
        let (result, s1) =
          run_reported d e suite.suite test
            (record s { world = test_context shared suite inter pass test s.world }) in
        (record sr { results = sr.results ++ result ∷ [] }, s1)
  ]

  -- The work at an index; one that is out of range is a panic, which does not happen here.
  unfoldable pub at_index :
      {I : Type 0} → List I → (I → Progress → Progress) → ℕ → Progress → Progress
  at_index items work i p = elim (get_elem? items i) [ none ↦ p | some item ↦ work item p ]

  abbrev pub interaction_tags : TestSuite V → Interaction V → ℕ → GoMap Str
  interaction_tags suite inter pass =
      (codes "suite", suite.suite)
      ∷ (codes "interaction", inter.name)
      ∷ (codes "pass", d.itoa pass)
      ∷ []

  abbrev pub provider_tags : Str → GoMap Str
  provider_tags provider = if blank provider then [] else (codes "provider", provider) ∷ []

  -- runInteraction
  unfoldable pub run_interaction : TestSuite V → ℕ → Str → Interaction V → Progress → Progress
  run_interaction suite pass provider inter (sr, s) =
      let mode = mode_of inter in
      let opened = record s {
        world =
            x.in_interaction inter.name pass (x.new_context suite.suite [] suite.fixtures s.world);
      } in
      let begun =
        write e interaction_start
          ((codes "mode", mode) ∷ (interaction_tags suite inter pass ++ provider_tags provider))
          opened in
      let weights = map (λ test. weight_or_one test.weight) inter.tests in
      let (sr1, s1) =
        dispatch (new_dispatcher mode 0 weights) (length inter.tests)
          (at_index inter.tests (interaction_test (str_eq mode mode_sequential) suite inter pass))
          (sr, begun) in
      (sr1, write e interaction_end (interaction_tags suite inter pass) s1)

  -- The work of the outer dispatcher; a provider is selected where there is a fleet.
  unfoldable pub with_provider : Bool → TestSuite V → ℕ → Interaction V → Progress → Progress
  with_provider fleet suite pass inter (sr, s) =
      if fleet
      then (let (provider, w) = x.select_provider s.world in
          run_interaction suite pass provider inter (sr, record s { world = w }))
      else run_interaction suite pass [] inter (sr, s)

  -- One pass.
  unfoldable pub run_pass :
      Bool → TestSuite V → Execution V → List (Interaction V) → ℕ → Progress → Progress
  run_pass fleet suite exec inters pass =
      dispatch
        (new_dispatcher exec.mode (not_negative exec.concurrency)
          (map (λ inter. weight_or_one inter.weight) inters))
        (if str_eq exec.mode mode_weighted then 1 else length inters)
        (at_index inters (with_provider fleet suite pass))

  unfoldable pub repeat_of : Execution V → ℕ
  repeat_of exec =
      if (exec.repeat == 0) && (parse_duration exec.duration == 0)
      then 1
      else not_negative exec.repeat

  abbrev pub wait_between : Progress → Progress × Bool
  wait_between (sr, s) = let (w, done) = x.wait s.world in ((sr, record s { world = w }), done)

  -- The passes, the summary, and the end of the suite; `none` is out of fuel.
  unfoldable pub run_passes :
      ℕ → Bool → TestSuite V → Execution V → List (Interaction V) → SuiteState W → Option Progress
  run_passes fuel fleet suite exec inters s =
      elim (run stopped (run_pass fleet suite exec inters) wait_between fuel (repeat_of exec)
        (not_negative (parse_duration exec.interval)) (new_result suite.suite, s)) [
          | none ↦ none
          | some (sr, s1) ↦
              let sum_up = summarise sr in
              some (
                sum_up,
                write e suite_end ((codes "suite", suite.suite) ∷ [])
                    (tell (suite_ended suite.suite sum_up.passed sum_up.failed sum_up.skipped) s1),
              )
        ]

  -- The deferred call.
  abbrev pub torn_down : Option Progress → Option Progress
  torn_down none = none
  torn_down (some (sr, s)) = some (sr, record s { world = x.tear_down_fleet s.world })

  -- exec.Fleet, where there is a registry
  abbrev pub fleet_of : Execution V → Option (FleetConfig V)
  fleet_of exec = if x.has_fleet_registry then exec.fleet else none

  -- runSuiteWithExecution; `fuel` bounds the passes.
  unfoldable pub run_suite_with_execution :
      ℕ → TestSuite V → Execution V → SuiteState W → Option Progress
  run_suite_with_execution fuel suite exec s =
      let inters = interactions_of suite.suite suite.interactions suite.tests in
      let started = suite_started suite.suite (total_tests inters) in
      let s1 = write e suite_start ((codes "suite", suite.suite) ∷ []) (tell started s) in
      elim (fleet_of exec) [
        | none ↦ run_passes fuel false suite exec inters s1
        | some config ↦
            let (outcome, w) = x.set_up_fleet config s1.world in
            elim outcome [
              | some problem ↦ some (
                fleet_failed suite.suite problem,
                tell (suite_ended suite.suite 0 1 0) (tell started (record s1 { world = w })),
              )
              | none ↦ torn_down (run_passes fuel true suite exec inters (record s1 { world = w }))
            ]
      ]

  -- runSuite
  unfoldable pub run_suite : ℕ → TestSuite V → SuiteState W → Option Progress
  run_suite fuel suite s = elim suite.execution [
    | some exec ↦ run_suite_with_execution fuel suite exec s
    | none ↦ elim suite.interactions [
      | [] ↦ some (run_suite_simple d e x.new_context suite s)
      | inter ∷ inters ↦ run_suite_with_execution fuel suite default_execution s
    ]
  ]

  -- The passes that bound a suite: those that it repeats.
  unfoldable pub passes_of : TestSuite V → ℕ
  passes_of suite = elim suite.execution [ none ↦ 1 | some exec ↦ repeat_of exec ]

  -- Run with a pool of one worker, which takes the suites in turn.
  unfoldable pub run_suites :
      List (TestSuite V) → SuiteState W → Option (List SuiteResult × SuiteState W)
  run_suites [] s = some ([], s)
  run_suites (suite ∷ suites) s = elim (run_suite (passes_of suite) suite s) [
    | none ↦ none
    | some (sr, s1) ↦ elim (run_suites suites s1) [
      | none ↦ none
      | some (srs, s2) ↦ some (sr ∷ srs, s2)
    ]
  ]
