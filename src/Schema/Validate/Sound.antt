-- ===== src/Schema/Validate/Sound.antt =====
-- A suite passes the validation exactly if it is well formed, and so does a configuration.
use scrutineer.Prelude.{
  ℕ, suc, ◌<◌, ◌≡◌, refl, ◌↔◌, ◌⊎◌, Bool, true, false, ◌&&◌, not, Option, none, some, List, [], ◌∷◌,
  arith, Str, str_eq, ◌==◌, All,
}
use scrutineer.Schema.Types.{
  mode_concurrent, mode_weighted, valid_execution_modes, Config, ReporterConfig,
  valid_reporter_types, Execution, TestSuite,
}
use scrutineer.Schema.Validate.{
  of_suite, Problem, is_negative, is_positive, is_empty, is_member, validate_execution,
  validate_block, validate_suite, validate_config, validate_reporters,
}
use scrutineer.Schema.Validate.Checks.{
  with_check, with_list, given, not_negative, optional, not_both, guarded,
}
use scrutineer.Schema.Validate.Spec.{
  ValidTest, ValidInteraction, BlockOk, ValidExecution, ValidSuite, ValidConfig,
}
use scrutineer.Schema.Validate.Parts.{
  validate_tests_nil, validate_interactions_nil, validate_fleet_nil,
}

is_not : (b : Bool) → (not b ≡ false) ↔ (b ≡ true)
is_not true = (λ e. refl, λ e. refl)
is_not false = (λ e. cc, λ e. cc)

validate_reporters_nil :
    (i : ℕ) (rs : List ReporterConfig)
    → (validate_reporters i rs ≡ [])
      ↔ All (λ (r : ReporterConfig). is_member r.kind valid_reporter_types ≡ true) rs
unfolding validate_reporters
validate_reporters_nil i [] = (λ e. tt, λ a. refl)
validate_reporters_nil i (r ∷ rs) =
    with_check (not (is_member r.kind valid_reporter_types)) (Problem.reporter_type i r.kind)
      (is_not (is_member r.kind valid_reporter_types)) (validate_reporters_nil (suc i) rs)

module _ {V : Type 0} where
  -- The three checks that ask for a bound.
  concurrency_given :
      (exec : Execution V)
      → (str_eq exec.mode mode_concurrent && (exec.concurrency == 0) ≡ false)
        ↔ ((str_eq exec.mode mode_concurrent ≡ false) ⊎ (0 < exec.concurrency))
  concurrency_given exec = ground arith

  bound_given :
      (exec : Execution V)
      → ((exec.repeat == 0) && is_empty exec.duration ≡ false)
        ↔ ((0 < exec.repeat) ⊎ (is_empty exec.duration ≡ false))
  bound_given exec = ground arith

  validate_execution_nil :
      (parses : Str → Bool) (exec : Execution V)
      → (validate_execution parses exec ≡ []) ↔ ValidExecution parses exec
  unfolding validate_execution
  validate_execution_nil parses exec =
      with_check (not (is_empty exec.mode) && not (is_member exec.mode valid_execution_modes))
        (Problem.execution_mode exec.mode)
        (optional exec.mode (is_member exec.mode valid_execution_modes))
        (with_check (is_negative exec.concurrency) Problem.concurrency_negative
          (not_negative exec.concurrency)
          (with_check (str_eq exec.mode mode_concurrent && (exec.concurrency == 0))
            Problem.concurrency_missing (concurrency_given exec)
            (with_check (not (is_empty exec.duration) && not (parses exec.duration))
              (Problem.bad_duration exec.duration) (optional exec.duration (parses exec.duration))
              (with_check (not (is_empty exec.interval) && not (parses exec.interval))
                (Problem.bad_interval exec.interval) (optional exec.interval (parses exec.interval))
                (with_check (is_negative exec.repeat) Problem.repeat_negative
                  (not_negative exec.repeat)
                  (with_check ((exec.repeat == 0) && is_empty exec.duration) Problem.unlimited
                    (bound_given exec)
                    (with_check
                      (str_eq exec.mode mode_weighted
                        && (is_empty exec.duration && not (is_positive exec.repeat)))
                      Problem.weighted_unlimited
                      (not_both (str_eq exec.mode mode_weighted)
                        (is_empty exec.duration && not (is_positive exec.repeat)))
                      (validate_fleet_nil exec.fleet))))))))

  validate_block_nil :
      (parses : Str → Bool) (block : Option (Execution V))
      → (validate_block parses block ≡ []) ↔ BlockOk parses block
  unfolding validate_block
  validate_block_nil parses none = (λ e. tt, λ a. refl)
  validate_block_nil parses (some exec) = validate_execution_nil parses exec

  -- ValidateSuite accepts a suite if and only if it has a name, tests or interactions and not both,
  -- every test and interaction is valid, and the execution block, if there is one, is valid: its mode
  -- is known, its durations parse, a concurrent block has a concurrency, a block without a repeat
  -- count has a duration, and the weights of its fleet's providers sum to 100.
  pub validate_suite_iff :
      (parses : Str → Bool) (suite : TestSuite V)
      → (validate_suite parses suite ≡ []) ↔ ValidSuite parses suite
  unfolding validate_suite
  validate_suite_iff parses suite =
      let has_tests = not (is_empty suite.tests) in
      let has_interactions = not (is_empty suite.interactions) in
      let checks = with_check (is_empty suite.suite) Problem.suite_no_name given (
        with_check (has_tests && has_interactions) Problem.tests_and_interactions given (
          with_check (not has_tests && not has_interactions) Problem.nothing_to_run given (
            with_list (guarded suite.tests ValidTest _ (validate_tests_nil of_suite 0 suite.tests))
              (with_list
                (guarded suite.interactions ValidInteraction _
                  (validate_interactions_nil 0 suite.interactions))
                (validate_block_nil parses suite.execution))))) in
      let one : ((has_tests && has_interactions ≡ false)
            × (not has_tests && not has_interactions ≡ false))
          ↔ (is_empty suite.tests ≡ not (is_empty suite.interactions)) =
        ground arith in
      (
        λ e. let (a, (b, (c, rest))) = checks.0 e in (a, (one.0 (b, c), rest)),
        λ (a, (b, rest)). let (c, d) = one.1 b in checks.1 (a, (c, (d, rest))),
      )

  -- ValidateConfig accepts a configuration if and only if it has a test path, its parallelism is not
  -- negative, and each reporter is of a type that exists.
  pub validate_config_iff : (config : Config V) → (validate_config config ≡ []) ↔ ValidConfig config
  unfolding validate_config
  validate_config_iff config = with_check (is_empty config.tests) Problem.no_test_paths given (
      with_check (is_negative config.parallelism) Problem.bad_parallelism
        (not_negative config.parallelism) (validate_reporters_nil 0 config.reporters))
