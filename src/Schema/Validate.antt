-- ===== src/Schema/Validate.antt =====
-- core/schema/validate.go. A ValidationError is the list of its entries in the order in which they
-- are added; an entry is a `Problem`, which has the indices and the value that its text is made of.
-- time.ParseDuration is the parameter `parses`: whether it accepts the text.
mod Checks
pub mod Spec
mod Parts
pub mod Sound
use scrutineer.Prelude.{
  ℕ, zero, suc, ◌+◌, ◌-◌, ◌*◌, ◌/◌, ◌%◌, ◌^◌, ◌≤◌, ◌<◌, ◌≡◌, refl, sym, ap, ◌∙◌, ◌≢◌, ◌↔◌, ◌⊎◌, inl,
  inr, Bool, true, false, ◌&&◌, ◌||◌, not, Option, none, some, List, [], ◌∷◌, ◌++◌, map,
  append_assoc, append-nil, arith, GoMap, lookup, insert, keys, lookup-insert, lookup-insert_self,
  Bytes, Str, codes, str_eq, str_le, str_eq_iff, str_eq_refl, range, sum, ltb, leb, ◌==◌,
  if◌then◌else◌, Bool-cases, Option-cases, length, get_elem?, get_or, set, take, drop, All,
  length-append, length-set, take-length_append, drop-length_append, length-map, ltb→lt, lt→ltb,
  ltb-false, le→ltb-false, leb→le, ==_iff,
}
use scrutineer.Schema.Types.{
  ExecutionMode, mode_concurrent, mode_weighted, valid_execution_modes, FleetProvider, FleetConfig,
  Execution, TestStep, Test, Interaction, TestSuite, ReporterConfig, valid_reporter_types, Config,
}

-- The prefix of a test's messages: of the suite's own tests it is empty.
pub data Place : Type 0 where
  of_suite : Place
  of_interaction : ℕ → Place

pub data Problem : Type 0 where
  test_no_name : Place → ℕ → Problem
  test_no_steps : Place → ℕ → Problem
  test_weight : Place → ℕ → Problem
  step_no_action : Place → ℕ → ℕ → Problem
  suite_no_name : Problem
  tests_and_interactions : Problem
  nothing_to_run : Problem
  execution_mode : Str → Problem
  concurrency_negative : Problem
  concurrency_missing : Problem
  bad_duration : Str → Problem
  bad_interval : Str → Problem
  repeat_negative : Problem
  unlimited : Problem
  weighted_unlimited : Problem
  interaction_no_name : ℕ → Problem
  interaction_weight : ℕ → Problem
  interaction_mode : ℕ → Str → Problem
  interaction_no_tests : ℕ → Problem
  no_providers : Problem
  provider_no_name : ℕ → Problem
  provider_weight : ℕ → Problem
  provider_ttl : ℕ → Problem
  weights_sum : ℕ → Problem
  no_test_paths : Problem
  bad_parallelism : Problem
  reporter_type : ℕ → Str → Problem

-- x < 0, for a 64-bit int given by its pattern.
abbrev pub is_negative : ℕ → Bool
is_negative x = leb (2 ^ 63) x

-- x > 0
abbrev pub is_positive : ℕ → Bool
is_positive x = not (is_negative x) && not (x == 0)

-- s == "", and len(xs) == 0
abbrev pub is_empty {ℓ} : {A : Type ℓ} → List A → Bool
is_empty [] = true
is_empty (x ∷ xs) = false

unfoldable pub is_member : Str → List Str → Bool
is_member s [] = false
is_member s (t ∷ ts) = str_eq s t || is_member s ts

-- One group of checks behind the other.
infixr 40 ◌+++◌
abbrev pub ◌+++◌ : List Problem → List Problem → List Problem
ps +++ qs = ps ++ qs

-- if c { ve.add(p) }
unfoldable pub add_if : Bool → Problem → List Problem
add_if c p = if c then p ∷ [] else []

-- The loop over the reporters, from index i on.
unfoldable pub validate_reporters : ℕ → List ReporterConfig → List Problem
validate_reporters i [] = []
validate_reporters i (r ∷ reporters) =
    add_if (not (is_member r.kind valid_reporter_types)) (reporter_type i r.kind)
    +++ validate_reporters (suc i) reporters

module _ {V : Type 0} where
  -- The loop over the steps, from index j on.
  unfoldable pub validate_steps : Place → ℕ → ℕ → List (TestStep V) → List Problem
  validate_steps p i j [] = []
  validate_steps p i j (s ∷ steps) =
      add_if (is_empty s.action) (step_no_action p i j) +++ validate_steps p i (suc j) steps

  -- validateTests, from index i on.
  unfoldable pub validate_tests : Place → ℕ → List (Test V) → List Problem
  validate_tests p i [] = []
  validate_tests p i (t ∷ tests) =
      add_if (is_empty t.name) (test_no_name p i)
      +++ add_if (is_empty t.steps) (test_no_steps p i)
      +++ add_if (is_negative t.weight) (test_weight p i)
      +++ validate_steps p i 0 t.steps
      +++ validate_tests p (suc i) tests

  -- The loop over the providers, from index i on, with the weight summed so far.
  unfoldable pub validate_providers : ℕ → ℕ → List (FleetProvider V) → List Problem
  validate_providers i total [] = add_if (not (total == 100)) (weights_sum total)
  validate_providers i total (p ∷ providers) =
      add_if (is_empty p.provider) (provider_no_name i)
      +++ add_if (is_negative p.weight) (provider_weight i)
      +++ add_if (is_negative p.ttl) (provider_ttl i)
      +++ validate_providers (suc i) ((total + p.weight) % 2 ^ 64) providers

  -- validateFleetConfig
  unfoldable pub validate_fleet_config : FleetConfig V → List Problem
  validate_fleet_config fleet =
      if is_empty fleet.providers then no_providers ∷ [] else validate_providers 0 0 fleet.providers

  -- validateInteraction
  unfoldable pub validate_interaction : Interaction V → ℕ → List Problem
  validate_interaction inter index =
      add_if (is_empty inter.name) (interaction_no_name index)
      +++ add_if (is_negative inter.weight) (interaction_weight index)
      +++ add_if (not (is_empty inter.mode) && not (is_member inter.mode valid_execution_modes))
          (interaction_mode index inter.mode)
      +++ add_if (is_empty inter.tests) (interaction_no_tests index)
      +++ validate_tests (of_interaction index) 0 inter.tests

  -- The loop over the interactions, from index i on.
  unfoldable pub validate_interactions : ℕ → List (Interaction V) → List Problem
  validate_interactions i [] = []
  validate_interactions i (inter ∷ inters) =
      validate_interaction inter i +++ validate_interactions (suc i) inters

  unfoldable pub validate_fleet : Option (FleetConfig V) → List Problem
  validate_fleet none = []
  validate_fleet (some fleet) = validate_fleet_config fleet

  -- validateExecution
  unfoldable pub validate_execution : (Str → Bool) → Execution V → List Problem
  validate_execution parses exec =
      add_if (not (is_empty exec.mode) && not (is_member exec.mode valid_execution_modes))
        (execution_mode exec.mode)
      +++ add_if (is_negative exec.concurrency) concurrency_negative
      +++ add_if (str_eq exec.mode mode_concurrent && (exec.concurrency == 0)) concurrency_missing
      +++ add_if (not (is_empty exec.duration) && not (parses exec.duration))
          (bad_duration exec.duration)
      +++ add_if (not (is_empty exec.interval) && not (parses exec.interval))
          (bad_interval exec.interval)
      +++ add_if (is_negative exec.repeat) repeat_negative
      +++ add_if ((exec.repeat == 0) && is_empty exec.duration) unlimited
      +++ add_if
          (str_eq exec.mode mode_weighted
            && (is_empty exec.duration && not (is_positive exec.repeat)))
          weighted_unlimited
      +++ validate_fleet exec.fleet

  unfoldable pub validate_block : (Str → Bool) → Option (Execution V) → List Problem
  validate_block parses none = []
  validate_block parses (some exec) = validate_execution parses exec

  -- The entries of ValidateSuite; it returns nil if there are none.
  unfoldable pub validate_suite : (Str → Bool) → TestSuite V → List Problem
  validate_suite parses suite =
      let has_tests = not (is_empty suite.tests) in
      let has_interactions = not (is_empty suite.interactions) in
      add_if (is_empty suite.suite) suite_no_name
      +++ add_if (has_tests && has_interactions) tests_and_interactions
      +++ add_if (not has_tests && not has_interactions) nothing_to_run
      +++ (if has_tests then validate_tests of_suite 0 suite.tests else [])
      +++ (if has_interactions then validate_interactions 0 suite.interactions else [])
      +++ validate_block parses suite.execution

  -- The entries of ValidateConfig.
  unfoldable pub validate_config : Config V → List Problem
  validate_config config =
      add_if (is_empty config.tests) no_test_paths
      +++ add_if (is_negative config.parallelism) bad_parallelism
      +++ validate_reporters 0 config.reporters
