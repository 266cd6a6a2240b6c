-- ===== src/Schema/Validate/Spec.antt =====
-- What the validation asks of a suite and of a configuration, in terms of their fields alone.
use scrutineer.Prelude.{
  ◌%◌, ◌^◌, ◌<◌, ◌≡◌, ◌⊎◌, Bool, true, false, ◌&&◌, not, Option, none, some, [], map, Str, str_eq,
  sum, All,
}
use scrutineer.Schema.Types.{
  mode_concurrent, mode_weighted, valid_execution_modes, FleetProvider, FleetConfig, Config,
  ReporterConfig, valid_reporter_types, Execution, TestStep, Test, Interaction, TestSuite,
}
use scrutineer.Schema.Validate.{is_positive, is_empty, is_member}

module _ {V : Type 0} where
  abbrev pub HasAction : TestStep V → Type 0
  HasAction s = is_empty s.action ≡ false

  -- A test with a name, a step, a weight that is not negative, and an action in every step.
  abbrev pub ValidTest : Test V → Type 0
  ValidTest t =
      (is_empty t.name ≡ false)
      × ((is_empty t.steps ≡ false) × ((t.weight < 2 ^ 63) × (All HasAction t.steps)))

  abbrev pub ValidInteraction : Interaction V → Type 0
  ValidInteraction inter =
      (is_empty inter.name ≡ false)
      × ((inter.weight < 2 ^ 63)
          × (((inter.mode ≡ []) ⊎ (is_member inter.mode valid_execution_modes ≡ true))
              × ((is_empty inter.tests ≡ false) × (All ValidTest inter.tests))))

  abbrev pub ValidProvider : FleetProvider V → Type 0
  ValidProvider p = (is_empty p.provider ≡ false) × ((p.weight < 2 ^ 63) × ((p.ttl < 2 ^ 63)))

  -- The weights sum to 100, in the arithmetic of a 64-bit int.
  abbrev pub ValidFleet : FleetConfig V → Type 0
  ValidFleet fleet =
      (is_empty fleet.providers ≡ false)
      × (All ValidProvider fleet.providers
          × ((sum (map (λ (p : FleetProvider V). p.weight) fleet.providers) % 2 ^ 64 ≡ 100)))

  abbrev pub FleetOk : Option (FleetConfig V) → Type 0
  FleetOk none = Unit
  FleetOk (some fleet) = ValidFleet fleet

  -- The modes that need a bound have it: a concurrent block a concurrency, a block without a repeat
  -- count a duration, and so has a weighted one.
  abbrev pub ValidExecution : (Str → Bool) → Execution V → Type 0
  ValidExecution parses exec =
      ((exec.mode ≡ []) ⊎ (is_member exec.mode valid_execution_modes ≡ true))
      × ((exec.concurrency < 2 ^ 63)
          × (((str_eq exec.mode mode_concurrent ≡ false) ⊎ (0 < exec.concurrency))
              × (((exec.duration ≡ []) ⊎ (parses exec.duration ≡ true))
                  × (((exec.interval ≡ []) ⊎ (parses exec.interval ≡ true))
                      × ((exec.repeat < 2 ^ 63)
                          × (((0 < exec.repeat) ⊎ (is_empty exec.duration ≡ false))
                              × (((str_eq exec.mode mode_weighted ≡ false)
                                    ⊎ (is_empty exec.duration && not (is_positive exec.repeat)
                                        ≡ false))
                                  × (FleetOk exec.fleet))))))))

  abbrev pub BlockOk : (Str → Bool) → Option (Execution V) → Type 0
  BlockOk parses none = Unit
  BlockOk parses (some exec) = ValidExecution parses exec

  -- A suite with a name that has tests or interactions, not both, all of them valid.
  abbrev pub ValidSuite : (Str → Bool) → TestSuite V → Type 0
  ValidSuite parses suite =
      (is_empty suite.suite ≡ false)
      × ((is_empty suite.tests ≡ not (is_empty suite.interactions))
          × (All ValidTest suite.tests
              × (All ValidInteraction suite.interactions × (BlockOk parses suite.execution))))

  -- A configuration with a test path, no negative parallelism and reporters that exist.
  abbrev pub ValidConfig : Config V → Type 0
  ValidConfig config =
      (is_empty config.tests ≡ false)
      × ((config.parallelism < 2 ^ 63)
          × All (λ (r : ReporterConfig). is_member r.kind valid_reporter_types ≡ true)
              config.reporters)
