-- ===== src/Schema/Validate/Parts.antt =====
-- The tests, interactions and providers that pass are the valid ones.
use scrutineer.Prelude.{
  ℕ, suc, ◌+◌, ◌%◌, ◌^◌, ◌<◌, ◌≡◌, refl, sym, ◌∙◌, ◌↔◌, inl, inr, false, ◌&&◌, not, Option, none,
  some, List, [], ◌∷◌, map, arith, sum, ◌==◌, Bool-cases, All,
}
use scrutineer.Schema.Types.{
  valid_execution_modes, FleetProvider, FleetConfig, TestStep, Test, Interaction,
}
use scrutineer.Schema.Validate.{
  Place, of_interaction, Problem, is_negative, is_empty, is_member, validate_steps, validate_tests,
  validate_providers, validate_fleet_config, validate_interaction, validate_interactions,
  validate_fleet,
}
use scrutineer.Schema.Validate.Checks.{
  with_check, with_list, last_check, given, not_negative, optional,
}
use scrutineer.Schema.Validate.Spec.{HasAction, ValidTest, ValidInteraction, ValidProvider, FleetOk}

module _ {V : Type 0} where
  pub validate_steps_nil :
      (p : Place) (i j : ℕ) (steps : List (TestStep V))
      → (validate_steps p i j steps ≡ []) ↔ All HasAction steps
  unfolding validate_steps
  validate_steps_nil p i j [] = (λ e. tt, λ a. refl)
  validate_steps_nil p i j (s ∷ steps) =
      with_check (is_empty s.action) (Problem.step_no_action p i j) given
        (validate_steps_nil p i (suc j) steps)

  pub validate_tests_nil :
      (p : Place) (i : ℕ) (tests : List (Test V))
      → (validate_tests p i tests ≡ []) ↔ All ValidTest tests
  unfolding validate_tests
  validate_tests_nil p i [] = (λ e. tt, λ a. refl)
  validate_tests_nil p i (t ∷ tests) =
      let checks = with_check (is_empty t.name) (Problem.test_no_name p i) given (
        with_check (is_empty t.steps) (Problem.test_no_steps p i) given (
          with_check (is_negative t.weight) (Problem.test_weight p i) (not_negative t.weight)
            (with_list (validate_steps_nil p i 0 t.steps) (validate_tests_nil p (suc i) tests)))) in
      (
        λ e. let (a, (b, (c, (d, rest)))) = checks.0 e in ((a, (b, (c, d))), rest),
        λ ((a, (b, (c, d))), rest). checks.1 (a, (b, (c, (d, rest)))),
      )

  pub validate_interaction_nil :
      (inter : Interaction V) (i : ℕ) → (validate_interaction inter i ≡ []) ↔ ValidInteraction inter
  unfolding validate_interaction
  validate_interaction_nil inter i =
      with_check (is_empty inter.name) (Problem.interaction_no_name i) given (
        with_check (is_negative inter.weight) (Problem.interaction_weight i)
          (not_negative inter.weight)
          (with_check
            (not (is_empty inter.mode) && not (is_member inter.mode valid_execution_modes))
            (Problem.interaction_mode i inter.mode)
            (optional inter.mode (is_member inter.mode valid_execution_modes))
            (with_check (is_empty inter.tests) (Problem.interaction_no_tests i) given
              (validate_tests_nil (of_interaction i) 0 inter.tests))))

  pub validate_interactions_nil :
      (i : ℕ) (inters : List (Interaction V))
      → (validate_interactions i inters ≡ []) ↔ All ValidInteraction inters
  unfolding validate_interactions
  validate_interactions_nil i [] = (λ e. tt, λ a. refl)
  validate_interactions_nil i (inter ∷ inters) =
      with_list (validate_interaction_nil inter i) (validate_interactions_nil (suc i) inters)

  pub validate_providers_nil :
      (i total : ℕ) (providers : List (FleetProvider V))
      → total < 2 ^ 64
      → (validate_providers i total providers ≡ []) ↔ (
          All ValidProvider providers
          × ((total + sum (map (λ (p : FleetProvider V). p.weight) providers)) % 2 ^ 64 ≡ 100))
  unfolding validate_providers sum
  validate_providers_nil i total [] small =
      let check : (not (total == 100) ≡ false) ↔ ((total + 0) % 2 ^ 64 ≡ 100) = ground arith in
      let last = last_check (not (total == 100)) (Problem.weights_sum total) check in
      (λ e. (tt, last.0 e), λ (a, h). last.1 h)
  validate_providers_nil i total (p ∷ providers) small =
      let s = sum (map (λ (p : FleetProvider V). p.weight) providers) in
      let shift : ((total + p.weight) % 2 ^ 64 + s) % 2 ^ 64 ≡ (total + (p.weight + s)) % 2 ^ 64 =
        omega arith in
      let below : (total + p.weight) % 2 ^ 64 < 2 ^ 64 = omega arith in
      let checks = with_check (is_empty p.provider) (Problem.provider_no_name i) given (
        with_check (is_negative p.weight) (Problem.provider_weight i) (not_negative p.weight) (
          with_check (is_negative p.ttl) (Problem.provider_ttl i) (not_negative p.ttl)
            (validate_providers_nil (suc i) ((total + p.weight) % 2 ^ 64) providers below))) in
      (
        λ e.
            let (a, (b, (c, (rest, total_ok)))) = checks.0 e in
            (((a, (b, c)), rest), sym shift ∙ total_ok),
        λ (((a, (b, c)), rest), total_ok). checks.1 (a, (b, (c, (rest, shift ∙ total_ok)))),
      )

  pub validate_fleet_nil :
      (fleet : Option (FleetConfig V)) → (validate_fleet fleet ≡ []) ↔ FleetOk fleet
  unfolding validate_fleet validate_fleet_config
  validate_fleet_nil none = (λ e. tt, λ a. refl)
  validate_fleet_nil (some fleet) = elim (Bool-cases (is_empty fleet.providers)) [
    | inl t ↦ (λ e. cc (e, t), λ (a, b). cc (a, t))
    | inr f ↦
        let rest = validate_providers_nil 0 0 fleet.providers (omega arith) in
        let s = sum (map (λ (p : FleetProvider V). p.weight) fleet.providers) in
        let at_zero : (0 + s) % 2 ^ 64 ≡ s % 2 ^ 64 = omega arith in
        (
          λ e. let (all, total) = rest.0 (rw f at e) in (f, (all, sym at_zero ∙ total)),
          λ (a, (all, total)). rw f (rest.1 (all, at_zero ∙ total)),
        )
  ]
