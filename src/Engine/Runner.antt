-- ===== src/Engine/Runner.antt =====
-- core/engine/runner.go: one test, step by step. What the runner calls (connectors, the variable
-- store, the assertion builder, the context) is a parameter over a state `W` that each call may change.
-- What it reports is kept as a trace, newest first: telemetry records, coverage calls, the reporter's
-- OnStepResult, and the calls of a connector. Times are left out.
pub mod Types
pub mod Brackets
pub mod Verdict
mod Tests
use scrutineer.Prelude.{
  ℕ, zero, suc, ◌+◌, ◌-◌, ◌*◌, ◌/◌, ◌%◌, ◌^◌, ◌≤◌, ◌<◌, ◌≡◌, refl, sym, ap, ◌∙◌, ◌≢◌, ◌↔◌, ◌⊎◌, inl,
  inr, Bool, true, false, ◌&&◌, ◌||◌, not, Option, none, some, List, [], ◌∷◌, ◌++◌, map,
  append_assoc, append-nil, arith, GoMap, lookup, insert, keys, lookup-insert, lookup-insert_self,
  Bytes, Str, codes, str_eq, str_le, str_eq_iff, str_eq_refl, range, sum, ltb, leb, ◌==◌,
  if◌then◌else◌, Bool-cases, Option-cases, length, get_elem?, get_or, set, take, drop, All,
  length-append, length-set, take-length_append, drop-length_append, length-map, ltb→lt, lt→ltb,
  ltb-false, le→ltb-false, leb→le, ==_iff,
}
use scrutineer.Schema.Types.{TestStep, Test}
use scrutineer.Engine.Runner.Types.{
  Tried, EventType, Happening, StepError, StepResult, TestResult, ConnectorStep, Deps, Runner,
  State, got, failed, test_start, test_pass, test_fail, step_start, step_end, assertion,
  connector_setup, connector_teardown, error, emitted, set_up, executed, torn_down, test_recorded,
  step_recorded, assertion_recorded, step_reported, cancelled, no_connector, connector_error,
  setup_error, interpolation_error, execute_error, capture_error, no_operator, build_error,
  extract_error, assertion_error,
}

abbrev pub blank : Str → Bool
blank [] = true
blank (c ∷ s) = false

abbrev pub failing : Str → StepError → StepResult
failing name e = record { name = name; passed = false; error = some e }

module _ {W : Type 0} where
  unfoldable pub note : Happening → State W → State W
  note h s = record s { trace = h ∷ s.trace }

  -- emitTelemetry; the tags of the suite and the test, which are the same in each record, are left out.
  unfoldable pub emit : Runner → EventType → GoMap Str → State W → State W
  emit r event extra s = if r.has_telemetry then note (emitted event extra) s else s

  -- if r.coverage != nil { ... }
  unfoldable pub cover : Runner → Happening → State W → State W
  cover r h s = if r.has_coverage then note h s else s

  abbrev pub at_world : W → State W → State W
  at_world w s = record s { world = w }

-- The error that a step's telemetry carries.
abbrev pub error_tags : Str → Str → GoMap Str
error_tags name e = (codes "step", name) ∷ (codes "error", e) ∷ []

abbrev pub assertion_tags : Str → Bool → GoMap Str
assertion_tags name passed =
    (codes "step", name) ∷ (codes "passed", if passed then codes "true" else codes "false") ∷ []

-- The keys of an assertion that are not options.
abbrev pub is_reserved : Str → Bool
is_reserved k =
    str_eq k (codes "field") || (str_eq k (codes "operator") || str_eq k (codes "expected"))

unfoldable pub option_keys {ℓ} : {V : Type ℓ} → GoMap V → GoMap V
option_keys [] = []
option_keys ((k, v) ∷ m) = if is_reserved k then option_keys m else (k, v) ∷ option_keys m

module _ {W C A V : Type 0} (d : Deps W C A V) where
  -- field, _ := assertMap["field"].(string)
  unfoldable pub string_at : Str → GoMap V → Str
  string_at k m = elim (lookup k m) [
    | none ↦ []
    | some v ↦ elim (d.as_string v) [ none ↦ [] | some s ↦ s ]
  ]

  -- stepName; the index is printed by fmt.
  unfoldable pub step_name : Str → ℕ → Str
  step_name action index =
      codes "step[" ++ d.itoa index ++ (if blank action then codes "]" else codes "]:" ++ action)

  abbrev pub verdict : Option Str × W → Option StepError × W
  verdict (none, w) = (none, w)
  verdict (some e, w) = (some (assertion_error e), w)

  -- The value that an assertion is about: all of the data where no field is named.
  unfoldable pub actual_value : GoMap V → Str → Tried V
  actual_value data_map field =
      if blank field then got (d.of_map data_map) else d.extract data_map field

  -- evaluateAssertion
  unfoldable pub evaluate_assertion : GoMap V → GoMap V → W → Option StepError × W
  evaluate_assertion data_map m w =
      let operator = string_at (codes "operator") m in
      let field = string_at (codes "field") m in
      if blank operator
      then (some no_operator, w)
      else elim (d.build operator (lookup (codes "expected") m) (option_keys m)) [
        | failed e ↦ (some (build_error operator e), w)
        | got a ↦ elim (actual_value data_map field) [
          | failed e ↦ (some (extract_error field e), w)
          | got v ↦ verdict (d.evaluate a v w)
        ]
      ]

  -- The loop over the captures.
  unfoldable pub run_captures :
      Runner → Str → GoMap V → GoMap Str → State W → Option StepError × State W
  run_captures r name data_map [] s = (none, s)
  run_captures r name data_map ((var, path) ∷ captures) s = elim (d.extract data_map path) [
    | failed e ↦ (some (capture_error var path e), emit r error (error_tags name e) s)
    | got v ↦ run_captures r name data_map captures (at_world (d.set_capture var v s.world) s)
  ]

  -- The loop over the assertions.
  unfoldable pub run_asserts :
      Runner → Str → GoMap V → List (GoMap V) → State W → Option StepError × State W
  run_asserts r name data_map [] s = (none, s)
  run_asserts r name data_map (m ∷ asserts) s =
      let (outcome, w) = evaluate_assertion data_map m s.world in
      elim outcome [
        | some e ↦ (
          some e,
          cover r (assertion_recorded false)
              (emit r assertion (assertion_tags name false) (at_world w s)),
        )
        | none ↦ run_asserts r name data_map asserts (
            cover r (assertion_recorded true)
              (emit r assertion (assertion_tags name true) (at_world w s)))
      ]

  abbrev pub passing : Str → StepResult
  passing name = record { name = name; passed = true; error = none }

  -- runStep behind a successful Execute.
  unfoldable pub after_execute :
      Runner → Str → TestStep V → GoMap V → State W → StepResult × State W
  after_execute r name step data_map s =
      let (caught, s1) = run_captures r name data_map step.capture (cover r step_recorded s) in
      elim caught [
        | some e ↦ (failing name e, s1)
        | none ↦
            let (wrong, s2) = run_asserts r name data_map step.assert s1 in
            elim wrong [
              | some e ↦ (failing name e, s2)
              | none ↦ (passing name, emit r step_end ((codes "step", name) ∷ []) s2)
            ]
      ]

  -- step.Timeout
  unfoldable pub step_timeout : Str → Option ℕ
  step_timeout text = if blank text then none else d.parse_duration text

  -- The parameters are interpolated if there are any.
  unfoldable pub step_parameters : GoMap V → W → Tried (GoMap V) × W
  step_parameters [] w = (got [], w)
  step_parameters (p ∷ ps) w = d.interpolate (p ∷ ps) w

  -- runStep behind a successful Setup, up to the deferred teardown.
  unfoldable pub in_connector : Runner → Str → C → TestStep V → State W → StepResult × State W
  in_connector r name conn step s =
      let (parameters, w) = step_parameters step.parameters s.world in
      elim parameters [
        | failed e ↦
            (failing name (interpolation_error e), emit r error (error_tags name e) (at_world w s))
        | got values ↦
            let c_step : ConnectorStep V = record {
              action = step.action;
              parameters = values;
              timeout = step_timeout step.timeout;
            } in
            let (result, w') = d.execute conn c_step w in
            let s' = note (executed step.connector) (at_world w' s) in
            elim result [
              | failed e ↦ (failing name (execute_error e), emit r error (error_tags name e) s')
              | got data_map ↦ after_execute r name step data_map s'
            ]
      ]

  -- The deferred call.
  unfoldable pub tear_down : Runner → Str → C → State W → State W
  tear_down r name conn s =
      let s1 = emit r connector_teardown ((codes "connector", name) ∷ []) s in
      note (torn_down name) (at_world (d.teardown conn s1.world) s1)

  -- runStep behind the lookup of the connector.
  unfoldable pub with_connector :
      Runner → Str → C → TestStep V → GoMap V → State W → StepResult × State W
  with_connector r name conn step config s =
      let s1 = emit r connector_setup ((codes "connector", step.connector) ∷ []) s in
      let (outcome, w) = d.setup conn config s1.world in
      elim outcome [
        | some e ↦ (failing name (setup_error e), emit r error (error_tags name e) (at_world w s1))
        | none ↦
            let (result, s2) =
              in_connector r name conn step (note (set_up step.connector) (at_world w s1)) in
            (result, tear_down r step.connector conn s2)
      ]

  -- runStep
  unfoldable pub run_step : Runner → TestStep V → ℕ → GoMap V → State W → StepResult × State W
  run_step r step index config s =
      let name = step_name step.action index in
      let s1 = emit r step_start ((codes "step", name) ∷ []) s in
      if blank step.connector
      then (failing name no_connector, s1)
      else let (conn, w) = d.get step.connector s1.world in
        elim conn [
          | failed e ↦ (
            failing name (connector_error step.connector e),
            emit r error (error_tags name e) (at_world w s1),
          )
          | got c ↦ with_connector r name c step config (at_world w s1)
        ]

  -- A step without a connector takes that of the test.
  abbrev pub with_fallback : Str → TestStep V → TestStep V
  with_fallback connector step =
      if blank step.connector then record step { connector = connector } else step

  -- The loop of RunTest, from step i on: the results, and the flag `passed`.
  unfoldable pub run_steps :
      Runner → Str → GoMap V → ℕ → List (TestStep V) → State W → (List StepResult × Bool) × State W
  run_steps r connector config i [] s = (([], true), s)
  run_steps r connector config i (step ∷ steps) s =
      let (stop, w) = d.is_cancelled s.world in
      elim stop [
        | true ↦ ((failing (step_name step.action i) cancelled ∷ [], false), at_world w s)
        | false ↦
            let (sr, s1) = run_step r (with_fallback connector step) i config (at_world w s) in
            let s2 = note (step_reported sr.passed) s1 in
            elim sr.passed [
              | true ↦
                  let ((rest, passed), s3) = run_steps r connector config (suc i) steps s2 in
                  ((sr ∷ rest, passed), s3)
              | false ↦ ((sr ∷ [], false), s2)
            ]
      ]

  -- RunTest
  unfoldable pub run_test : Runner → Test V → GoMap V → State W → TestResult × State W
  run_test r test config s =
      let ((results, passed), s1) =
        run_steps r test.connector config 0 test.steps (emit r test_start [] s) in
      let result : TestResult = record { passed = passed; steps = results } in
      (result, cover r test_recorded (emit r (if passed then test_pass else test_fail) [] s1))
