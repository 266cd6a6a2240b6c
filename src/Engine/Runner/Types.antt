-- ===== src/Engine/Runner/Types.antt =====
-- The types of core/engine/runner.go and of what it calls.
use scrutineer.Prelude.{ℕ, Bool, Option, List, Str, GoMap}

-- The outcome of a call that returns a value and an error; an error is its text.
pub data Tried (A : Type 0) : Type 0 where
  got : A → Tried A
  failed : Str → Tried A

-- The telemetry events of a test.
pub data EventType : Type 0 where
  test_start : EventType
  test_pass : EventType
  test_fail : EventType
  step_start : EventType
  step_end : EventType
  assertion : EventType
  connector_setup : EventType
  connector_teardown : EventType
  error : EventType

pub data Happening : Type 0 where
  emitted : EventType → GoMap Str → Happening
  set_up : Str → Happening
  executed : Str → Happening
  torn_down : Str → Happening
  test_recorded : Happening
  step_recorded : Happening
  assertion_recorded : Bool → Happening
  step_reported : Bool → Happening

pub data StepError : Type 0 where
  cancelled : StepError
  no_connector : StepError
  connector_error : Str → Str → StepError
  setup_error : Str → StepError
  interpolation_error : Str → StepError
  execute_error : Str → StepError
  capture_error : Str → Str → Str → StepError
  no_operator : StepError
  build_error : Str → Str → StepError
  extract_error : Str → Str → StepError
  assertion_error : Str → StepError

pub record StepResult : Type 0 where
  pub name : Str
  pub passed : Bool
  pub error : Option StepError

pub record TestResult : Type 0 where
  pub passed : Bool
  pub steps : List StepResult

-- connector.Step; the timeout is left unset where its text does not parse.
pub record ConnectorStep (V : Type 0) : Type 0 where
  pub action : Str
  pub parameters : GoMap V
  pub timeout : Option ℕ

-- What the runner calls: a connector `C`, an assertion `A`, values `V`, and the state `W` of it all.
pub record Deps (W C A V : Type 0) : Type 0 where
  pub is_cancelled : W → Bool × W
  pub get : Str → W → Tried C × W
  pub setup : C → GoMap V → W → Option Str × W
  pub execute : C → ConnectorStep V → W → Tried (GoMap V) × W
  pub teardown : C → W → W
  pub interpolate : GoMap V → W → Tried (GoMap V) × W
  pub set_capture : Str → V → W → W
  pub parse_duration : Str → Option ℕ
  pub extract : GoMap V → Str → Tried V
  pub as_string : V → Option Str
  pub of_map : GoMap V → V
  pub build : Str → Option V → GoMap V → Tried A
  pub evaluate : A → V → W → Option Str × W
  pub itoa : ℕ → Str

-- Runner: whether it has a telemetry writer and a coverage tracker.
pub record Runner : Type 0 where
  pub has_telemetry : Bool
  pub has_coverage : Bool

pub record State (W : Type 0) : Type 0 where
  pub world : W
  pub trace : List Happening
