-- ===== src/Schema/Types.antt =====
-- The types of core/schema/test.go and core/schema/config.go. An int is its 64-bit two's complement
-- pattern; a nil pointer is `none`; a value of type any is a parameter `V`, which no code here looks
-- into.
use scrutineer.Prelude.{ℕ, Bool, Option, List, [], ◌∷◌, GoMap, Str, codes}

-- ExecutionMode is a string.
abbrev pub ExecutionMode : Type 0
ExecutionMode = Str

abbrev pub mode_sequential : ExecutionMode
mode_sequential = codes "sequential"

abbrev pub mode_random : ExecutionMode
mode_random = codes "random"

abbrev pub mode_concurrent : ExecutionMode
mode_concurrent = codes "concurrent"

abbrev pub mode_weighted : ExecutionMode
mode_weighted = codes "weighted"

abbrev pub valid_execution_modes : List ExecutionMode
valid_execution_modes = mode_sequential ∷ mode_random ∷ mode_concurrent ∷ mode_weighted ∷ []

pub record FleetProvider (V : Type 0) : Type 0 where
  pub provider : Str
  pub weight : ℕ
  pub ttl : ℕ
  pub config : GoMap V

pub record FleetConfig (V : Type 0) : Type 0 where
  pub providers : List (FleetProvider V)

pub record Execution (V : Type 0) : Type 0 where
  pub mode : ExecutionMode
  pub concurrency : ℕ
  pub duration : Str
  pub repeat : ℕ
  pub interval : Str
  pub fleet : Option (FleetConfig V)

pub record TestStep (V : Type 0) : Type 0 where
  pub connector : Str
  pub action : Str
  pub parameters : GoMap V
  pub assert : List (GoMap V)
  pub capture : GoMap Str
  pub timeout : Str

pub record Test (V : Type 0) : Type 0 where
  pub name : Str
  pub connector : Str
  pub tags : List Str
  pub skip : Bool
  pub weight : ℕ
  pub steps : List (TestStep V)

pub record Interaction (V : Type 0) : Type 0 where
  pub name : Str
  pub weight : ℕ
  pub mode : ExecutionMode
  pub tests : List (Test V)

pub record TestSuite (V : Type 0) : Type 0 where
  pub suite : Str
  pub tags : List Str
  pub setup : List (TestStep V)
  pub teardown : List (TestStep V)
  pub fixtures : GoMap V
  pub tests : List (Test V)
  pub execution : Option (Execution V)
  pub interactions : List (Interaction V)

pub record ReporterConfig : Type 0 where
  pub kind : Str
  pub output : Str

abbrev pub valid_reporter_types : List Str
valid_reporter_types = codes "ansi" ∷ codes "json" ∷ []

pub record TelemetryConfig : Type 0 where
  pub enabled : Bool
  pub output : Str

-- The threshold is a float64, given here by its bits.
pub record CoverageConfig : Type 0 where
  pub threshold : ℕ

pub record BrowsersConfig : Type 0 where
  pub chromium : Bool
  pub firefox : Bool
  pub webkit : Bool

pub record Config (V : Type 0) : Type 0 where
  pub version : Str
  pub tests : List Str
  pub parallelism : ℕ
  pub timeout : Str
  pub reporters : List ReporterConfig
  pub coverage : CoverageConfig
  pub browsers : BrowsersConfig
  pub connectors : GoMap (GoMap V)
  pub telemetry : TelemetryConfig
