-- ===== src/Schema/Tests.antt =====
-- A suite with an execution block, and the theorems there.
use scrutineer.Prelude.{ℕ, ◌≡◌, refl, ◌↔◌, Bool, false, some, [], ◌∷◌, Str, codes, str_eq}
use scrutineer.Schema.Types.{TestStep, Test, Execution, FleetProvider, TestSuite, Config}
use scrutineer.Schema.Validate.{
  concurrency_missing, weights_sum, validate_suite, validate_block, validate_execution,
  validate_fleet, validate_fleet_config, validate_providers, validate_tests, validate_steps,
  validate_interactions, add_if, is_member, validate_config,
}
use scrutineer.Schema.Validate.Spec.{ValidSuite, ValidConfig}
use scrutineer.Schema.Validate.Sound.{validate_suite_iff, validate_config_iff}

-- time.ParseDuration takes the one text used here.
abbrev parses : Str → Bool
parses s = str_eq s (codes "5m")

abbrev step : TestStep ℕ
step = record {
  connector = codes "http";
  action = codes "get";
  parameters = [];
  assert = [];
  capture = [];
  timeout = [];
}

abbrev login : Test ℕ
login = record {
  name = codes "login";
  connector = [];
  tags = [];
  skip = false;
  weight = 1;
  steps = step ∷ [];
}

abbrev provider : ℕ → FleetProvider ℕ
provider w = record { provider = codes "static"; weight = w; ttl = 60; config = [] }

abbrev block : ℕ → ℕ → Execution ℕ
block concurrency w = record {
  mode = codes "concurrent";
  concurrency = concurrency;
  duration = [];
  repeat = 3;
  interval = codes "5m";
  fleet = some (record { providers = provider w ∷ provider 40 ∷ [] });
}

abbrev suite : ℕ → ℕ → TestSuite ℕ
suite concurrency w = record {
  suite = codes "auth";
  tags = [];
  setup = [];
  teardown = [];
  fixtures = [];
  tests = login ∷ [];
  execution = some (block concurrency w);
  interactions = [];
}

accepted : validate_suite parses (suite 2 60) ≡ []
unfolding validate_suite validate_block validate_execution validate_fleet validate_fleet_config
    validate_providers validate_tests validate_steps validate_interactions add_if is_member str_eq
accepted = refl

refused : validate_suite parses (suite 0 61) ≡ concurrency_missing ∷ weights_sum 101 ∷ []
unfolding validate_suite validate_block validate_execution validate_fleet validate_fleet_config
    validate_providers validate_tests validate_steps validate_interactions add_if is_member str_eq
refused = refl

validate_suite_iff_example :
    (validate_suite parses (suite 2 60) ≡ []) ↔ ValidSuite parses (suite 2 60)
validate_suite_iff_example = validate_suite_iff parses (suite 2 60)

abbrev config : Config ℕ
config = record {
  version = codes "1";
  tests = codes "tests" ∷ [];
  parallelism = 4;
  timeout = [];
  reporters = [];
  coverage = record { threshold = 0 };
  browsers = record { chromium = false; firefox = false; webkit = false };
  connectors = [];
  telemetry = record { enabled = false; output = [] };
}

validate_config_iff_example : (validate_config config ≡ []) ↔ ValidConfig config
validate_config_iff_example = validate_config_iff config
