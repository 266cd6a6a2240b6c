-- ===== src/Telemetry/Types.antt =====
-- core/telemetry/record.go, events.go and the errors of tlv.go.
use scrutineer.Prelude.{ℕ, Bytes, Str, codes, GoMap, List, [], ◌∷◌}

-- The errors that the package returns. `io n` is an error of the underlying stream other than the
-- two end-of-file errors, `wrapped` is `fmt.Errorf` with `%w`.
pub data Error : Type 0 where
  eof unexpected_eof closed_pipe : Error
  invalid_magic unsupported_version truncated_header truncated_record : Error
  io : ℕ → Error
  wrapped : Str → Error → Error

-- `timestamp` is the bit pattern of the int64.
pub record Record : Type 0 where
  pub timestamp : ℕ
  pub event_type : ℕ
  pub tags : GoMap Str
  pub detail : Bytes

-- `created_at` is the bit pattern of the int64.
pub record FileHeader : Type 0 where
  pub magic : Bytes
  pub version : ℕ
  pub flags : ℕ
  pub created_at : ℕ

abbrev pub magic_bytes : Bytes
magic_bytes = codes "SCTL"

abbrev pub format_version : ℕ
format_version = 1

-- The event types, in the order of their numbers, with their names.
abbrev pub event_names : List (ℕ × Str)
event_names =
    (0x01, codes "SuiteStart")
    ∷ (0x02, codes "SuiteEnd")
    ∷ (0x03, codes "TestStart")
    ∷ (0x04, codes "TestPass")
    ∷ (0x05, codes "TestFail")
    ∷ (0x06, codes "TestSkip")
    ∷ (0x07, codes "StepStart")
    ∷ (0x08, codes "StepEnd")
    ∷ (0x09, codes "Assertion")
    ∷ (0x0a, codes "Request")
    ∷ (0x0b, codes "Response")
    ∷ (0x0c, codes "Error")
    ∷ (0x0d, codes "ConnectorSetup")
    ∷ (0x0e, codes "ConnectorTeardown")
    ∷ (0x0f, codes "Metric")
    ∷ (0x10, codes "InteractionStart")
    ∷ (0x11, codes "InteractionEnd")
    ∷ []
