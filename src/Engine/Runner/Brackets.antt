-- ===== src/Engine/Runner/Brackets.antt =====
-- Setup and teardown of the connectors along the trace of a test.
use scrutineer.Prelude.{List, [], ◌∷◌, Str, str_eq, if◌then◌else◌}
use scrutineer.Engine.Runner.Types.{
  Happening, emitted, set_up, executed, torn_down, test_recorded, step_recorded, assertion_recorded,
  step_reported, Runner,
}

-- Between two connectors, inside one, or out of order.
pub data Phase : Type 0 where
  idle : Phase
  busy : Str → Phase
  broken : Phase

-- A connector is set up while none is, works while it is set up, and is then torn down.
unfoldable pub after : Happening → Phase → Phase
after (set_up c) idle = busy c
after (set_up c) (busy b) = broken
after (set_up c) broken = broken
after (executed c) idle = broken
after (executed c) (busy b) = if str_eq c b then busy b else broken
after (executed c) broken = broken
after (torn_down c) idle = broken
after (torn_down c) (busy b) = if str_eq c b then idle else broken
after (torn_down c) broken = broken
after (emitted e t) p = p
after test_recorded p = p
after step_recorded p = p
after (assertion_recorded b) p = p
after (step_reported b) p = p

-- Where a trace, newest first, has come to.
unfoldable pub phase : List Happening → Phase
phase [] = idle
phase (h ∷ trace) = after h (phase trace)
