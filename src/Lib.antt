-- ===== src/Lib.antt =====
-- A verification library for scrutineer, a test runner in Go: the core of the program, under
-- core/, modelled as definitions that run and as step relations, with theorems about them.
--
-- The program reads test suites, validates them (core/schema), dispatches them (core/engine),
-- records coverage (core/coverage) and telemetry (core/telemetry), and spreads work over remote
-- hosts (core/fleet).
--
-- Conventions. A Go string or byte slice is a list of bytes, `Str` or `Bytes`; a map with string
-- keys is an association list in the order of one iteration, `GoMap`; an int that is never
-- negative is a native natural number; an int64 or a fixed-width field is its bit pattern, with
-- the wrap-around of a conversion written out. A method that changes its object returns the new
-- record. An error is a value. The standard library is modelled for what the source uses of it;
-- what stands outside the repository (the clock, random numbers, the context, the work that a
-- caller passes in) is a parameter.
--
-- - Prelude: tests, lists, strings and maps that the components share.
-- - Telemetry (core/telemetry): Types has the record, the header, the errors and the event names;
--   Action the calls that may fail over a stream; Wire encoding/binary over a reader that ends in
--   io.EOF or in another error; Tags encodeTags and decodeTags; Codec WriteHeader, ReadHeader,
--   EncodeRecord and DecodeRecord; Stream Writer and Reader. A function that returns a value
--   beside an error returns the error alone, since no caller looks at the value.
-- - Fleet (core/fleet): Weight has SelectByWeight and DistributeByWeight. The loop of
--   DistributeByWeight takes fuel; one more round than there are bins is enough. Its sum, products
--   and quotients are 64-bit patterns that wrap, and nothing wraps while the total times the sum
--   of the weights is below 2^63. Orchestrator has Setup, SelectHost, AddHosts, CheckTTL and
--   Teardown over abstract providers, with the hosts that were released beside the pools.
-- - Engine (core/engine): Dispatcher has NewDispatcher and the sequential, random and weighted
--   dispatchers over an abstract world; Loop the LoopController, on fuel, for which the repeat
--   count is enough; Pool and Concurrent the bounded pool of parallel.go and the
--   ConcurrentDispatcher as step relations over every interleaving; Runner RunTest and runStep,
--   with a trace of what they report and which connector calls they make. Suite has
--   runSuiteSimple, summarise and ExitCode over the runner and the coverage tracker of Coverage,
--   to which the trace of each test is replayed; Execution has runSuiteWithExecution and
--   runInteraction over the dispatchers and the loop controller, whose passes are its fuel: as
--   many as the suite repeats are enough (Execution/Settles, without the concurrent dispatcher).
--   Its concurrent dispatcher is a run that returns and takes its items as a whole, in the order
--   of their arrival; the one of Concurrent may hang on a cancelled context. Execution/Exit has
--   Run with one worker, over suites of both kinds; Execution/Gauge is what passes add to a
--   measure.
-- - Coverage (core/coverage): the Tracker, with Frame for what each call changes, Tally and Counts
--   for what any calls add up to, Wellformed for its invariant, and Order and Report for Results.
-- - Schema (core/schema): Types has the structures of test.go and config.go, Validate the checks
--   of validate.go in their order; Validate/Spec says what they ask for. An int is its 64-bit
--   two's complement pattern.
-- - Expression (core/expression): Syntax has token.go and ast.go, Lexer the lexer, over the tables
--   of the package unicode, with a unit of fuel more than the text is long, which is enough
--   (Lexer/Fuel), Parser the parser; Parser/Grammar has the grammar. The depth limit of 256 is the
--   fuel of the recursion, and an argument loop has the number of its tokens as fuel, which is
--   enough (Parser/Fuel). Evaluator has evaluator.go over a state that functions and the resolver
--   may change; its depth limit is fuel too.
-- - Retry (core/retry): Do of retry.go, with the outcomes of its calls; Course says how they can
--   go. The loop recurses on the attempts that are left.
-- - Yaml (core/yaml): Parser has parser.go from the tokens of scanner.go to nodes, with fuel that
--   is enough (Parser/Fuel); Parser/Document has block documents and their tokens. Scalars has the
--   conversion of nodes to values. Lines and columns are left out.
-- - Fixture (core/fixture): Interpolate has Interpolate and findExpressionEnd of fixture.go, with
--   fuel for twice the length of the text, which is enough (Interpolate/Fuel); Resolve and
--   evalExpression are parameters. Template and Body have the texts that the theorem is about.
--
-- Not modelled: the interleavings of suites and interactions that run at once, the rest of the
-- variable store, the built-in functions of expressions, the YAML scanner and the decoder into
-- structures, assertions, reporters, connectors, load tests and fuzzing, the command line, and
-- everything that only calls the network, a browser or a process.
pub mod Prelude
pub mod Telemetry
pub mod Fixture
pub mod Fleet
pub mod Coverage
pub mod Engine
pub mod Expression
pub mod Retry
pub mod Schema
pub mod Yaml
