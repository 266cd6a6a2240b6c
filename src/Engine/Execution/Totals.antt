-- ===== src/Engine/Execution/Totals.antt =====
-- How many tests a suite with an execution block counts.
use scrutineer.Schema.Types.{Execution, Test, Interaction, TestSuite, mode_weighted}
use scrutineer.Engine.Runner.Types.{Deps}
use scrutineer.Engine.Suite.Types.{
  SuiteResult, Engine, SuiteEvent, SuiteHappening, SuiteState, suite_start, suite_end,
  suite_started, suite_ended, test_started,
}
use scrutineer.Engine.Suite.{summarise, new_result, write, tell}
use scrutineer.Engine.Suite.Accounts.{tally-Tallied}
use scrutineer.Engine.Execution.{
  Surroundings, repeat_of, run_passes, run_suite_with_execution, fleet_of, interactions_of,
  total_tests,
}
use scrutineer.Engine.Execution.Orders.{Fair}
use scrutineer.Engine.Execution.Gauge.{Unweighted, over_tests, Laws, loop_adds, write_adds}
use scrutineer.Prelude.{
  ℕ, ◌+◌, ◌*◌, ◌<◌, ◌≡◌, refl, ap, ◌∙◌, Bool, false, Option, none, some, List, [], ◌∷◌, map, arith,
  GoMap, Str, codes, str_eq, sum, if◌then◌else◌, length, All, length-append,
}

-- All that a result counts, before its summary.
abbrev counted : SuiteResult → List SuiteHappening → ℕ
counted sr trace = sr.passed + sr.failed + length sr.results + sr.skipped

abbrev skipped_of : SuiteResult → List SuiteHappening → ℕ
skipped_of sr trace = sr.skipped

-- How often a test of that name is started.
unfoldable pub starts : Str → List SuiteHappening → ℕ
starts name [] = 0
starts name (test_started other ∷ trace) = (if str_eq other name then 1 else 0) + starts name trace
starts name (h ∷ trace) = starts name trace

-- What a test is worth for these measures.
abbrev one_each : {V : Type 0} → Test V → ℕ
one_each test = 1

abbrev pub if_skipped : {V : Type 0} → Test V → ℕ
if_skipped test = if test.skip then 1 else 0

abbrev pub if_named : {V : Type 0} → Str → Test V → ℕ
if_named name test = if test.skip then 0 else if str_eq test.name name then 1 else 0

counted-Laws : {V : Type 0} → Laws {V = V} counted one_each
counted-Laws = record {
  skips = λ test sr trace skip. omega arith;
  runs = λ test sr trace result hs go. omega (arith, length-append sr.results (result ∷ []));
  told = λ event tags sr trace. refl;
}

skipped_of-Laws : {V : Type 0} → Laws {V = V} skipped_of if_skipped
skipped_of-Laws = record {
  skips = λ test sr trace skip. rw skip refl;
  runs = λ test sr trace result hs go. rw go (omega arith);
  told = λ event tags sr trace. refl;
}

starts-Laws :
    {V : Type 0} → (name : Str) → Laws {V = V} (λ sr trace. starts name trace) (if_named name)
unfolding starts
starts-Laws name = record {
  skips = λ test sr trace skip. rw skip (omega arith);
  runs = λ test sr trace result hs go. rw go (omega arith);
  told = λ event tags sr trace. refl;
}

sum-ones : {V : Type 0} (tests : List (Test V)) → sum (map one_each tests) ≡ length tests
unfolding sum
sum-ones [] = refl
sum-ones (test ∷ tests) = omega (arith, sum-ones tests)

over_tests-ones :
    {V : Type 0} (inters : List (Interaction V)) → over_tests one_each inters ≡ total_tests inters
unfolding over_tests total_tests
over_tests-ones [] = refl
over_tests-ones (inter ∷ inters) = omega (arith, sum-ones inter.tests, over_tests-ones inters)

same_run : {A : Type 0} {o : Option A} {p q : A} → o ≡ some p → o ≡ some q → p ≡ q
same_run h k = cc

counted-summarise :
    (sr : SuiteResult) (trace : List SuiteHappening)
    → (summarise sr).passed + (summarise sr).failed + (summarise sr).skipped ≡ counted sr trace
unfolding summarise
counted-summarise sr trace =
    let t = tally-Tallied sr.results sr in omega (arith, t.counted, t.skipped)

skipped-summarise : (sr : SuiteResult) → (summarise sr).skipped ≡ sr.skipped
unfolding summarise
skipped-summarise sr = let t = tally-Tallied sr.results sr in t.skipped

-- Of `repeat` passes over the tests, what the result counts and what was started.
abbrev pub Repeated :
    {W V : Type 0}
    → ℕ
    → List (Interaction V)
    → List SuiteHappening
    → SuiteResult × SuiteState W
    → Type 0
Repeated repeat inters before (sr, s) =
    (sr.passed + sr.failed + sr.skipped ≡ repeat * total_tests inters)
    × (sr.skipped ≡ repeat * over_tests if_skipped inters)
    × ((name : Str)
        → starts name s.trace ≡ starts name before + repeat * over_tests (if_named name) inters)

module _ {W C A V : Type 0} (d : Deps W C A V) (e : Engine V) (x : Surroundings W V) (fair : Fair x)
    (never : (w : W) → x.is_stopped w ≡ false) (waits : (w : W) → (x.wait w).1 ≡ false) where
  starts-write :
      (name : Str) (event : SuiteEvent) (tags : GoMap Str) (s : SuiteState W)
      → starts name (write e event tags s).trace ≡ starts name s.trace
  starts-write name event tags s =
      write_adds d e x fair never waits (λ sr trace. starts name trace) (if_named name)
        (starts-Laws name) event tags (new_result name) s

  run_passes-Repeated :
      (fleet : Bool) (suite : TestSuite V) (exec : Execution V) (inters : List (Interaction V))
      (s : SuiteState W)
      → 0 < repeat_of d e x exec
      → str_eq exec.mode mode_weighted ≡ false
      → All Unweighted inters
      → (p : SuiteResult × SuiteState W) × (run_passes d e x
            (repeat_of d e x exec)
            fleet
            suite
            exec
            inters
            s
          ≡ some p)
        × Repeated (repeat_of d e x exec) inters s.trace p
  unfolding run_passes starts
  run_passes-Repeated fleet suite exec inters s pos mode h =
      let (p, same, all) =
        loop_adds d e x fair never waits counted one_each counted-Laws fleet suite exec inters s pos
          mode h in
      let (q, same_skips, skips) =
        loop_adds d e x fair never waits skipped_of if_skipped skipped_of-Laws fleet suite exec
          inters s pos mode h in
      let total = summarise p.0 in
      let end = tell (suite_ended suite.suite total.passed total.failed total.skipped) p.1 in
      (
        (total, write e suite_end ((codes "suite", suite.suite) ∷ []) end),
        rw (same, run_passes) refl,
        (
          omega (
            arith,
            counted-summarise p.0 p.1.trace,
            all,
            ap (λ n. repeat_of d e x exec * n) (over_tests-ones inters),
          ),
          omega (
            arith,
            skipped-summarise p.0,
            ap (λ r. r.0.skipped) (same_run same same_skips),
            skips,
          ),
          λ name.
              let (r, same_starts, started) =
                loop_adds d e x fair never waits (λ sr trace. starts name trace) (if_named name)
                  (starts-Laws name) fleet suite exec inters s pos mode h in
              starts-write name suite_end ((codes "suite", suite.suite) ∷ []) end
              ∙ ap (λ r. starts name r.1.trace) (same_run same same_starts)
              ∙ started,
        ),
      )

  -- Without a fleet, on a context that stays alive, with concurrent dispatchers that return, a suite
  -- that repeats a number of times and draws nothing by weight runs and counts each of its tests as
  -- often as it repeats, in whatever order the dispatchers take them: the counts of passed, failed and
  -- skipped tests add up to that, as skipped count exactly the tests that say so, once a pass, and
  -- under each name as many tests are started as there are tests of that name that are not skipped,
  -- once a pass.
  pub run_suite_with_execution_total :
      (suite : TestSuite V) (exec : Execution V) (s : SuiteState W)
      → fleet_of d e x exec ≡ none
      → 0 < repeat_of d e x exec
      → str_eq exec.mode mode_weighted ≡ false
      → All Unweighted (interactions_of suite.suite suite.interactions suite.tests)
      → (p : SuiteResult × SuiteState W) × (run_suite_with_execution d e x
            (repeat_of d e x exec)
            suite
            exec
            s
          ≡ some p)
        × Repeated
            (repeat_of d e x exec)
            (interactions_of suite.suite suite.interactions suite.tests)
            s.trace
            p
  unfolding run_suite_with_execution starts
  run_suite_with_execution_total suite exec s alone pos mode h =
      let inters = interactions_of suite.suite suite.interactions suite.tests in
      let opened = tell (suite_started suite.suite (total_tests inters)) s in
      let tags : GoMap Str = (codes "suite", suite.suite) ∷ [] in
      let (p, same, (all, skips, started)) =
        run_passes-Repeated false suite exec inters (write e suite_start tags opened) pos mode h in
      (
        p,
        rw (alone, run_suite_with_execution) same,
        (
          all,
          skips,
          λ name.
              started name
              ∙ ap (λ n. n + repeat_of d e x exec * over_tests (if_named name) inters)
                  (starts-write name suite_start tags opened),
        ),
      )
