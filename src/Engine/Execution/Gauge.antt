-- ===== src/Engine/Execution/Gauge.antt =====
-- What the passes of a suite with an execution block add to a measure.
use scrutineer.Schema.Types.{
  Execution, Test, Interaction, TestSuite, mode_weighted, mode_sequential,
}
use scrutineer.Engine.Loop.{run}
use scrutineer.Engine.Loop.Adds.{run-adds}
use scrutineer.Engine.Runner.Types.{Deps, TestResult, Happening}
use scrutineer.Engine.Suite.Types.{
  SuiteResult, Engine, SuiteState, SuiteEvent, SuiteHappening, test_started, test_ended, in_test,
  recorded,
}
use scrutineer.Engine.Suite.{new_result, write, run_reported}
use scrutineer.Engine.Execution.{
  Surroundings, stopped, interaction_test, run_interaction, with_provider, run_pass, repeat_of,
  parse_duration, wait_between, mode_of, not_negative,
}
use scrutineer.Engine.Execution.Orders.{Fair, gauge, dispatch_adds}
use scrutineer.Prelude.{
  ℕ, ◌+◌, ◌*◌, ◌<◌, ◌≡◌, refl, ap, ◌∙◌, inl, inr, Bool, true, false, some, List, [], ◌∷◌, ◌++◌, map,
  GoMap, Str, str_eq, sum, Bool-cases, All,
}

All-always : {I : Type 0} (P : I → Type 0) (items : List I) → ((item : I) → P item) → All P items
All-always P [] h = tt
All-always P (item ∷ items) h = (h item, All-always P items h)

All-weaken :
    {I : Type 0} (P Q : I → Type 0) (items : List I)
    → ((item : I) → P item → Q item)
    → All P items
    → All Q items
All-weaken P Q [] h hs = tt
All-weaken P Q (item ∷ items) h (p, hs) = (h item p, All-weaken P Q items h hs)

-- No interaction draws its tests by weight.
abbrev pub Unweighted : {V : Type 0} → Interaction V → Type 0
Unweighted inter = str_eq (mode_of inter) mode_weighted ≡ false

-- The sum of a number that each test has, over all interactions.
unfoldable pub over_tests : {V : Type 0} → (Test V → ℕ) → List (Interaction V) → ℕ
over_tests size [] = 0
over_tests size (inter ∷ inters) = sum (map size inter.tests) + over_tests size inters

sum-over_tests :
    {V : Type 0} (size : Test V → ℕ) (inters : List (Interaction V))
    → sum (map (λ inter. sum (map size inter.tests)) inters) ≡ over_tests size inters
unfolding sum over_tests
sum-over_tests size [] = refl
sum-over_tests size (inter ∷ inters) =
    ap (λ n. sum (map size inter.tests) + n) (sum-over_tests size inters)

-- What a skipped test and a test that runs add to a measure; telemetry adds nothing.
pub record Laws {V : Type 0} (measure : SuiteResult → List SuiteHappening → ℕ) (size : Test V → ℕ)
    : Type 0 where
  pub skips :
      (test : Test V) (sr : SuiteResult) (trace : List SuiteHappening)
      → test.skip ≡ true
      → measure (record sr { skipped = sr.skipped + 1 }) trace ≡ measure sr trace + size test
  pub runs :
      (test : Test V) (sr : SuiteResult) (trace : List SuiteHappening) (result : TestResult)
      (hs : List Happening)
      → test.skip ≡ false
      → measure
          (record sr { results = sr.results ++ result ∷ [] })
          (test_ended test.name result ∷ in_test test.name hs ∷ test_started test.name ∷ trace)
        ≡ measure sr trace + size test
  pub told :
      (event : SuiteEvent) (tags : GoMap Str) (sr : SuiteResult) (trace : List SuiteHappening)
      → measure sr (recorded event tags ∷ trace) ≡ measure sr trace

module _ {W C A V : Type 0} (d : Deps W C A V) (e : Engine V) (x : Surroundings W V) (fair : Fair x)
    (never : (w : W) → x.is_stopped w ≡ false) (waits : (w : W) → (x.wait w).1 ≡ false)
    (measure : SuiteResult → List SuiteHappening → ℕ) (size : Test V → ℕ)
    (laws : Laws measure size) where
  pub write_adds :
      (event : SuiteEvent) (tags : GoMap Str) (sr : SuiteResult) (s : SuiteState W)
      → measure sr (write e event tags s).trace ≡ measure sr s.trace
  unfolding write
  write_adds event tags sr s = elim (Bool-cases e.has_telemetry) [
    | inl on ↦ rw on (laws.told event tags sr s.trace)
    | inr off ↦ rw off refl
  ]

  interaction_test_adds :
      (shared : Bool) (suite : TestSuite V) (inter : Interaction V) (pass : ℕ) (test : Test V)
      (p : SuiteResult × SuiteState W)
      → gauge measure (interaction_test d e x shared suite inter pass test p)
        ≡ gauge measure p + size test
  unfolding interaction_test run_reported
  interaction_test_adds shared suite inter pass test (sr, s) = elim (Bool-cases test.skip) [
    | inl skip ↦ simp (skip, interaction_test) (laws.skips test sr s.trace skip)
    | inr go ↦ simp (go, interaction_test) (laws.runs test sr s.trace _ _ go)
  ]

  run_interaction_adds :
      (suite : TestSuite V) (pass : ℕ) (provider : Str) (inter : Interaction V)
      (p : SuiteResult × SuiteState W)
      → Unweighted inter
      → gauge measure (run_interaction d e x suite pass provider inter p)
        ≡ gauge measure p + sum (map size inter.tests)
  unfolding run_interaction
  run_interaction_adds suite pass provider inter (sr, s) h =
      write_adds _ _ _ _
      ∙ dispatch_adds d e x fair never inter.tests size
          (interaction_test d e x (str_eq (mode_of inter) mode_sequential) suite inter pass) measure
          (All-always _ inter.tests λ test p.
            interaction_test_adds (str_eq (mode_of inter) mode_sequential) suite inter pass test p)
          (mode_of inter) 0 _ _ h
      ∙ ap (λ n. n + sum (map size inter.tests)) (write_adds _ _ sr _)

  with_provider_adds :
      (fleet : Bool) (suite : TestSuite V) (pass : ℕ) (inter : Interaction V)
      (p : SuiteResult × SuiteState W)
      → Unweighted inter
      → gauge measure (with_provider d e x fleet suite pass inter p)
        ≡ gauge measure p + sum (map size inter.tests)
  unfolding with_provider
  with_provider_adds true suite pass inter (sr, s) h = run_interaction_adds suite pass _ inter _ h
  with_provider_adds false suite pass inter (sr, s) h =
      run_interaction_adds suite pass [] inter (sr, s) h

  run_pass_adds :
      (fleet : Bool) (suite : TestSuite V) (exec : Execution V) (inters : List (Interaction V))
      (pass : ℕ) (p : SuiteResult × SuiteState W)
      → str_eq exec.mode mode_weighted ≡ false
      → All Unweighted inters
      → gauge measure (run_pass d e x fleet suite exec inters pass p)
        ≡ gauge measure p + over_tests size inters
  unfolding run_pass
  run_pass_adds fleet suite exec inters pass p mode h = rw mode (
      dispatch_adds d e x fair never inters (λ inter. sum (map size inter.tests))
        (with_provider d e x fleet suite pass) measure
        (All-weaken Unweighted _ inters (λ inter u q. with_provider_adds fleet suite pass inter q u)
          h)
        exec.mode _ _ p mode
      ∙ ap (λ n. gauge measure p + n) (sum-over_tests size inters))

  -- The loop over the passes, whatever measure is taken of its end.
  pub loop_adds :
      (fleet : Bool) (suite : TestSuite V) (exec : Execution V) (inters : List (Interaction V))
      (s : SuiteState W)
      → 0 < repeat_of d e x exec
      → str_eq exec.mode mode_weighted ≡ false
      → All Unweighted inters
      → (p : SuiteResult × SuiteState W) × (run
            (stopped d e x)
            (run_pass d e x fleet suite exec inters)
            (wait_between d e x)
            (repeat_of d e x exec)
            (repeat_of d e x exec)
            (not_negative (parse_duration d e x exec.interval))
            (new_result suite.suite, s)
          ≡ some p)
        × (gauge measure p
            ≡ measure (new_result suite.suite) s.trace
              + repeat_of d e x exec * over_tests size inters)
  loop_adds fleet suite exec inters s pos mode h =
      run-adds (stopped d e x) (run_pass d e x fleet suite exec inters) (wait_between d e x)
        (λ q. gauge measure q) (over_tests size inters) (λ q. never q.1.world)
        (λ q. waits q.1.world) (λ n q. run_pass_adds fleet suite exec inters n q mode h) (λ q. refl)
        (repeat_of d e x exec) (not_negative (parse_duration d e x exec.interval))
        (new_result suite.suite, s) pos
