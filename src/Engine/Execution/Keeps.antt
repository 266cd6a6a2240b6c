-- ===== src/Engine/Execution/Keeps.antt =====
-- What the work on each test keeps, a suite with an execution block keeps up to its summary.
use scrutineer.Coverage.{Tracker}
use scrutineer.Schema.Types.{Execution, Test, Interaction, TestSuite}
use scrutineer.Engine.Dispatcher.{Dispatcher, dispatch_each}
use scrutineer.Engine.Loop.Keeps.{run-keeps}
use scrutineer.Engine.Runner.Types.{TestResult, Deps, Happening}
use scrutineer.Engine.Suite.Types.{
  SuiteResult, Engine, SuiteEvent, suite_start, suite_end, suite_started, suite_ended, SuiteState,
}
use scrutineer.Engine.Suite.{summarise, new_result, replay, write, tell, run_reported}
use scrutineer.Engine.Execution.{
  not_negative, Surroundings, stopped, dispatch, interaction_test, at_index, run_interaction,
  with_provider, run_pass, repeat_of, parse_duration, wait_between, run_passes,
  run_suite_with_execution, fleet_failed, fleet_of, interactions_of, total_tests,
}
use scrutineer.Prelude.{
  ℕ, ◌+◌, ◌<◌, ◌≡◌, refl, inl, inr, Bool, true, false, some, List, [], ◌∷◌, ◌++◌, GoMap, Str, codes,
  Bool-cases, Option-cases, get_elem?,
}

tracker-write :
    {W V : Type 0} (e : Engine V) (event : SuiteEvent) (tags : GoMap Str) (s : SuiteState W)
    → (write e event tags s).tracker ≡ s.tracker
unfolding write
tracker-write e event tags s = elim (Bool-cases e.has_telemetry) [
  | inl on ↦ rw on refl
  | inr off ↦ rw off refl
]

module _ {W C A V : Type 0} (d : Deps W C A V) (e : Engine V) (x : Surroundings W V)
    (suite : TestSuite V) (Keep : SuiteResult → Tracker → Type 0)
    (skips : (sr : SuiteResult) (t : Tracker)
      → Keep sr t
      → Keep (record sr { skipped = sr.skipped + 1 }) t)
    (runs : (sr : SuiteResult) (t : Tracker) (result : TestResult) (test : Str)
        (hs : List Happening)
      → Keep sr t
      → Keep
          (record sr { results = sr.results ++ result ∷ [] })
          (replay suite.suite test hs t)) where
  abbrev Kept : SuiteResult × SuiteState W → Type 0
  Kept (sr, s) = Keep sr s.tracker

  write-Kept :
      (event : SuiteEvent) (tags : GoMap Str) (sr : SuiteResult) (s : SuiteState W)
      → Keep sr s.tracker
      → Keep sr (write e event tags s).tracker
  write-Kept event tags sr s k = rw (tracker-write e event tags s) k

  dispatch_each-Kept :
      (stop : SuiteResult × SuiteState W → Bool)
      (work : ℕ → SuiteResult × SuiteState W → SuiteResult × SuiteState W) (order : List ℕ)
      (p : SuiteResult × SuiteState W)
      → ((i : ℕ) (p : SuiteResult × SuiteState W) → Kept p → Kept (work i p))
      → Kept p
      → Kept (dispatch_each stop work order p)
  unfolding dispatch_each
  dispatch_each-Kept stop work [] p h k = k
  dispatch_each-Kept stop work (i ∷ is) p h k = elim (Bool-cases (stop p)) [
    | inl halt ↦ rw halt k
    | inr go ↦ rw go (dispatch_each-Kept stop work is (work i p) h (h i p k))
  ]

  dispatch-Kept :
      (dispatcher : Dispatcher) (count : ℕ)
      (work : ℕ → SuiteResult × SuiteState W → SuiteResult × SuiteState W)
      (p : SuiteResult × SuiteState W)
      → ((i : ℕ) (p : SuiteResult × SuiteState W) → Kept p → Kept (work i p))
      → Kept p
      → Kept (dispatch d e x dispatcher count work p)
  unfolding dispatch
  dispatch-Kept dispatcher count work (sr, s) h k = dispatch_each-Kept (stopped d e x) work _ _ h k

  at_index-Kept :
      {I : Type 0} (items : List I)
      (work : I → SuiteResult × SuiteState W → SuiteResult × SuiteState W)
      → ((item : I) (p : SuiteResult × SuiteState W) → Kept p → Kept (work item p))
      → (i : ℕ) (p : SuiteResult × SuiteState W) → Kept p
      → Kept (at_index d e x items work i p)
  unfolding at_index
  at_index-Kept items work h i p k = elim (Option-cases (get_elem? items i)) [
    | inl gone ↦ rw (gone, at_index) k
    | inr (item, found) ↦ rw (found, at_index) (h item p k)
  ]

  interaction_test-Kept :
      (shared : Bool) (inter : Interaction V) (pass : ℕ) (test : Test V)
      (p : SuiteResult × SuiteState W)
      → Kept p
      → Kept (interaction_test d e x shared suite inter pass test p)
  unfolding interaction_test run_reported
  interaction_test-Kept shared inter pass test (sr, s) k = elim (Bool-cases test.skip) [
    | inl skip ↦ simp (skip, interaction_test) (skips sr s.tracker k)
    | inr run ↦ simp (run, interaction_test) (runs sr s.tracker _ test.name _ k)
  ]

  run_interaction-Kept :
      (pass : ℕ) (provider : Str) (inter : Interaction V) (p : SuiteResult × SuiteState W)
      → Kept p
      → Kept (run_interaction d e x suite pass provider inter p)
  unfolding run_interaction
  run_interaction-Kept pass provider inter (sr, s) k = write-Kept _ _ _ _ (
      dispatch-Kept _ _ _ _ (at_index-Kept inter.tests _ (interaction_test-Kept _ inter pass))
        (write-Kept _ _ sr _ k))

  with_provider-Kept :
      (fleet : Bool) (pass : ℕ) (inter : Interaction V) (p : SuiteResult × SuiteState W)
      → Kept p
      → Kept (with_provider d e x fleet suite pass inter p)
  unfolding with_provider
  with_provider-Kept true pass inter (sr, s) k = run_interaction-Kept pass _ inter _ k
  with_provider-Kept false pass inter (sr, s) k = run_interaction-Kept pass [] inter (sr, s) k

  run_pass-Kept :
      (fleet : Bool) (exec : Execution V) (inters : List (Interaction V)) (pass : ℕ)
      (p : SuiteResult × SuiteState W)
      → Kept p
      → Kept (run_pass d e x fleet suite exec inters pass p)
  unfolding run_pass
  run_pass-Kept fleet exec inters pass p k =
      dispatch-Kept _ _ _ p (at_index-Kept inters _ (with_provider-Kept fleet pass)) k

  pub run_passes-keeps :
      (fleet : Bool) (exec : Execution V) (inters : List (Interaction V)) (s : SuiteState W)
      → 0 < repeat_of d e x exec
      → Keep (new_result suite.suite) s.tracker
      → (sr : SuiteResult) × (s' : SuiteState W) × (run_passes d e x
            (repeat_of d e x exec)
            fleet
            suite
            exec
            inters
            s
          ≡ some (summarise sr, s'))
        × Keep sr s'.tracker
  unfolding run_passes
  run_passes-keeps fleet exec inters s h k =
      let (p, same, kept) =
        run-keeps (stopped d e x) (run_pass d e x fleet suite exec inters) (wait_between d e x) Kept
          (λ n p q. run_pass-Kept fleet exec inters n p q) (λ p q. q) (repeat_of d e x exec)
          (not_negative (parse_duration d e x exec.interval)) (new_result suite.suite, s) h k in
      let total = summarise p.0 in
      let told = tell (suite_ended suite.suite total.passed total.failed total.skipped) p.1 in
      (
        p.0,
        write e suite_end ((codes "suite", suite.suite) ∷ []) told,
        rw (same, run_passes) refl,
        write-Kept suite_end ((codes "suite", suite.suite) ∷ []) p.0 told kept,
      )

  -- With a repeat count the whole of it ends, in what a kept result sums up to or in a failed fleet.
  pub run_suite_with_execution-keeps :
      (Final : SuiteResult → Tracker → Type 0)
      → ((sr : SuiteResult) (t : Tracker) → Keep sr t → Final (summarise sr) t)
      → (exec : Execution V) (s : SuiteState W)
      → ((problem : Str) → Final (fleet_failed suite.suite problem) s.tracker)
      → 0 < repeat_of d e x exec
      → Keep (new_result suite.suite) s.tracker
      → (p : SuiteResult × SuiteState W) × (run_suite_with_execution d e x
            (repeat_of d e x exec)
            suite
            exec
            s
          ≡ some p)
        × Final p.0 p.1.tracker
  unfolding run_suite_with_execution
  run_suite_with_execution-keeps Final sums exec s fails h k =
      let inters = interactions_of suite.suite suite.interactions suite.tests in
      let started = suite_started suite.suite (total_tests inters) in
      let s1 = write e suite_start ((codes "suite", suite.suite) ∷ []) (tell started s) in
      let same : s1.tracker ≡ s.tracker = tracker-write e suite_start _ (tell started s) in
      let k1 : Keep (new_result suite.suite) s1.tracker =
        write-Kept suite_start _ (new_result suite.suite) (tell started s) k in
      elim (Option-cases (fleet_of d e x exec)) [
        | inl alone ↦
            let (sr, s', e, kept) = run_passes-keeps false exec inters s1 h k1 in
            ((summarise sr, s'), rw (alone, run_suite_with_execution) e, sums sr s'.tracker kept)
        | inr (config, fleet) ↦ elim (Option-cases (x.set_up_fleet config s1.world).0) [
          | inr (problem, failed) ↦ (
            (
              fleet_failed suite.suite problem,
              tell (suite_ended suite.suite 0 1 0)
                  (tell started (record s1 { world = (x.set_up_fleet config s1.world).1 })),
            ),
            rw (fleet, run_suite_with_execution) (rw (failed, run_suite_with_execution) refl),
            rw same (fails problem),
          )
          | inl ready ↦
              let (sr, s', e, kept) =
                run_passes-keeps true exec inters
                  (record s1 { world = (x.set_up_fleet config s1.world).1 }) h k1 in
              (
                (summarise sr, record s' { world = x.tear_down_fleet s'.world }),
                rw (fleet, run_suite_with_execution)
                    (rw (ready, run_suite_with_execution) (rw e refl)),
                sums sr s'.tracker kept,
              )
        ]
      ]
