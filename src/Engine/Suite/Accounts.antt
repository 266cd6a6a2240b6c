-- ===== src/Engine/Suite/Accounts.antt =====
-- The counts of a suite's result, and the exit code.
use scrutineer.Schema.Types.{Test, TestSuite}
use scrutineer.Engine.Runner.Types.{TestResult, Deps}
use scrutineer.Engine.Suite.Types.{SuiteResult, Engine, SuiteState}
use scrutineer.Engine.Suite.{
  tally, summarise, exit_code, new_result, run_reported, skip_test, run_tests, run_suite_simple,
}
use scrutineer.Prelude.{
  ℕ, ◌+◌, ◌≤◌, ◌≡◌, refl, sym, ◌∙◌, ◌↔◌, inl, inr, true, List, [], ◌∷◌, ◌++◌, arith, GoMap, Str,
  ltb, if◌then◌else◌, Bool-cases, length, All, length-append,
}

abbrev pub Passed : TestResult → Type 0
Passed r = r.passed ≡ true

unfoldable pub skips : {V : Type 0} → List (Test V) → ℕ
skips [] = 0
skips (test ∷ tests) = (if test.skip then 1 else 0) + skips tests

-- How many results are passes, and how many are not.
unfoldable pub passes : List TestResult → ℕ
passes [] = 0
passes (r ∷ rs) = (if r.passed then 1 else 0) + passes rs

unfoldable pub fails : List TestResult → ℕ
fails [] = 0
fails (r ∷ rs) = (if r.passed then 0 else 1) + fails rs

-- What the tally adds to the counts of `sr`.
pub record Tallied (rs : List TestResult) (sr sr' : SuiteResult) : Type 0 where
  pub results : sr'.results ≡ sr.results
  pub skipped : sr'.skipped ≡ sr.skipped
  pub passed : sr'.passed ≡ sr.passed + passes rs
  pub failed : sr'.failed ≡ sr.failed + fails rs
  pub counted : sr'.passed + sr'.failed ≡ sr.passed + sr.failed + length rs
  pub grows : sr.failed ≤ sr'.failed
  pub none_failed : sr'.failed ≡ sr.failed → All Passed rs
  pub all_passed : All Passed rs → sr'.failed ≡ sr.failed

pub tally-Tallied : (rs : List TestResult) (sr : SuiteResult) → Tallied rs sr (tally rs sr)
unfolding tally passes fails
tally-Tallied [] sr = record {
  results = refl;
  skipped = refl;
  passed = omega arith;
  failed = omega arith;
  counted = omega arith;
  grows = omega arith;
  none_failed = λ e. tt;
  all_passed = λ h. refl;
}
tally-Tallied (r ∷ rs) sr = elim (Bool-cases r.passed) [
  | inl e ↦
      let rest = tally-Tallied rs (record sr { passed = sr.passed + 1 }) in
      simp (e, tally)
        (record {
          results = rest.results;
          skipped = rest.skipped;
          passed = ground (arith, e, rest.passed);
          failed = ground (arith, e, rest.failed);
          counted = omega (arith, rest.counted);
          grows = rest.grows;
          none_failed = λ same. (e, rest.none_failed same);
          all_passed = λ (_, h). rest.all_passed h;
        })
  | inr e ↦
      let rest = tally-Tallied rs (record sr { failed = sr.failed + 1 }) in
      simp (e, tally)
        (record {
          results = rest.results;
          skipped = rest.skipped;
          passed = ground (arith, e, rest.passed);
          failed = ground (arith, e, rest.failed);
          counted = omega (arith, rest.counted);
          grows = omega (arith, rest.grows);
          none_failed = λ same. absurd (omega (arith, rest.grows, same));
          all_passed = λ (p, h). absurd (ground (arith, e, p));
        })
]

-- What a result says of the tests of its suite.
abbrev pub Settled : SuiteResult → Type 0
Settled sr = sr.failed ≡ 0 ↔ All Passed sr.results

abbrev pub Summed : SuiteResult → Type 0
Summed sr =
    (sr.passed ≡ passes sr.results)
    × (sr.failed ≡ fails sr.results)
    × (sr.passed + sr.failed ≡ length sr.results)
    × Settled sr

abbrev pub Accounted : {V : Type 0} → List (Test V) → SuiteResult → Type 0
Accounted tests sr =
    (sr.passed + sr.failed + sr.skipped ≡ length tests) × (sr.skipped ≡ skips tests) × Summed sr

pub summarise-Summed : (sr : SuiteResult) → sr.passed ≡ 0 → sr.failed ≡ 0 → Summed (summarise sr)
unfolding summarise
summarise-Summed sr p f =
    let t = tally-Tallied sr.results sr in
    (
      rw t.results (omega (arith, t.passed, p)),
      rw t.results (omega (arith, t.failed, f)),
      rw t.results (omega (arith, t.counted, p, f)),
      rw t.results (λ e. t.none_failed (e ∙ sym f), λ all. t.all_passed all ∙ f),
    )

summarise-Accounted :
    {V : Type 0} (tests : List (Test V)) (sr : SuiteResult)
    → sr.passed ≡ 0
    → sr.failed ≡ 0
    → sr.skipped ≡ skips tests
    → length sr.results + sr.skipped ≡ length tests
    → Accounted tests (summarise sr)
unfolding summarise
summarise-Accounted tests sr p f k c =
    let t = tally-Tallied sr.results sr in
    (omega (arith, t.counted, t.skipped, p, f, c), t.skipped ∙ k, summarise-Summed sr p f)

pub exit_code-Settled :
    (srs : List SuiteResult)
    → All Settled srs
    → (exit_code srs ≡ 0 ↔ All (λ sr. All Passed sr.results) srs) × (exit_code srs ≤ 1)
unfolding exit_code
exit_code-Settled [] h = ((λ e. tt, λ h. refl), omega arith)
exit_code-Settled (sr ∷ srs) (one, h) =
    let ((to, from), low) = exit_code-Settled srs h in
    elim (Bool-cases (ltb 0 sr.failed)) [
      | inl some_failed ↦ rw some_failed (
        (λ e. absurd (omega (arith, e)), λ (p, q). absurd (ground (arith, some_failed, one.1 p))),
        omega arith,
      )
      | inr no_failed ↦
          let zero_failed : sr.failed ≡ 0 = ground (arith, no_failed) in
          rw no_failed ((λ e. (one.0 zero_failed, to e), λ (p, q). from q), low)
    ]

module _ {W C A V : Type 0} (d : Deps W C A V) (e : Engine V)
    (new_context : Str → Str → GoMap V → W → W) where
  -- The loop adds a result or a skip for each test, and no other count.
  record Looped (tests : List (Test V)) (sr sr' : SuiteResult) : Type 0 where
    passed : sr'.passed ≡ sr.passed
    failed : sr'.failed ≡ sr.failed
    skipped : sr'.skipped ≡ sr.skipped + skips tests
    counted : length sr'.results + sr'.skipped ≡ length sr.results + sr.skipped + length tests

  run_tests-Looped :
      (suite : Str) (fixtures : GoMap V) (tests : List (Test V)) (sr : SuiteResult)
      (s : SuiteState W)
      → Looped tests sr (run_tests d e new_context suite fixtures tests sr s).0
  unfolding run_tests skips
  run_tests-Looped suite fixtures [] sr s = record {
    passed = refl;
    failed = refl;
    skipped = omega arith;
    counted = omega arith;
  }
  run_tests-Looped suite fixtures (test ∷ tests) sr s = elim (Bool-cases test.skip) [
    | inl skip ↦
        let rest =
          run_tests-Looped suite fixtures tests (record sr { skipped = sr.skipped + 1 })
            (skip_test e suite test s) in
        rw (skip, run_tests)
          (record {
            passed = rest.passed;
            failed = rest.failed;
            skipped = omega (arith, rest.skipped);
            counted = omega (arith, rest.counted);
          })
    | inr run ↦
        let reported =
          run_reported d e suite test
            (record s { world = new_context suite test.name fixtures s.world }) in
        let rest =
          run_tests-Looped suite fixtures tests
            (record sr { results = sr.results ++ reported.0 ∷ [] }) reported.1 in
        rw (run, run_tests)
          (record {
            passed = rest.passed;
            failed = rest.failed;
            skipped = omega (arith, rest.skipped);
            counted = omega (arith, rest.counted, length-append sr.results (reported.0 ∷ []));
          })
  ]

  -- The result of runSuiteSimple accounts for each test of the suite once: as passed, as failed or as
  -- skipped. It counts as skipped the tests that say so, there is one result for each of the others,
  -- and it counts as passed and as failed as many as there are results that are passes and that are
  -- not; none is counted as failed exactly if every result is a pass.
  pub run_suite_simple_accounts :
      (suite : TestSuite V) (s : SuiteState W)
      → Accounted suite.tests (run_suite_simple d e new_context suite s).0
  unfolding run_suite_simple
  run_suite_simple_accounts suite s =
      let looped =
        run_tests-Looped suite.suite suite.fixtures suite.tests (new_result suite.suite) _ in
      summarise-Accounted suite.tests _ looped.passed looped.failed (omega (arith, looped.skipped))
        (omega (arith, looped.counted))
