-- ===== src/Engine/Runner/Verdict.antt =====
-- The result of a test against the results of its steps.
use scrutineer.Prelude.{
  ℕ, suc, ◌<◌, ◌≡◌, refl, sym, ap, ◌∙◌, ◌↔◌, inl, inr, Bool, true, false, List, [], ◌∷◌, ◌++◌,
  arith, GoMap, Str, if◌then◌else◌, Bool-cases, length, take, All,
}
use scrutineer.Schema.Types.{TestStep, Test}
use scrutineer.Engine.Runner.Types.{
  StepResult, TestResult, Deps, Runner, State, step_reported, test_recorded, test_start, test_pass,
  test_fail,
}
use scrutineer.Engine.Runner.{
  emit, cover, note, at_world, run_step, with_fallback, run_steps, run_test,
}

abbrev pub Passed : StepResult → Type 0
Passed sr = sr.passed ≡ true

-- The course of a loop over `n` steps: to the end, or to the first step that fails.
data Course : ℕ → List StepResult → Bool → Type 0 where
  done : Course 0 [] true
  on :
      {n : ℕ} {rs : List StepResult} {b : Bool} (sr : StepResult)
      → Passed sr
      → Course n rs b
      → Course (suc n) (sr ∷ rs) b
  stop : {n : ℕ} (sr : StepResult) → sr.passed ≡ false → Course (suc n) (sr ∷ []) false

-- The results of a failed test: steps that passed, fewer than there are, and one that failed.
pub record StopsAt (n : ℕ) (results : List StepResult) : Type 0 where
  pub before : List StepResult
  pub last : StepResult
  pub parts : results ≡ before ++ last ∷ []
  pub all_before : All Passed before
  pub last_failed : last.passed ≡ false
  pub fewer : length before < n

Course-passes :
    {n : ℕ} {rs : List StepResult} {b : Bool}
    → Course n rs b
    → (b ≡ true) ↔ ((length rs ≡ n) × All Passed rs)
Course-passes done = (λ e. (refl, tt), λ h. refl)
Course-passes (on sr p c) =
    let rest = Course-passes c in
    (
      λ e. let (size, all) = rest.0 e in (ap suc size, (p, all)),
      λ (size, (q, all)). rest.1 (omega (arith, size), all),
    )
Course-passes (stop sr f) = (λ e. cc, λ (size, (p, all)). cc (p, f))

Course-stops : {n : ℕ} {rs : List StepResult} {b : Bool} → Course n rs b → b ≡ false → StopsAt n rs
Course-stops done e = cc
Course-stops (on sr p c) e =
    let h = Course-stops c e in
    record {
      before = sr ∷ h.before;
      last = h.last;
      parts = ap (◌∷◌ sr) h.parts;
      all_before = (p, h.all_before);
      last_failed = h.last_failed;
      fewer = omega (arith, h.fewer);
    }
Course-stops (stop sr f) e = record {
  before = [];
  last = sr;
  parts = refl;
  all_before = tt;
  last_failed = f;
  fewer = omega arith;
}

module _ {W C A V : Type 0} (d : Deps W C A V) (r : Runner) where
  run_steps-Course :
      (connector : Str) (config : GoMap V) (i : ℕ) (steps : List (TestStep V)) (s : State W)
      → Course
          (length steps)
          (run_steps d r connector config i steps s).0.0
          (run_steps d r connector config i steps s).0.1
  unfolding run_steps
  run_steps-Course connector config i [] s = done
  run_steps-Course connector config i (step ∷ steps) s =
      let w = (d.is_cancelled s.world).1 in
      let ran = run_step d r (with_fallback d connector step) i config (at_world w s) in
      elim (Bool-cases (d.is_cancelled s.world).0) [
        | inl y ↦ rw (y, run_steps) (stop _ refl)
        | inr n ↦ elim (Bool-cases ran.0.passed) [
          | inl p ↦
              rw (n, run_steps)
                (rw (p, run_steps)
                  (on ran.0 p (
                    run_steps-Course connector config (suc i) steps
                      (note (step_reported ran.0.passed) ran.1))))
          | inr f ↦ rw (n, run_steps) (rw (f, run_steps) (stop ran.0 f))
        ]
      ]

  -- A test passes exactly if each of its steps has a result and each of them passed.
  pub run_test_passes :
      (test : Test V) (config : GoMap V) (s : State W)
      → ((run_test d r test config s).0.passed ≡ true) ↔ (
          (length (run_test d r test config s).0.steps ≡ length test.steps)
          × All Passed (run_test d r test config s).0.steps)
  unfolding run_test
  run_test_passes test config s =
      Course-passes (run_steps-Course test.connector config 0 test.steps _)

  -- What is done about one step, and what is added behind it.
  abbrev ran_step : Str → GoMap V → ℕ → TestStep V → State W → StepResult × State W
  ran_step connector config i step s =
      run_step d r (with_fallback d connector step) i config (at_world (d.is_cancelled s.world).1 s)

  abbrev behind :
      StepResult → (List StepResult × Bool) × State W → (List StepResult × Bool) × State W
  behind sr v = ((sr ∷ v.0.0, v.0.1), v.1)

  run_steps-pass :
      (connector : Str) (config : GoMap V) (i : ℕ) (step : TestStep V) (steps : List (TestStep V))
      (s : State W)
      → (d.is_cancelled s.world).0 ≡ false
      → (ran_step connector config i step s).0.passed ≡ true
      → run_steps d r connector config i (step ∷ steps) s
        ≡ behind (ran_step connector config i step s).0 (
            run_steps d r connector config (suc i) steps (
              note
                (step_reported (ran_step connector config i step s).0.passed)
                (ran_step connector config i step s).1))
  unfolding run_steps
  run_steps-pass connector config i step steps s n p =
      let ran = ran_step connector config i step s in
      rw (n, run_steps)
        (rw (p, run_steps)
          (ap
            (λ b.
              behind ran.0
                (run_steps d r connector config (suc i) steps (note (step_reported b) ran.1)))
            p))

  run_steps-cancel :
      (connector : Str) (config : GoMap V) (i : ℕ) (step : TestStep V) (steps : List (TestStep V))
      (s : State W)
      → (d.is_cancelled s.world).0 ≡ true
      → run_steps d r connector config i (step ∷ steps) s
        ≡ run_steps d r connector config i (step ∷ []) s
  unfolding run_steps
  run_steps-cancel connector config i step steps s y = rw (y, run_steps) refl

  run_steps-fail :
      (connector : Str) (config : GoMap V) (i : ℕ) (step : TestStep V) (steps : List (TestStep V))
      (s : State W)
      → (d.is_cancelled s.world).0 ≡ false
      → (ran_step connector config i step s).0.passed ≡ false
      → run_steps d r connector config i (step ∷ steps) s
        ≡ run_steps d r connector config i (step ∷ []) s
  unfolding run_steps
  run_steps-fail connector config i step steps s n f = rw (n, run_steps) (rw (f, run_steps) refl)

  run_steps-some :
      (connector : Str) (config : GoMap V) (i : ℕ) (step : TestStep V) (s : State W)
      → length (run_steps d r connector config i (step ∷ []) s).0.0 ≡ 1
  unfolding run_steps
  run_steps-some connector config i step s = elim (Bool-cases (d.is_cancelled s.world).0) [
    | inl y ↦ rw (y, run_steps) refl
    | inr n ↦ elim (Bool-cases (ran_step connector config i step s).0.passed) [
      | inl p ↦ rw (n, run_steps) (rw (p, run_steps) refl)
      | inr f ↦ rw (n, run_steps) (rw (f, run_steps) refl)
    ]
  ]

  -- The loop over the steps that have a result is the whole loop.
  run_steps-take :
      (connector : Str) (config : GoMap V) (i : ℕ) (steps : List (TestStep V)) (s : State W)
      → run_steps d r connector config i
          (take (length (run_steps d r connector config i steps s).0.0) steps)
          s
        ≡ run_steps d r connector config i steps s
  unfolding run_steps
  run_steps-take connector config i [] s = refl
  run_steps-take connector config i (step ∷ steps) s =
      let ran = ran_step connector config i step s in
      let s2 = note (step_reported ran.0.passed) ran.1 in
      let rest = run_steps d r connector config (suc i) steps s2 in
      elim (Bool-cases (d.is_cancelled s.world).0) [
        | inl y ↦
            one connector config i step steps s (run_steps-cancel connector config i step steps s y)
        | inr n ↦ elim (Bool-cases ran.0.passed) [
          | inl p ↦
              ap (λ v. run_steps d r connector config i (take (length v.0.0) (step ∷ steps)) s)
                (run_steps-pass connector config i step steps s n p)
              ∙ run_steps-pass connector config i step (take (length rest.0.0) steps) s n p
              ∙ ap (behind ran.0) (run_steps-take connector config (suc i) steps s2)
              ∙ sym (run_steps-pass connector config i step steps s n p)
          | inr f ↦
              one connector config i step steps s
                (run_steps-fail connector config i step steps s n f)
        ]
      ]
    where
      one :
          (connector : Str) (config : GoMap V) (i : ℕ) (step : TestStep V)
          (steps : List (TestStep V)) (s : State W)
          → run_steps d r connector config i (step ∷ steps) s
            ≡ run_steps d r connector config i (step ∷ []) s
          → run_steps d r connector config i
              (take (length (run_steps d r connector config i (step ∷ steps) s).0.0) (step ∷ steps))
              s
            ≡ run_steps d r connector config i (step ∷ steps) s
      one connector config i step steps s h =
          ap (λ v. run_steps d r connector config i (take (length v.0.0) (step ∷ steps)) s) h
          ∙ ap (λ k. run_steps d r connector config i (take k (step ∷ steps)) s)
              (run_steps-some connector config i step s)
          ∙ sym h

  -- The results of a test that fails are those of the steps before, which all passed, and one more,
  -- which failed. No step behind it was run: the test without the steps that have no result gives the
  -- same result, the same state, and the same trace of calls and reports.
  pub run_test_stops :
      (test : Test V) (config : GoMap V) (s : State W)
      → (run_test d r test config s).0.passed ≡ false
      → StopsAt (length test.steps) (run_test d r test config s).0.steps
        × (run_test d r
              (record test {
                steps = take (length (run_test d r test config s).0.steps) test.steps;
              })
              config
              s
            ≡ run_test d r test config s)
  unfolding run_test
  run_test_stops test config s e =
      let start = emit r test_start [] s in
      let result : (List StepResult × Bool) × State W → TestResult × State W = λ v. (
        record { passed = v.0.1; steps = v.0.0 },
        cover r test_recorded (emit r (if v.0.1 then test_pass else test_fail) [] v.1),
      ) in
      (
        Course-stops (run_steps-Course test.connector config 0 test.steps start) e,
        ap result (run_steps-take test.connector config 0 test.steps start),
      )
