-- ===== src/Engine/Suite/Replay.antt =====
-- What the calls on the coverage tracker, replayed from the trace of each test, do to the data of a test.
use scrutineer.Coverage.{
  TestData, Tracker, record_test_run, record_test_skip, record_step, record_assertion, find_test,
  update_test, set_ran, set_skipped, count_step, count_assertion,
}
use scrutineer.Coverage.Frame.{view, when, knows, view-update_test}
use scrutineer.Schema.Types.{Test}
use scrutineer.Engine.Runner.Types.{
  Deps, Runner, State, Happening, test_recorded, step_recorded, assertion_recorded,
}
use scrutineer.Engine.Runner.{run_test, cover, note}
use scrutineer.Engine.Suite.Types.{SuiteResult, Engine, SuiteState, SuiteEvent}
use scrutineer.Engine.Suite.{
  replay, connector_config, runner_of, run_reported, skip_test, write, cover_suite, run_tests,
}
use scrutineer.Prelude.{
  ◌+◌, ◌≡◌, refl, sym, ap, ◌∙◌, inl, inr, Bool, true, false, Option, none, some, List, [], ◌∷◌,
  ◌++◌, GoMap, Str, str_eq, str_eq_refl, Bool-cases, drop, All,
}

-- What replayed calls do to the data of their own test.
unfoldable pub played : List Happening → TestData → TestData
played [] td = td
played (test_recorded ∷ hs) td = set_ran (played hs td)
played (step_recorded ∷ hs) td = count_step (played hs td)
played (assertion_recorded passed ∷ hs) td = count_assertion passed (played hs td)
played (h ∷ hs) td = played hs td

when_done : (b : Bool) (d : Option TestData) → when b (played []) d ≡ d
unfolding played
when_done true (some td) = refl
when_done true none = refl
when_done false d = refl

when-when :
    (b : Bool) (f g : TestData → TestData) (d : Option TestData)
    → when b f (when b g d) ≡ when b (λ td. f (g td)) d
when-when true f g (some td) = refl
when-when true f g none = refl
when-when false f g d = refl

-- One more write to a test behind others to it.
updated :
    (f g : TestData → TestData) (suite test x : Str) (t t' : Tracker)
    → view suite x t' ≡ (knows suite t, when (str_eq test x) g (find_test suite x t))
    → view suite x (update_test f suite test t')
      ≡ (knows suite t, when (str_eq test x) (λ td. f (g td)) (find_test suite x t))
updated f g suite test x t t' h =
    view-update_test f suite x suite test t'
    ∙ rw (str_eq_refl suite) (
        rw (ap (λ v. v.0) h) (
          rw (ap (λ v. v.1) h)
            (ap (λ d. (knows suite t, d)) (when-when (str_eq test x) f g (find_test suite x t)))))

pub view-replay :
    (suite test x : Str) (hs : List Happening) (t : Tracker)
    → view suite x (replay suite test hs t)
      ≡ (knows suite t, when (str_eq test x) (played hs) (find_test suite x t))
unfolding replay played record_test_run record_step record_assertion
view-replay suite test x [] t =
    ap (λ d. (knows suite t, d)) (sym (when_done (str_eq test x) (find_test suite x t)))
view-replay suite test x (test_recorded ∷ hs) t =
    updated set_ran (played hs) suite test x t (replay suite test hs t)
      (view-replay suite test x hs t)
view-replay suite test x (step_recorded ∷ hs) t =
    updated count_step (played hs) suite test x t (replay suite test hs t)
      (view-replay suite test x hs t)
view-replay suite test x (assertion_recorded p ∷ hs) t =
    updated (count_assertion p) (played hs) suite test x t (replay suite test hs t)
      (view-replay suite test x hs t)
view-replay suite test x (h ∷ hs) t = view-replay suite test x hs t

-- Replayed calls leave what was registered, and whether the test was skipped.
pub record Kept (td td' : TestData) : Type 0 where
  pub skipped : td'.skipped ≡ td.skipped
  pub step_count : td'.step_count ≡ td.step_count
  pub assertion_count : td'.assertion_count ≡ td.assertion_count

pub played-Kept : (hs : List Happening) (td : TestData) → Kept td (played hs td)
unfolding played
played-Kept [] td = record { skipped = refl; step_count = refl; assertion_count = refl }
played-Kept (test_recorded ∷ hs) td =
    let k = played-Kept hs td in
    record { skipped = k.skipped; step_count = k.step_count; assertion_count = k.assertion_count }
played-Kept (step_recorded ∷ hs) td =
    let k = played-Kept hs td in
    record { skipped = k.skipped; step_count = k.step_count; assertion_count = k.assertion_count }
played-Kept (assertion_recorded true ∷ hs) td =
    let k = played-Kept hs td in
    record { skipped = k.skipped; step_count = k.step_count; assertion_count = k.assertion_count }
played-Kept (assertion_recorded false ∷ hs) td =
    let k = played-Kept hs td in
    record { skipped = k.skipped; step_count = k.step_count; assertion_count = k.assertion_count }
played-Kept (h ∷ hs) td = played-Kept hs td

pub played-ran : (hs : List Happening) (td : TestData) → (played (test_recorded ∷ hs) td).ran ≡ true
unfolding played
played-ran hs td = refl

-- A test under another name.
abbrev pub Other : {V : Type 0} → Str → Test V → Type 0
Other x test = str_eq test.name x ≡ false

module _ {W C A V : Type 0} (d : Deps W C A V) where
  -- The last call of RunTest is RecordTestRun.
  run_test_recorded :
      (r : Runner) (test : Test V) (config : GoMap V) (s : State W)
      → r.has_coverage ≡ true
      → (hs : List Happening) × ((run_test d r test config s).1.trace ≡ test_recorded ∷ hs)
  unfolding run_test cover note
  run_test_recorded r test config s h = (drop 1 (run_test d r test config s).1.trace, rw h refl)

module _ {W C A V : Type 0} (d : Deps W C A V) (e : Engine V) (covers : e.has_coverage ≡ true) where
  pub tracker-write :
      (event : SuiteEvent) (tags : GoMap Str) (s : SuiteState W)
      → (write e event tags s).tracker ≡ s.tracker
  unfolding write
  tracker-write event tags s = elim (Bool-cases e.has_telemetry) [
    | inl on ↦ rw on refl
    | inr off ↦ rw off refl
  ]

  pub tracker-cover_suite :
      (f : Tracker → Tracker) (s : SuiteState W) → (cover_suite e f s).tracker ≡ f s.tracker
  unfolding cover_suite
  tracker-cover_suite f s = rw covers refl

  pub skip_test_covers :
      (suite : Str) (test : Test V) (x : Str) (s : SuiteState W)
      → view suite x (skip_test e suite test s).tracker ≡ (
        knows suite s.tracker,
        when (str_eq test.name x) set_skipped (find_test suite x s.tracker),
      )
  unfolding skip_test record_test_skip
  skip_test_covers suite test x s =
      rw (tracker-write, tracker-cover_suite)
        (view-update_test set_skipped suite x suite test.name s.tracker
          ∙ rw (str_eq_refl suite) refl)

  pub run_reported_covers :
      (suite : Str) (test : Test V) (x : Str) (s : SuiteState W)
      → (hs : List Happening) × (view suite x (run_reported d e suite test s).1.tracker ≡ (
        knows suite s.tracker,
        when (str_eq test.name x) (played (test_recorded ∷ hs)) (find_test suite x s.tracker),
      ))
  unfolding run_reported
  run_reported_covers suite test x s =
      let (hs, h) =
        run_test_recorded d (runner_of e) test (connector_config e test.connector)
          (record { world = s.world; trace = [] }) covers in
      (hs, rw h (view-replay suite test.name x (test_recorded ∷ hs) s.tracker))

  module _ (new_context : Str → Str → GoMap V → W → W) where
    -- The loop leaves the other tests alone.
    pub run_tests_others :
        (suite x : Str) (fixtures : GoMap V) (tests : List (Test V)) (sr : SuiteResult)
        (s : SuiteState W)
        → All (Other {V = V} x) tests
        → view suite x (run_tests d e new_context suite fixtures tests sr s).1.tracker
          ≡ view suite x s.tracker
    unfolding run_tests
    run_tests_others suite x fixtures [] sr s h = refl
    run_tests_others suite x fixtures (test ∷ tests) sr s (other, h) = elim (Bool-cases test.skip) [
      | inl skip ↦
          simp (skip, run_tests)
            (run_tests_others suite x fixtures tests (record sr { skipped = sr.skipped + 1 })
                (skip_test e suite test s) h
              ∙ skip_test_covers suite test x s
              ∙ rw other refl)
      | inr run ↦
          let start : SuiteState W = record s {
            world = new_context suite test.name fixtures s.world;
          } in
          let reported = run_reported d e suite test start in
          let (hs, one) = run_reported_covers suite test x start in
          simp (run, run_tests)
            (run_tests_others suite x fixtures tests
                (record sr { results = sr.results ++ reported.0 ∷ [] }) reported.1 h
              ∙ one
              ∙ rw other refl)
    ]

    pub run_tests-append :
        (suite : Str) (fixtures : GoMap V) (xs ys : List (Test V)) (sr : SuiteResult)
        (s : SuiteState W)
        → run_tests d e new_context suite fixtures (xs ++ ys) sr s ≡ (
            let r = run_tests d e new_context suite fixtures xs sr s in
            run_tests d e new_context suite fixtures ys r.0 r.1)
    unfolding run_tests
    run_tests-append suite fixtures [] ys sr s = refl
    run_tests-append suite fixtures (test ∷ xs) ys sr s = elim (Bool-cases test.skip) [
      | inl skip ↦
          simp (skip, run_tests)
            (run_tests-append suite fixtures xs ys (record sr { skipped = sr.skipped + 1 })
              (skip_test e suite test s))
      | inr run ↦
          let reported =
            run_reported d e suite test
              (record s { world = new_context suite test.name fixtures s.world }) in
          simp (run, run_tests)
            (run_tests-append suite fixtures xs ys
              (record sr { results = sr.results ++ reported.0 ∷ [] }) reported.1)
    ]
