-- ===== src/Coverage/Frame.antt =====
-- What each operation of the tracker does to each test.
use scrutineer.Prelude.{
  ℕ, ◌≡◌, refl, ap, ◌∙◌, inl, inr, Bool, true, false, ◌&&◌, ◌||◌, Option, none, some, List, [], ◌∷◌,
  arith, lookup, insert, lookup-insert, Str, str_eq, str_eq_iff, if◌then◌else◌, Option-cases,
}
use mathlib.Core.Option
use scrutineer.Coverage.{
  TestData, Tracker, new_suite, new_test, register_suite, add_test, register_test, find_test,
  update_test, record_test_run, record_test_skip, record_step, record_assertion, set_ran,
  set_skipped, count_step, count_assertion,
}

-- The calls that a run of the engine makes on the tracker.
pub data Event : Type 0 where
  suite_registered : Str → ℕ → Event
  test_registered : Str → Str → ℕ → ℕ → Event
  test_ran test_skipped step_done : Str → Str → Event
  assertion_done : Str → Str → Bool → Event

unfoldable pub apply : Event → Tracker → Tracker
apply (suite_registered name n) t = register_suite name n t
apply (test_registered suite test steps asserts) t = register_test suite test steps asserts t
apply (test_ran suite test) t = record_test_run suite test t
apply (test_skipped suite test) t = record_test_skip suite test t
apply (step_done suite test) t = record_step suite test t
apply (assertion_done suite test passed) t = record_assertion suite test passed t

unfoldable pub apply_all : List Event → Tracker → Tracker
apply_all [] t = t
apply_all (e ∷ es) t = apply_all es (apply e t)

-- What is known of one test: whether its suite is registered, and its data, once it is.
abbrev pub View : Type 0
View = Bool × Option TestData

unfoldable pub knows : Str → Tracker → Bool
knows suite t = elim (lookup suite t.suites) [ none ↦ false | some s ↦ true ]

abbrev pub view : Str → Str → Tracker → View
view suite test t = (knows suite t, find_test suite test t)

abbrev pub registered : Bool → Str → ℕ → ℕ → Option TestData → Option TestData
registered known test steps asserts (some td) = some td
registered false test steps asserts none = none
registered true test steps asserts none = some (new_test test steps asserts)

abbrev pub when : Bool → (TestData → TestData) → Option TestData → Option TestData
when b f d = if b then Option.map f d else d

-- What one call does to the view of `test` in `suite`, told without any map.
unfoldable pub observe : Str → Str → Event → View → View
observe suite test (suite_registered name n) (known, d) = (str_eq name suite || known, d)
observe suite test (test_registered suite' test' steps asserts) (known, d) = (
  known,
  if str_eq suite' suite && str_eq test' test then registered known test' steps asserts d else d,
)
observe suite test (test_ran suite' test') (known, d) =
    (known, when (str_eq suite' suite && str_eq test' test) set_ran d)
observe suite test (test_skipped suite' test') (known, d) =
    (known, when (str_eq suite' suite && str_eq test' test) set_skipped d)
observe suite test (step_done suite' test') (known, d) =
    (known, when (str_eq suite' suite && str_eq test' test) count_step d)
observe suite test (assertion_done suite' test' passed) (known, d) =
    (known, when (str_eq suite' suite && str_eq test' test) (count_assertion passed) d)

unfoldable pub observe_all : Str → Str → List Event → View → View
observe_all suite test [] v = v
observe_all suite test (e ∷ es) v = observe_all suite test es (observe suite test e v)

-- A write reaches the test that it names and no other.
pub view-update_test :
    (f : TestData → TestData) (suite test suite' test' : Str) (t : Tracker)
    → view suite test (update_test f suite' test' t)
      ≡ (knows suite t, when (str_eq suite' suite && str_eq test' test) f (find_test suite test t))
unfolding find_test update_test knows
view-update_test f suite test suite' test' t = elim (Option-cases (lookup suite' t.suites)) [
  | inl e ↦ ground (arith, e, str_eq_iff suite' suite)
  | inr (s, e) ↦ elim (Option-cases (lookup test' s.tests)) [
    | inl d ↦ ground (arith, e, d, str_eq_iff suite' suite, str_eq_iff test' test)
    | inr (td, d) ↦ ground (
      arith,
      e,
      d,
      str_eq_iff suite' suite,
      str_eq_iff test' test,
      lookup-insert suite' suite (record s { tests = insert test' (f td) s.tests }) t.suites,
      lookup-insert test' test (f td) s.tests,
    )
  ]
]

pub view-register_suite :
    (suite test name : Str) (n : ℕ) (t : Tracker)
    → view suite test (register_suite name n t)
      ≡ (str_eq name suite || knows suite t, find_test suite test t)
unfolding find_test register_suite knows lookup
view-register_suite suite test name n t = elim (Option-cases (lookup name t.suites)) [
  | inl e ↦
      ground (arith, e, str_eq_iff name suite, lookup-insert name suite (new_suite name n) t.suites)
  | inr (s, e) ↦ ground (arith, e, str_eq_iff name suite)
]

pub view-register_test :
    (suite test suite' test' : Str) (steps asserts : ℕ) (t : Tracker)
    → view suite test (register_test suite' test' steps asserts t) ≡ (
      knows suite t,
      if str_eq suite' suite && str_eq test' test
          then registered (knows suite t) test' steps asserts (find_test suite test t)
          else find_test suite test t,
    )
unfolding find_test register_test add_test knows
view-register_test suite test suite' test' steps asserts t =
    elim (Option-cases (lookup suite' t.suites)) [
      | inl e ↦ ground (arith, e, str_eq_iff suite' suite)
      | inr (s, e) ↦ elim (Option-cases (lookup test' s.tests)) [
        | inr (td, d) ↦ ground (
          arith,
          e,
          d,
          str_eq_iff suite' suite,
          str_eq_iff test' test,
          lookup-insert suite' suite s t.suites,
        )
        | inl d ↦ ground (
          arith,
          e,
          d,
          str_eq_iff suite' suite,
          str_eq_iff test' test,
          lookup-insert suite' suite (add_test test' steps asserts s) t.suites,
          lookup-insert test' test (new_test test' steps asserts) s.tests,
        )
      ]
    ]

pub view-apply :
    (suite test : Str) (e : Event) (t : Tracker)
    → view suite test (apply e t) ≡ observe suite test e (view suite test t)
unfolding apply observe record_test_run record_test_skip record_step record_assertion
view-apply suite test (suite_registered name n) t = view-register_suite suite test name n t
view-apply suite test (test_registered s' t' k a) t = view-register_test suite test s' t' k a t
view-apply suite test (test_ran s' t') t = view-update_test set_ran suite test s' t' t
view-apply suite test (test_skipped s' t') t = view-update_test set_skipped suite test s' t' t
view-apply suite test (step_done s' t') t = view-update_test count_step suite test s' t' t
view-apply suite test (assertion_done s' t' p) t =
    view-update_test (count_assertion p) suite test s' t' t

pub view-apply_all :
    (suite test : Str) (events : List Event) (t : Tracker)
    → view suite test (apply_all events t) ≡ observe_all suite test events (view suite test t)
unfolding apply_all observe_all
view-apply_all suite test [] t = refl
view-apply_all suite test (e ∷ es) t =
    view-apply_all suite test es (apply e t)
    ∙ ap (observe_all suite test es) (view-apply suite test e t)
