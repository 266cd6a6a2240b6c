-- ===== src/Coverage/Tally.antt =====
-- What calls on a registered test add to its data, counted from the calls alone.
use scrutineer.Coverage.{TestData, set_ran, set_skipped, count_step, count_assertion}
use scrutineer.Coverage.Frame.{
  Event, suite_registered, test_registered, test_ran, test_skipped, step_done, assertion_done,
  observe, observe_all,
}
use scrutineer.Prelude.{
  ℕ, ◌+◌, ◌≡◌, refl, ap, ◌∙◌, inl, inr, Bool, true, false, ◌&&◌, ◌||◌, Option, some, List, [], ◌∷◌,
  arith, Str, str_eq, if◌then◌else◌, Bool-cases,
}

-- How many of the calls are of a kind, and whether there is one.
unfoldable pub tally_if : (Event → Bool) → List Event → ℕ
tally_if p [] = 0
tally_if p (e ∷ es) = (if p e then 1 else 0) + tally_if p es

unfoldable pub occurs : (Event → Bool) → List Event → Bool
occurs p [] = false
occurs p (e ∷ es) = p e || occurs p es

module _ (suite test : Str) where
  abbrev pub names : Str → Str → Bool
  names s t = str_eq s suite && str_eq t test

  abbrev pub is_run : Event → Bool
  is_run (test_ran s t) = names s t
  is_run e = false

  abbrev pub is_skip : Event → Bool
  is_skip (test_skipped s t) = names s t
  is_skip e = false

  abbrev pub is_step : Event → Bool
  is_step (step_done s t) = names s t
  is_step e = false

  abbrev pub is_passed : Event → Bool
  is_passed (assertion_done s t true) = names s t
  is_passed e = false

  abbrev pub is_failed : Event → Bool
  is_failed (assertion_done s t false) = names s t
  is_failed e = false

  -- What the calls add to the data of the test.
  pub record Added (events : List Event) (td td' : TestData) : Type 0 where
    pub name : td'.name ≡ td.name
    pub step_count : td'.step_count ≡ td.step_count
    pub assertion_count : td'.assertion_count ≡ td.assertion_count
    pub ran : td'.ran ≡ (td.ran || occurs is_run events)
    pub skipped : td'.skipped ≡ (td.skipped || occurs is_skip events)
    pub executed_steps : td'.executed_steps ≡ td.executed_steps + tally_if is_step events
    pub passed_asserts : td'.passed_asserts ≡ td.passed_asserts + tally_if is_passed events
    pub failed_asserts : td'.failed_asserts ≡ td.failed_asserts + tally_if is_failed events

  abbrev pub Found : List Event → TestData → Option TestData → Type 0
  Found events td d' = (td' : TestData) × (d' ≡ some td') × Added events td td'

  -- A call that is not about the test adds nothing.
  untouched :
      (e : Event) (td : TestData)
      → is_run e ≡ false
      → is_skip e ≡ false
      → is_step e ≡ false
      → is_passed e ≡ false
      → is_failed e ≡ false
      → Added (e ∷ []) td td
  unfolding occurs tally_if
  untouched e td r k n p f = record {
    name = refl;
    step_count = refl;
    assertion_count = refl;
    ran = ground (arith, r);
    skipped = ground (arith, k);
    executed_steps = ground (arith, n);
    passed_asserts = ground (arith, p);
    failed_asserts = ground (arith, f);
  }

  -- What one call does to the data of a registered test.
  observe-One :
      (e : Event) (known : Bool) (td : TestData)
      → (known' : Bool) × (td' : TestData) × (observe suite test e (known, some td)
          ≡ (known', some td'))
        × Added (e ∷ []) td td'
  unfolding observe occurs tally_if
  observe-One (suite_registered name n) known td = (
    str_eq name suite || known,
    td,
    refl,
    untouched (suite_registered name n) td refl refl refl refl refl,
  )
  observe-One (test_registered s t k a) known td =
      let nothing = untouched (test_registered s t k a) td refl refl refl refl refl in
      elim (Bool-cases (names s t)) [
        | inl y ↦ (known, td, rw y refl, nothing)
        | inr n ↦ (known, td, rw n refl, nothing)
      ]
  observe-One (test_ran s t) known td = elim (Bool-cases (names s t)) [
    | inl y ↦ (
      known,
      set_ran td,
      rw y refl,
      record {
        name = ground (arith, y);
        step_count = ground (arith, y);
        assertion_count = ground (arith, y);
        ran = ground (arith, y);
        skipped = ground (arith, y);
        executed_steps = ground (arith, y);
        passed_asserts = ground (arith, y);
        failed_asserts = ground (arith, y);
      },
    )
    | inr n ↦ (known, td, rw n refl, untouched (test_ran s t) td n refl refl refl refl)
  ]
  observe-One (test_skipped s t) known td = elim (Bool-cases (names s t)) [
    | inl y ↦ (
      known,
      set_skipped td,
      rw y refl,
      record {
        name = ground (arith, y);
        step_count = ground (arith, y);
        assertion_count = ground (arith, y);
        ran = ground (arith, y);
        skipped = ground (arith, y);
        executed_steps = ground (arith, y);
        passed_asserts = ground (arith, y);
        failed_asserts = ground (arith, y);
      },
    )
    | inr n ↦ (known, td, rw n refl, untouched (test_skipped s t) td refl n refl refl refl)
  ]
  observe-One (step_done s t) known td = elim (Bool-cases (names s t)) [
    | inl y ↦ (
      known,
      count_step td,
      rw y refl,
      record {
        name = ground (arith, y);
        step_count = ground (arith, y);
        assertion_count = ground (arith, y);
        ran = ground (arith, y);
        skipped = ground (arith, y);
        executed_steps = ground (arith, y);
        passed_asserts = ground (arith, y);
        failed_asserts = ground (arith, y);
      },
    )
    | inr n ↦ (known, td, rw n refl, untouched (step_done s t) td refl refl n refl refl)
  ]
  observe-One (assertion_done s t true) known td = elim (Bool-cases (names s t)) [
    | inl y ↦ (
      known,
      count_assertion true td,
      rw y refl,
      record {
        name = ground (arith, y);
        step_count = ground (arith, y);
        assertion_count = ground (arith, y);
        ran = ground (arith, y);
        skipped = ground (arith, y);
        executed_steps = ground (arith, y);
        passed_asserts = ground (arith, y);
        failed_asserts = ground (arith, y);
      },
    )
    | inr n ↦ (known, td, rw n refl, untouched (assertion_done s t true) td refl refl refl n refl)
  ]
  observe-One (assertion_done s t false) known td = elim (Bool-cases (names s t)) [
    | inl y ↦ (
      known,
      count_assertion false td,
      rw y refl,
      record {
        name = ground (arith, y);
        step_count = ground (arith, y);
        assertion_count = ground (arith, y);
        ran = ground (arith, y);
        skipped = ground (arith, y);
        executed_steps = ground (arith, y);
        passed_asserts = ground (arith, y);
        failed_asserts = ground (arith, y);
      },
    )
    | inr n ↦ (known, td, rw n refl, untouched (assertion_done s t false) td refl refl refl refl n)
  ]

  One-Added :
      (e : Event) (es : List Event) (td td1 td' : TestData)
      → Added (e ∷ []) td td1
      → Added es td1 td'
      → Added (e ∷ es) td td'
  unfolding occurs tally_if
  One-Added e es td td1 td' one rest = record {
    name = rest.name ∙ one.name;
    step_count = rest.step_count ∙ one.step_count;
    assertion_count = rest.assertion_count ∙ one.assertion_count;
    ran = ground (arith, rest.ran, one.ran);
    skipped = ground (arith, rest.skipped, one.skipped);
    executed_steps = omega (arith, rest.executed_steps, one.executed_steps);
    passed_asserts = omega (arith, rest.passed_asserts, one.passed_asserts);
    failed_asserts = omega (arith, rest.failed_asserts, one.failed_asserts);
  }

  pub observe_all-Found :
      (events : List Event) (known : Bool) (td : TestData)
      → Found events td (observe_all suite test events (known, some td)).1
  unfolding observe_all occurs tally_if
  observe_all-Found [] known td = (
    td,
    refl,
    record {
      name = ground arith;
      step_count = ground arith;
      assertion_count = ground arith;
      ran = ground arith;
      skipped = ground arith;
      executed_steps = ground arith;
      passed_asserts = ground arith;
      failed_asserts = ground arith;
    },
  )
  observe_all-Found (e ∷ es) known td =
      let (known1, td1, same, one) = observe-One e known td in
      let (td', found, rest) = observe_all-Found es known1 td1 in
      (
        td',
        ap (λ v. (observe_all suite test es v).1) same ∙ found,
        One-Added e es td td1 td' one rest,
      )
