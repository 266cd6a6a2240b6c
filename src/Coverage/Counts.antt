-- ===== src/Coverage/Counts.antt =====
-- What the calls on the tracker add up to for one test, counted from the calls alone.
use scrutineer.Coverage.{TestData, Tracker, new_test, find_test}
use scrutineer.Coverage.Frame.{
  Event, suite_registered, test_registered, test_ran, test_skipped, step_done, assertion_done,
  apply_all, knows, observe, observe_all, view-apply_all,
}
use scrutineer.Prelude.{
  ℕ, ◌≡◌, refl, ap, ◌∙◌, inl, inr, Bool, true, false, ◌&&◌, ◌||◌, Option, none, some, List, [], ◌∷◌,
  arith, Str, str_eq, str_eq_iff, if◌then◌else◌, Bool-cases,
}
use scrutineer.Coverage.Tally.{names, Found, observe_all-Found}

module _ (suite test : Str) where
  -- The first registration of the test in a suite that is known by then: its numbers of steps and of
  -- assertions, and the calls behind it.
  unfoldable pub registration : Bool → List Event → Option (ℕ × ℕ × List Event)
  registration known [] = none
  registration known (suite_registered name n ∷ es) = registration (str_eq name suite || known) es
  registration known (test_registered s t steps asserts ∷ es) =
      let later = registration known es in
      if known && names suite test s t then some (steps, asserts, es) else later
  registration known (e ∷ es) = registration known es

  abbrev pub Registered : Option (ℕ × ℕ × List Event) → Option TestData → Type 0
  Registered none d' = d' ≡ none
  Registered (some (steps, asserts, rest)) d' =
      Found suite test rest
        (record {
          name = test;
          step_count = steps;
          assertion_count = asserts;
          ran = false;
          skipped = false;
          executed_steps = 0;
          passed_asserts = 0;
          failed_asserts = 0;
        })
        d'

  -- The data of the test behind the calls, from its data before them.
  abbrev pub Ledger : Bool → List Event → Option TestData → Option TestData → Type 0
  Ledger known events (some td) d' = Found suite test events td d'
  Ledger known events none d' = Registered (registration known events) d'

  observe_all-Registered :
      (events : List Event) (known : Bool)
      → Registered (registration known events) (observe_all suite test events (known, none)).1
  unfolding observe_all observe registration
  observe_all-Registered [] known = refl
  observe_all-Registered (suite_registered name n ∷ es) known = observe_all-Registered es _
  observe_all-Registered (test_registered s t k a ∷ es) true =
      elim (Bool-cases (names suite test s t)) [
        | inl y ↦
            let same : t ≡ test = ground (arith, y, str_eq_iff t test) in
            let seen : observe suite test (test_registered s t k a) (true, none)
                ≡ (true, some (new_test test k a)) =
              rw y (ap (λ n. (true, some (new_test n k a))) same) in
            let (td', found, rest) = observe_all-Found suite test es true (new_test test k a) in
            rw y (td', ap (λ v. (observe_all suite test es v).1) seen ∙ found, rest)
        | inr n ↦ simp (n, observe_all, registration) (observe_all-Registered es true)
      ]
  observe_all-Registered (test_registered s t k a ∷ es) false =
      elim (Bool-cases (names suite test s t)) [
        | inl y ↦ simp (y, observe_all) (observe_all-Registered es false)
        | inr n ↦ simp (n, observe_all) (observe_all-Registered es false)
      ]
  observe_all-Registered (test_ran s t ∷ es) known = elim (Bool-cases (names suite test s t)) [
    | inl y ↦ simp (y, observe_all) (observe_all-Registered es known)
    | inr n ↦ simp (n, observe_all) (observe_all-Registered es known)
  ]
  observe_all-Registered (test_skipped s t ∷ es) known = elim (Bool-cases (names suite test s t)) [
    | inl y ↦ simp (y, observe_all) (observe_all-Registered es known)
    | inr n ↦ simp (n, observe_all) (observe_all-Registered es known)
  ]
  observe_all-Registered (step_done s t ∷ es) known = elim (Bool-cases (names suite test s t)) [
    | inl y ↦ simp (y, observe_all) (observe_all-Registered es known)
    | inr n ↦ simp (n, observe_all) (observe_all-Registered es known)
  ]
  observe_all-Registered (assertion_done s t b ∷ es) known =
      elim (Bool-cases (names suite test s t)) [
        | inl y ↦ simp (y, observe_all) (observe_all-Registered es known)
        | inr n ↦ simp (n, observe_all) (observe_all-Registered es known)
      ]

-- After any calls on any tracker, the data of each test is what those calls add up to for it: to a
-- registered test they add as many executed steps, passed assertions and failed assertions as there
-- are such calls on it, and it has run or was skipped if it had, was, or there is such a call; a test
-- that is not registered gets the numbers of its first registration in a known suite and what the
-- calls behind that one add up to, and without one it stays unregistered.
pub find_test-apply_all :
    (suite test : Str) (events : List Event) (t : Tracker)
    → Ledger suite test
        (knows suite t)
        events
        (find_test suite test t)
        (find_test suite test (apply_all events t))
find_test-apply_all suite test events t =
    rw (ap (λ v. v.1) (view-apply_all suite test events t)) (counted (find_test suite test t))
  where
    counted :
        (d : Option TestData)
        → Ledger suite test
            (knows suite t)
            events
            d
            (observe_all suite test events (knows suite t, d)).1
    counted (some td) = observe_all-Found suite test events (knows suite t) td
    counted none = observe_all-Registered suite test events (knows suite t)
