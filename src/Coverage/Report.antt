-- ===== src/Coverage/Report.antt =====
-- Results never meets a nil pointer, and reports each suite and each test.
use scrutineer.Prelude.{
  suc, ◌≡◌, refl, sym, ap, inl, inr, Bool, some, List, [], ◌∷◌, arith, GoMap, lookup, Str,
  if◌then◌else◌, Option-cases, length, All,
}
use mathlib.Core.Path.{subst}
use scrutineer.Coverage.{
  TestData, SuiteData, Tracker, new_tracker, find_test, SuiteCoverage, report_tests, count_if,
  report_suite, report_suites, results,
}
use scrutineer.Coverage.Frame.{Event, apply_all, knows}
use scrutineer.Coverage.Wellformed.{Has, In, Inv, SuiteInv, new_tracker-Inv, apply_all-Inv}
use scrutineer.Coverage.Order.{listed, registered_names, order-apply_all}

report_tests_total :
    (tests : GoMap TestData) (names : List Str)
    → All (Has tests) names
    → (tds : List TestData) × (report_tests tests names ≡ some tds) × (length tds ≡ length names)
unfolding report_tests
report_tests_total tests [] h = ([], refl, refl)
report_tests_total tests (name ∷ names) ((td, e), hs) =
    let (tds, same, size) = report_tests_total tests names hs in
    (td ∷ tds, rw (e, report_tests) (rw same), ap suc size)

-- The tests that a Boolean picks.
unfoldable pub picked : (TestData → Bool) → List TestData → List TestData
picked p [] = []
picked p (td ∷ tds) = if p td then td ∷ picked p tds else picked p tds

count_if-length :
    (p : TestData → Bool) (tds : List TestData) → count_if p tds ≡ length (picked p tds)
unfolding count_if picked
count_if-length p [] = refl
count_if-length p (td ∷ tds) = ground (arith, count_if-length p tds)

-- A test that has data is among those of its suite's line.
report_tests_lists :
    (tests : GoMap TestData) (names : List Str) (tds : List TestData) (x : Str) (td : TestData)
    → report_tests tests names ≡ some tds
    → In x names
    → lookup x tests ≡ some td
    → In td tds
unfolding report_tests
report_tests_lists tests [] tds x td e h found = elim h [ ]
report_tests_lists tests (name ∷ names) tds x td e h found =
    elim (Option-cases (lookup name tests)) [
      | inl d ↦ absurd (ground (arith, d, e))
      | inr (td0, d) ↦ elim (Option-cases (report_tests tests names)) [
        | inl r ↦ absurd (ground (arith, d, r, e))
        | inr (rest, r) ↦
            let opened : some (td0 ∷ rest) ≡ some tds = simp (d, r, report_tests) at e in
            let parts : td0 ∷ rest ≡ tds = cc in
            subst (λ l. In td l) parts
              (elim h [
                | inl same ↦ inl (
                    let there : lookup name tests ≡ some td =
                      subst (λ k. lookup k tests ≡ some td) same found in
                    cc)
                | inr later ↦ inr (report_tests_lists tests names rest x td r later found)
              ])
      ]
    ]

-- A line of the report: the suite's name, every test of the suite that has data, with that data, and
-- how many of the line's tests have run and were skipped.
pub record Line (t : Tracker) (name : Str) (c : SuiteCoverage) : Type 0 where
  pub of_suite : c.suite ≡ name
  pub lists : (x : Str) (td : TestData) → find_test name x t ≡ some td → In td c.tests
  pub ran : c.ran_tests ≡ length (picked (λ td. td.ran) c.tests)
  pub skipped : c.skipped_tests ≡ length (picked (λ td. td.skipped) c.tests)

report_suite_total :
    (t : Tracker) (name : Str) (s : SuiteData)
    → lookup name t.suites ≡ some s
    → SuiteInv name s
    → (c : SuiteCoverage) × (report_suite s ≡ some c) × Line t name c
unfolding report_suite find_test
report_suite_total t name s known v =
    let (tds, same, size) = report_tests_total s.tests s.order v.listed in
    (
      record {
        suite = s.name;
        tests = tds;
        total_tests = s.test_count;
        ran_tests = count_if (λ td. td.ran) tds;
        skipped_tests = count_if (λ td. td.skipped) tds;
      },
      rw same,
      record {
        of_suite = v.named;
        lists = λ x td found.
            let found' : lookup x s.tests ≡ some td = simp (known, find_test) at found in
            report_tests_lists s.tests s.order tds x td same (v.complete x td found') found';
        ran = count_if-length (λ td. td.ran) tds;
        skipped = count_if-length (λ td. td.skipped) tds;
      },
    )

pub data Lines (t : Tracker) : List Str → List SuiteCoverage → Type 0 where
  none_left : Lines t [] []
  line :
      {name : Str} {names : List Str} {c : SuiteCoverage} {cs : List SuiteCoverage}
      → Line t name c
      → Lines t names cs
      → Lines t (name ∷ names) (c ∷ cs)

report_suites_total :
    (t : Tracker) (names : List Str)
    → ((name : Str) (s : SuiteData) → lookup name t.suites ≡ some s → SuiteInv name s)
    → All (Has t.suites) names
    → (cs : List SuiteCoverage) × (report_suites t.suites names ≡ some cs) × Lines t names cs
unfolding report_suites
report_suites_total t [] h hs = ([], refl, none_left)
report_suites_total t (name ∷ names) h ((s, e), hs) =
    let (c, one, l) = report_suite_total t name s e (h name s e) in
    let (cs, rest, ls) = report_suites_total t names h hs in
    (c ∷ cs, rw (e, report_suites) (rw (one, report_suites) (rw rest)), line l ls)

pub results-Inv :
    (t : Tracker) → Inv t → (cs : List SuiteCoverage) × (results t ≡ some cs) × Lines t t.order cs
unfolding results
results-Inv t v = report_suites_total t t.order v.suites v.listed

Lines-In :
    (t : Tracker) (name : Str) (names : List Str) (cs : List SuiteCoverage)
    → Lines t names cs
    → In name names
    → (c : SuiteCoverage) × In c cs × Line t name c
Lines-In t name [] cs ls h = elim h [ ]
Lines-In t name (n ∷ names) [] ls h = elim ls [ ]
Lines-In t name (n ∷ names) (c ∷ cs) (line l ls) (inl e) =
    (c, inl refl, subst (λ k. Line t k c) (sym e) l)
Lines-In t name (n ∷ names) (c ∷ cs) (line l ls) (inr h) =
    let (c', member, l') = Lines-In t name names cs ls h in (c', inr member, l')

-- Results gives a line for the suite that has the test's data among its tests.
abbrev pub Reported : Str → TestData → Tracker → Type 0
Reported suite td t =
    (cs : List SuiteCoverage) × (results t ≡ some cs)
    × (c : SuiteCoverage) × In c cs
    × (c.suite ≡ suite)
    × In td c.tests

-- What the tracker finds, it reports.
pub find_test-Reported :
    (suite test : Str) (td : TestData) (t : Tracker)
    → Inv t
    → find_test suite test t ≡ some td
    → Reported suite td t
unfolding find_test
find_test-Reported suite test td t v found = elim (Option-cases (lookup suite t.suites)) [
  | inl e ↦ absurd (ground (arith, e, found))
  | inr (s, e) ↦
      let (cs, same, lines) = results-Inv t v in
      let (c, member, l) = Lines-In t suite t.order cs lines (v.complete suite s e) in
      (cs, same, c, member, l.of_suite, l.lists test td found)
]

-- After any calls on a new tracker Results meets no nil pointer: it gives one line for each suite
-- that was registered, in the order of their first registrations, under the suite's name, with the
-- data of each test of the suite that the tracker finds, and it counts as run and as skipped the
-- tests of the line that are.
pub results_total :
    (events : List Event)
    → (cs : List SuiteCoverage) × (results (apply_all events new_tracker) ≡ some cs)
      × Lines (apply_all events new_tracker) (registered_names events []) cs
results_total events =
    let t = apply_all events new_tracker in
    let (cs, same, lines) = results-Inv t (apply_all-Inv events new_tracker new_tracker-Inv) in
    (
      cs,
      same,
      subst (λ names. Lines t names cs)
          (order-apply_all events new_tracker [] (λ x. unfold listed knows lookup in refl)) lines,
    )
