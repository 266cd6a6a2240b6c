-- ===== src/Coverage/Order.antt =====
-- The order in which the tracker lists the suites, told from the calls alone.
use scrutineer.Prelude.{
  ℕ, ◌≡◌, refl, sym, ap, ◌∙◌, inl, inr, Bool, true, false, ◌||◌, List, [], ◌∷◌, ◌++◌, append_assoc,
  append-nil, arith, lookup, Str, str_eq, if◌then◌else◌, Bool-cases, Option-cases,
}
use scrutineer.Coverage.{
  TestData, Tracker, register_suite, register_test, update_test, set_ran, set_skipped, count_step,
  count_assertion, record_test_run, record_test_skip, record_step, record_assertion,
}
use scrutineer.Coverage.Frame.{
  Event, suite_registered, test_registered, test_ran, test_skipped, step_done, assertion_done,
  apply, apply_all, knows, observe, view-apply,
}

-- Whether a name is in a list.
unfoldable pub listed : Str → List Str → Bool
listed x [] = false
listed x (y ∷ ys) = str_eq y x || listed x ys

-- The names of the registered suites, each at its first registration, less those seen before.
unfoldable pub registered_names : List Event → List Str → List Str
registered_names [] seen = []
registered_names (suite_registered name n ∷ es) seen =
    let later = registered_names es seen in
    let first = registered_names es (name ∷ seen) in
    if listed name seen then later else name ∷ first
registered_names (e ∷ es) seen = registered_names es seen

register_suite-known :
    (name : Str) (n : ℕ) (t : Tracker) → knows name t ≡ true → register_suite name n t ≡ t
unfolding knows register_suite
register_suite-known name n t h = elim (Option-cases (lookup name t.suites)) [
  | inl e ↦ absurd (ground (arith, e, h))
  | inr (s, e) ↦ rw (e, register_suite) refl
]

order-register_suite :
    (name : Str) (n : ℕ) (t : Tracker)
    → knows name t ≡ false
    → (register_suite name n t).order ≡ t.order ++ name ∷ []
unfolding knows register_suite
order-register_suite name n t h = elim (Option-cases (lookup name t.suites)) [
  | inl e ↦ rw (e, register_suite) refl
  | inr (s, e) ↦ absurd (ground (arith, e, h))
]

order-register_test :
    (suite test : Str) (k a : ℕ) (t : Tracker) → (register_test suite test k a t).order ≡ t.order
unfolding register_test
order-register_test suite test k a t = elim (Option-cases (lookup suite t.suites)) [
  | inl e ↦ rw (e, register_test) refl
  | inr (s, e) ↦ rw (e, register_test) refl
]

order-update_test :
    (f : TestData → TestData) (suite test : Str) (t : Tracker)
    → (update_test f suite test t).order ≡ t.order
unfolding update_test
order-update_test f suite test t = elim (Option-cases (lookup suite t.suites)) [
  | inl e ↦ rw (e, update_test) refl
  | inr (s, e) ↦ elim (Option-cases (lookup test s.tests)) [
    | inl d ↦ rw (e, update_test) (rw (d, update_test) refl)
    | inr (td, d) ↦ rw (e, update_test) (rw (d, update_test) refl)
  ]
]

-- The names seen are those of the suites that the tracker knows.
abbrev Tracks : List Str → Tracker → Type 0
Tracks seen t = (x : Str) → listed x seen ≡ knows x t

pub order-apply_all :
    (es : List Event) (t : Tracker) (seen : List Str)
    → Tracks seen t
    → (apply_all es t).order ≡ t.order ++ registered_names es seen
unfolding apply_all registered_names apply record_test_run record_test_skip record_step
    record_assertion listed observe
order-apply_all [] t seen h = sym (append-nil t.order)
order-apply_all (suite_registered name n ∷ es) t seen h = elim (Bool-cases (listed name seen)) [
  | inl old ↦
      let names : registered_names (suite_registered name n ∷ es) seen ≡ registered_names es seen =
        rw old refl in
      ap (λ u. (apply_all es u).order) (register_suite-known name n t (sym (h name) ∙ old))
      ∙ order-apply_all es t seen h
      ∙ ap (λ ns. t.order ++ ns) (sym names)
  | inr new ↦
      let later = registered_names es (name ∷ seen) in
      let names : registered_names (suite_registered name n ∷ es) seen ≡ name ∷ later =
        rw new refl in
      order-apply_all es (register_suite name n t) (name ∷ seen) (λ x.
        ap (λ b. str_eq name x || b) (h x)
        ∙ sym (ap (λ v. v.0) (view-apply x [] (suite_registered name n) t)))
      ∙ ap (λ o. o ++ later) (order-register_suite name n t (sym (h name) ∙ new))
      ∙ append_assoc t.order (name ∷ []) later
      ∙ ap (λ ns. t.order ++ ns) (sym names)
]
order-apply_all (test_registered s x k a ∷ es) t seen h =
    order-apply_all es (register_test s x k a t) seen
      (λ y. h y ∙ sym (ap (λ v. v.0) (view-apply y [] (test_registered s x k a) t)))
    ∙ ap (λ o. o ++ registered_names es seen) (order-register_test s x k a t)
order-apply_all (test_ran s x ∷ es) t seen h =
    order-apply_all es (update_test set_ran s x t) seen
      (λ y. h y ∙ sym (ap (λ v. v.0) (view-apply y [] (test_ran s x) t)))
    ∙ ap (λ o. o ++ registered_names es seen) (order-update_test set_ran s x t)
order-apply_all (test_skipped s x ∷ es) t seen h =
    order-apply_all es (update_test set_skipped s x t) seen
      (λ y. h y ∙ sym (ap (λ v. v.0) (view-apply y [] (test_skipped s x) t)))
    ∙ ap (λ o. o ++ registered_names es seen) (order-update_test set_skipped s x t)
order-apply_all (step_done s x ∷ es) t seen h =
    order-apply_all es (update_test count_step s x t) seen
      (λ y. h y ∙ sym (ap (λ v. v.0) (view-apply y [] (step_done s x) t)))
    ∙ ap (λ o. o ++ registered_names es seen) (order-update_test count_step s x t)
order-apply_all (assertion_done s x p ∷ es) t seen h =
    order-apply_all es (update_test (count_assertion p) s x t) seen
      (λ y. h y ∙ sym (ap (λ v. v.0) (view-apply y [] (assertion_done s x p) t)))
    ∙ ap (λ o. o ++ registered_names es seen) (order-update_test (count_assertion p) s x t)
