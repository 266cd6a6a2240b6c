-- ===== src/Coverage/Wellformed.antt =====
-- The invariant of the tracker: its lists and its maps name the same suites and the same tests.
use scrutineer.Prelude.{
  ℕ, ◌≡◌, refl, ◌⊎◌, inl, inr, some, List, [], ◌∷◌, ◌++◌, GoMap, lookup, insert, lookup-insert,
  lookup-insert_self, Str, str_eq, str_eq_iff, Bool-cases, Option-cases, All,
}
use mathlib.Core.Path.{subst}
use scrutineer.Coverage.{
  TestData, SuiteData, Tracker, new_tracker, new_suite, new_test, register_suite, add_test,
  register_test, update_test, record_test_run, record_test_skip, record_step, record_assertion,
  set_ran, set_skipped, count_step, count_assertion,
}
use scrutineer.Coverage.Frame.{
  Event, suite_registered, test_registered, test_ran, test_skipped, step_done, assertion_done,
  apply, apply_all,
}

-- The name is a key of the map.
abbrev pub Has : {V : Type 0} → GoMap V → Str → Type 0
Has {V} m k = (v : V) × (lookup k m ≡ some v)

Has-insert : {V : Type 0} (m : GoMap V) (j k : Str) (v : V) → Has m k → Has (insert j v m) k
Has-insert m j k v (w, e) = elim (Bool-cases (str_eq j k)) [
  | inl t ↦ (v, rw (lookup-insert, t))
  | inr f ↦ (w, rw (lookup-insert, f) e)
]

All-Has-insert :
    {V : Type 0} (m : GoMap V) (j : Str) (v : V) (ks : List Str)
    → All (Has m) ks
    → All (Has (insert j v m)) ks
All-Has-insert m j v [] h = tt
All-Has-insert m j v (k ∷ ks) (h, hs) = (Has-insert m j k v h, All-Has-insert m j v ks hs)

All-append_one :
    (P : Str → Type 0) (ks : List Str) (k : Str) → All P ks → P k → All P (ks ++ k ∷ [])
All-append_one P [] k h p = (p, tt)
All-append_one P (j ∷ ks) k (h, hs) p = (h, All-append_one P ks k hs p)

-- The element is one of the list.
abbrev pub In : {A : Type 0} → A → List A → Type 0
In x [] = ⊥
In x (y ∷ ys) = (x ≡ y) ⊎ In x ys

In-append : {A : Type 0} (x : A) (xs ys : List A) → In x xs → In x (xs ++ ys)
In-append x [] ys h = elim h [ ]
In-append x (y ∷ xs) ys (inl e) = inl e
In-append x (y ∷ xs) ys (inr h) = inr (In-append x xs ys h)

In-last : {A : Type 0} (x : A) (xs : List A) → In x (xs ++ x ∷ [])
In-last x [] = inl refl
In-last x (y ∷ xs) = inr (In-last x xs)

-- Each key of the map is listed.
abbrev pub Complete : {V : Type 0} → GoMap V → List Str → Type 0
Complete {V} m ks = (k : Str) (v : V) → lookup k m ≡ some v → In k ks

Complete-add :
    {V : Type 0} (m : GoMap V) (ks : List Str) (j : Str) (v : V)
    → Complete m ks
    → Complete (insert j v m) (ks ++ j ∷ [])
Complete-add m ks j v h k w e = elim (Bool-cases (str_eq j k)) [
  | inl same ↦ subst (λ i. In i (ks ++ j ∷ [])) ((str_eq_iff j k).0 same) (In-last j ks)
  | inr other ↦ In-append k ks (j ∷ []) (h k w (rw (lookup-insert, other) at e))
]

Complete-write :
    {V : Type 0} (m : GoMap V) (ks : List Str) (j : Str) (v v0 : V)
    → lookup j m ≡ some v0
    → Complete m ks
    → Complete (insert j v m) ks
Complete-write m ks j v v0 known h k w e = elim (Bool-cases (str_eq j k)) [
  | inl same ↦ subst (λ i. In i ks) ((str_eq_iff j k).0 same) (h j v0 known)
  | inr other ↦ h k w (rw (lookup-insert, other) at e)
]

pub record SuiteInv (name : Str) (s : SuiteData) : Type 0 where
  pub named : s.name ≡ name
  pub listed : All (Has s.tests) s.order
  pub complete : Complete s.tests s.order

-- Each name that is listed is a key, and the other way round, of the tracker and of each suite.
pub record Inv (t : Tracker) : Type 0 where
  pub listed : All (Has t.suites) t.order
  pub complete : Complete t.suites t.order
  pub suites : (name : Str) (s : SuiteData) → lookup name t.suites ≡ some s → SuiteInv name s

pub new_tracker-Inv : Inv new_tracker
unfolding lookup
new_tracker-Inv = record { listed = tt; complete = λ k v e. cc; suites = λ name s e. cc }

-- A suite put under its name keeps the invariant.
put_suite :
    (suite : Str) (s : SuiteData) (t : Tracker)
    → SuiteInv suite s
    → Inv t
    → (name : Str) (s' : SuiteData) → lookup name (insert suite s t.suites) ≡ some s'
    → SuiteInv name s'
put_suite suite s t si v name s' e = elim (Bool-cases (str_eq suite name)) [
  | inl same ↦
      let found : some s ≡ some s' = rw (lookup-insert, same) at e in
      let at_name : suite ≡ name = (str_eq_iff suite name).0 same in
      let same_suite : s ≡ s' = cc in
      subst (λ x. SuiteInv name x) same_suite (subst (λ n. SuiteInv n s) at_name si)
  | inr other ↦ v.suites name s' (rw (lookup-insert, other) at e)
]

pub register_suite-Inv : (name : Str) (n : ℕ) (t : Tracker) → Inv t → Inv (register_suite name n t)
unfolding register_suite
register_suite-Inv name n t v = elim (Option-cases (lookup name t.suites)) [
  | inr (s, e) ↦ rw (e, register_suite) v
  | inl e ↦
      let fresh : SuiteInv name (new_suite name n) = record {
        named = refl;
        listed = tt;
        complete = λ k v e. unfold lookup in cc;
      } in
      rw (e, register_suite)
        (record {
          listed =
              All-append_one _ t.order name
                (All-Has-insert t.suites name (new_suite name n) t.order v.listed)
                (new_suite name n, lookup-insert_self name (new_suite name n) t.suites);
          complete = Complete-add t.suites t.order name (new_suite name n) v.complete;
          suites = put_suite name (new_suite name n) t fresh v;
        })
]

add_test-SuiteInv :
    (name test : Str) (k a : ℕ) (s : SuiteData)
    → SuiteInv name s
    → SuiteInv name (add_test test k a s)
unfolding add_test
add_test-SuiteInv name test k a s v = elim (Option-cases (lookup test s.tests)) [
  | inr (td, e) ↦ rw (e, add_test) v
  | inl e ↦
      rw (e, add_test)
        (record {
          named = v.named;
          listed =
              All-append_one _ s.order test
                (All-Has-insert s.tests test (new_test test k a) s.order v.listed)
                (new_test test k a, lookup-insert_self test (new_test test k a) s.tests);
          complete = Complete-add s.tests s.order test (new_test test k a) v.complete;
        })
]

-- A suite written back to its entry.
write_suite-Inv :
    (suite : Str) (s s0 : SuiteData) (t : Tracker)
    → lookup suite t.suites ≡ some s0
    → SuiteInv suite s
    → Inv t
    → Inv (record t { suites = insert suite s t.suites })
write_suite-Inv suite s s0 t known si v = record {
  complete = Complete-write t.suites t.order suite s s0 known v.complete;
  listed = All-Has-insert t.suites suite s t.order v.listed;
  suites = put_suite suite s t si v;
}

pub register_test-Inv :
    (suite test : Str) (k a : ℕ) (t : Tracker) → Inv t → Inv (register_test suite test k a t)
unfolding register_test
register_test-Inv suite test k a t v = elim (Option-cases (lookup suite t.suites)) [
  | inl e ↦ rw (e, register_test) v
  | inr (s, e) ↦
      rw (e, register_test)
        (write_suite-Inv suite (add_test test k a s) s t e
          (add_test-SuiteInv suite test k a s (v.suites suite s e)) v)
]

pub update_test-Inv :
    (f : TestData → TestData) (suite test : Str) (t : Tracker)
    → Inv t
    → Inv (update_test f suite test t)
unfolding update_test
update_test-Inv f suite test t v = elim (Option-cases (lookup suite t.suites)) [
  | inl e ↦ rw (e, update_test) v
  | inr (s, e) ↦ elim (Option-cases (lookup test s.tests)) [
    | inl d ↦ rw (e, update_test) (rw (d, update_test) v)
    | inr (td, d) ↦
        let si = v.suites suite s e in
        rw (e, update_test)
          (rw (d, update_test)
            (write_suite-Inv suite (record s { tests = insert test (f td) s.tests }) s t e
              (record {
                named = si.named;
                listed = All-Has-insert s.tests test (f td) s.order si.listed;
                complete = Complete-write s.tests s.order test (f td) td d si.complete;
              })
              v))
  ]
]

apply-Inv : (e : Event) (t : Tracker) → Inv t → Inv (apply e t)
unfolding apply record_test_run record_test_skip record_step record_assertion
apply-Inv (suite_registered name n) t v = register_suite-Inv name n t v
apply-Inv (test_registered s' t' k a) t v = register_test-Inv s' t' k a t v
apply-Inv (test_ran s' t') t v = update_test-Inv set_ran s' t' t v
apply-Inv (test_skipped s' t') t v = update_test-Inv set_skipped s' t' t v
apply-Inv (step_done s' t') t v = update_test-Inv count_step s' t' t v
apply-Inv (assertion_done s' t' p) t v = update_test-Inv (count_assertion p) s' t' t v

pub apply_all-Inv : (es : List Event) (t : Tracker) → Inv t → Inv (apply_all es t)
unfolding apply_all
apply_all-Inv [] t v = v
apply_all-Inv (e ∷ es) t v = apply_all-Inv es (apply e t) (apply-Inv e t v)
