-- ===== src/Retry/Course.antt =====
-- How the calls of Do can go.
use scrutineer.Prelude.{
  ℕ, zero, suc, ◌+◌, ◌≤◌, ◌<◌, ◌≡◌, refl, ap, inl, inr, Option, none, some, List, [], ◌∷◌, ◌++◌,
  arith, Option-cases, length, All,
}
use scrutineer.Retry.{Calls, Policy, backoff, attempts, run}

module _ {E : Type 0} where
  -- `Course n outcomes result`: with `n` attempts allowed, the calls had these outcomes and Do returned
  -- this result. It stops at the first success, which it reports; at the last attempt, whose error it
  -- reports; or at the context, whose error it reports.
  pub data Course : ℕ → List (Option E) → Option E → Type 0 where
    succeeded : {n : ℕ} → Course (suc n) (none ∷ []) none
    gave_up : (e : E) → Course 1 (some e ∷ []) (some e)
    stopped : {n : ℕ} (e : E) → Course (suc n) [] (some e)
    stopped_waiting : {n : ℕ} (e c : E) → Course (suc (suc n)) (some e ∷ []) (some c)
    again :
        {n : ℕ} {outcomes : List (Option E)} {result : Option E} (e : E)
        → Course (suc n) outcomes result
        → Course (suc (suc n)) (some e ∷ outcomes) result

  abbrev pub Failed : Option E → Type 0
  Failed o = (e : E) × (o ≡ some e)

  -- All calls but the last failed, and the last one succeeded.
  pub record EndsInSuccess (outcomes : List (Option E)) : Type 0 where
    pub failures : List (Option E)
    pub parts : outcomes ≡ failures ++ none ∷ []
    pub all_failed : All Failed failures

  Course-bounded :
      {n : ℕ} {outcomes : List (Option E)} {result : Option E}
      → Course n outcomes result
      → length outcomes ≤ n
  Course-bounded succeeded = omega arith
  Course-bounded (gave_up e) = omega arith
  Course-bounded (stopped e) = omega arith
  Course-bounded (stopped_waiting e c) = omega arith
  Course-bounded (again e c) = omega (arith, Course-bounded c)

  Course-success :
      {n : ℕ} {outcomes : List (Option E)} {result : Option E}
      → Course n outcomes result
      → result ≡ none
      → EndsInSuccess outcomes
  Course-success succeeded h = record { failures = []; parts = refl; all_failed = tt }
  Course-success (gave_up e) h = cc
  Course-success (stopped e) h = cc
  Course-success (stopped_waiting e c) h = cc
  Course-success (again e c) h =
      let rest = Course-success c h in
      record {
        failures = some e ∷ rest.failures;
        parts = ap (◌∷◌ (some e)) rest.parts;
        all_failed = ((e, refl), rest.all_failed);
      }

module _ {W E : Type 0} (calls : Calls W E) where
  attempts-Course :
      (policy : Policy) (attempt left : ℕ) (last_err : Option E) (w : W)
      → Course
          (suc left)
          (attempts calls policy attempt (suc left) last_err w).outcomes
          (attempts calls policy attempt (suc left) last_err w).result
  unfolding attempts
  attempts-Course policy attempt zero last_err w =
      let w1 = (calls.ctx_err w).1 in
      elim (Option-cases (calls.ctx_err w).0) [
        | inr (e, h) ↦ rw (h, attempts) (stopped e)
        | inl h ↦ elim (Option-cases (calls.fn w1).0) [
          | inl k ↦ rw (h, attempts) (rw (k, attempts) succeeded)
          | inr (e, k) ↦ rw (h, attempts) (rw (k, attempts) (gave_up e))
        ]
      ]
  attempts-Course policy attempt (suc left) last_err w =
      let w1 = (calls.ctx_err w).1 in
      let w2 = (calls.fn w1).1 in
      elim (Option-cases (calls.ctx_err w).0) [
        | inr (e, h) ↦ rw (h, attempts) (stopped e)
        | inl h ↦ elim (Option-cases (calls.fn w1).0) [
          | inl k ↦ rw (h, attempts) (rw (k, attempts) succeeded)
          | inr (e, k) ↦ elim (Option-cases (calls.pause (backoff policy attempt) w2).0) [
            | inr (c, p) ↦
                rw (h, attempts) (rw (k, attempts) (rw (p, attempts) (stopped_waiting e c)))
            | inl p ↦
                rw (h, attempts)
                  (rw (k, attempts)
                    (rw (p, attempts)
                      (again e (
                        attempts-Course policy (attempt + 1) left (some e)
                          (calls.pause (backoff policy attempt) w2).1))))
          ]
        ]
      ]

  run-Course :
      (policy : Policy) (w : W)
      → 0 < policy.max_attempts
      → Course policy.max_attempts (run calls policy w).outcomes (run calls policy w).result
  unfolding run
  run-Course policy w some_attempt = go policy.max_attempts some_attempt
    where
      go :
          (n : ℕ)
          → 0 < n
          → Course n
              (attempts calls policy 0 n none w).outcomes
              (attempts calls policy 0 n none w).result
      go zero h = elim (impossible h) [ ]
        where
          impossible : 0 < 0 → ⊥
          impossible p = omega arith
      go (suc n) h = attempts-Course policy 0 n none w

  -- With at least one attempt allowed, Do calls fn at most that many times.
  run_bounded :
      (policy : Policy) (w : W)
      → 0 < policy.max_attempts
      → length (run calls policy w).outcomes ≤ policy.max_attempts
  run_bounded policy w h = Course-bounded (run-Course policy w h)

  -- With at least one attempt allowed, Do returns nil only if its last call of fn returned nil, every
  -- call before it had failed, and there were at most that many calls.
  pub run_success :
      (policy : Policy) (w : W)
      → 0 < policy.max_attempts
      → (run calls policy w).result ≡ none
      → EndsInSuccess (run calls policy w).outcomes
        × (length (run calls policy w).outcomes ≤ policy.max_attempts)
  run_success policy w h e = (Course-success (run-Course policy w h) e, run_bounded policy w h)
