-- ===== src/Retry/Tests.antt =====
-- A call that succeeds at the third attempt, and the theorems there.
use scrutineer.Prelude.{
  ℕ, ◌+◌, ◌*◌, ◌^◌, ◌≤◌, ◌≡◌, refl, none, some, arith, ltb, if◌then◌else◌, length,
}
use scrutineer.Retry.{Calls, Policy, backoff, attempts, run}
use scrutineer.Retry.Course.{EndsInSuccess, run_success}

-- The state counts the calls; the context stays alive.
abbrev calls : Calls ℕ ℕ
calls = record {
  ctx_err = λ w. (none, w);
  fn = λ w. (if ltb w 2 then some w else none, w + 1);
  pause = λ t w. (none, w);
}

abbrev policy : Policy
policy = record { max_attempts = 3; max_wait = 5000; scaled = λ n. 100 * 2 ^ n }

third_time : (run calls policy 0).result ≡ none
unfolding run attempts backoff
third_time = refl

run_success_example :
    EndsInSuccess (run calls policy 0).outcomes × (length (run calls policy 0).outcomes ≤ 3)
run_success_example = run_success calls policy 0 (omega arith) third_time
