-- ===== src/Engine/Tests.antt =====
-- Runs of core/engine on concrete inputs, and its theorems there.
use scrutineer.Prelude.{
  ℕ, ◌+◌, ◌/◌, ◌≤◌, ◌<◌, ◌≡◌, refl, ◌≢◌, inl, Bool, true, false, some, List, [], ◌∷◌, arith, str_eq,
  range, ltb, leb, if◌then◌else◌, length,
}
use mathlib.Core.List.{Perm}
use scrutineer.Engine.Dispatcher.{
  random_order, shuffle_from, dispatch_each, new_dispatcher, concurrent_dispatcher,
}
use scrutineer.Schema.Types.{mode_concurrent}
use scrutineer.Engine.Dispatcher.Order.{random_order-perm, run_first, dispatch_each_prefix}
use scrutineer.Engine.Loop.{run}
use scrutineer.Engine.Loop.Passes.{Counts, run_passes_bounded}
use scrutineer.Engine.Pool
use scrutineer.Engine.Pool.Safety
use scrutineer.Engine.Concurrent
use scrutineer.Engine.Concurrent.Bound
use scrutineer.Engine.Concurrent.Hang.{dispatch_may_hang}

random_order_four : random_order (λ k. k / 2) 4 ≡ 2 ∷ 0 ∷ 3 ∷ 1 ∷ []
unfolding random_order shuffle_from range
random_order_four = refl

concurrency_defaults_to_one : new_dispatcher mode_concurrent 0 [] ≡ concurrent_dispatcher 1
unfolding new_dispatcher str_eq
concurrency_defaults_to_one = refl

random_order-perm_example : Perm (random_order (λ k. k / 2) 4) (range 0 4)
random_order-perm_example = random_order-perm (λ k. k / 2) 4 (λ k. omega arith)

-- A world that counts what ran, and in which the context is cancelled behind two items.
abbrev log : ℕ → List ℕ → List ℕ
log i ran = i ∷ ran

abbrev two_ran : List ℕ → Bool
two_ran ran = leb 2 (length ran)

dispatch_each_prefix_example :
    (k : ℕ) × (k ≤ 3)
    × (dispatch_each two_ran log (7 ∷ 8 ∷ 9 ∷ []) [] ≡ run_first two_ran log k (7 ∷ 8 ∷ 9 ∷ []) [])
    × ((j : ℕ) → j < k → two_ran (run_first two_ran log j (7 ∷ 8 ∷ 9 ∷ []) []) ≡ false)
    × (k < 3 → two_ran (run_first two_ran log k (7 ∷ 8 ∷ 9 ∷ []) []) ≡ true)
dispatch_each_prefix_example = dispatch_each_prefix two_ran log (7 ∷ 8 ∷ 9 ∷ []) []

abbrev alive : ℕ → Bool
alive s = false

abbrev one_pass : ℕ → ℕ → ℕ
one_pass n s = s + 1

abbrev calm : ℕ → ℕ × Bool
calm s = (s, false)

abbrev itself : ℕ → ℕ
itself s = s

counting : Counts one_pass calm itself
counting = record { pass_counts = λ n s. refl; wait_keeps = λ s. refl }

run_passes_bounded_example :
    (s' : ℕ) × (run alive one_pass calm 3 3 10 0 ≡ some s') × (0 ≤ s') × (s' ≤ 0 + 3)
run_passes_bounded_example =
    run_passes_bounded alive one_pass calm itself counting 3 10 0 (omega arith)

abbrev pool_one : Pool.State
pool_one = record Pool.initial { next = 1; slots = 1; running = 0 ∷ [] }

pool_one-Reach : Pool.Reach 1 2 Pool.initial pool_one
pool_one-Reach = Pool.onward Pool.here (Pool.launch refl (omega arith) (omega arith) refl)

abbrev pool_end : Pool.State
pool_end = record Pool.initial { next = 1; finished = 0 ∷ []; main = Pool.returned }

pool_end-Reach : Pool.Reach 1 1 Pool.initial pool_end
pool_end-Reach =
    Pool.onward
      (Pool.onward
        (Pool.onward
          (Pool.onward (Pool.onward Pool.here (Pool.launch refl (omega arith) (omega arith) refl))
            (Pool.launched refl (omega arith) refl))
          (Pool.work [] 0 [] refl refl))
        (Pool.release [] 0 [] refl (omega arith) refl))
      (Pool.join refl refl refl refl)

running-le-size_example : length {A = ℕ} (0 ∷ []) ≤ 1
running-le-size_example = Pool.Safety.running-le-size 1 2 pool_one pool_one-Reach

returned_ran_each_once_example : Pool.Safety.occurrences 0 (0 ∷ []) ≡ (if ltb 0 1 then 1 else 0)
returned_ran_each_once_example =
    Pool.Safety.returned_ran_each_once 1 1 pool_end pool_end-Reach refl 0

pool_progress_example :
    (t : Pool.State) × Pool.Step 1 2 pool_one t
    × (Pool.Safety.to_do 2 t < Pool.Safety.to_do 2 pool_one)
pool_progress_example =
    Pool.Safety.pool_progress 1 2 pool_one (omega arith) pool_one-Reach (λ m. cc)

abbrev concurrent_end : Concurrent.State
concurrent_end = record Concurrent.initial {
  next = 1;
  finished = 0 ∷ [];
  main = Concurrent.returned;
}

concurrent_end-Reach : Concurrent.Reach 2 1 Concurrent.initial concurrent_end
concurrent_end-Reach =
    Concurrent.onward
      (Concurrent.onward
        (Concurrent.onward
          (Concurrent.onward
            (Concurrent.onward
              (Concurrent.onward
                (Concurrent.onward Concurrent.here (Concurrent.enter refl (omega arith) refl refl))
                (Concurrent.acquire refl (omega arith) refl))
              (Concurrent.launch refl refl refl))
            (Concurrent.leave refl (inl (omega arith)) refl))
          (Concurrent.work [] 0 [] refl refl))
        (Concurrent.release [] 0 [] refl (omega arith) refl))
      (Concurrent.join refl refl refl refl)

dispatch_bounded_example :
    (length {A = ℕ} [] ≤ 2) × ((k : ℕ) → Concurrent.Bound.started k concurrent_end ≤ 1)
dispatch_bounded_example = Concurrent.Bound.dispatch_bounded 2 1 concurrent_end concurrent_end-Reach

dispatch_complete_example : Pool.Safety.occurrences 0 (0 ∷ []) ≡ (if ltb 0 1 then 1 else 0)
dispatch_complete_example =
    Concurrent.Bound.dispatch_complete 2 1 concurrent_end concurrent_end-Reach refl refl 0

dispatch_may_hang_example :
    (s : Concurrent.State) × Concurrent.Reach 3 5 Concurrent.initial s
    × (s.main ≢ Concurrent.returned)
    × (s.cancelled ≡ true)
    × ((t : Concurrent.State) → ¬ Concurrent.Step 3 5 s t)
dispatch_may_hang_example = dispatch_may_hang 3 5 (omega arith) (omega arith)
