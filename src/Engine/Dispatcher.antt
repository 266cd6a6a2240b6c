-- ===== src/Engine/Dispatcher.antt =====
-- The sequential, random and weighted dispatchers of core/engine/dispatcher.go. Weights are not
-- negative, and a concurrency below 1 stands for 1, so an `int` is a natural number here.
pub mod Order
use scrutineer.Schema.Types.{mode_sequential, mode_random, mode_concurrent, mode_weighted}
use scrutineer.Prelude.{
  ℕ, zero, suc, ◌+◌, ◌-◌, ◌*◌, ◌/◌, ◌%◌, ◌^◌, ◌≤◌, ◌<◌, ◌≡◌, refl, sym, ap, ◌∙◌, ◌≢◌, ◌↔◌, ◌⊎◌, inl,
  inr, Bool, true, false, ◌&&◌, ◌||◌, not, Option, none, some, List, [], ◌∷◌, ◌++◌, map,
  append_assoc, append-nil, arith, GoMap, lookup, insert, keys, lookup-insert, lookup-insert_self,
  Bytes, Str, codes, str_eq, str_le, str_eq_iff, str_eq_refl, range, sum, ltb, leb, ◌==◌,
  if◌then◌else◌, Bool-cases, Option-cases, length, get_elem?, get_or, set, take, drop, All,
  length-append, length-set, take-length_append, drop-length_append, length-map, ltb→lt, lt→ltb,
  ltb-false, le→ltb-false, leb→le, ==_iff,
}
use mathlib.Core.List.{foldl}
use scrutineer.Fleet.Weight.{select_loop}

pub data Dispatcher : Type 0 where
  sequential_dispatcher random_dispatcher : Dispatcher
  concurrent_dispatcher : ℕ → Dispatcher
  weighted_dispatcher : List ℕ → Dispatcher

unfoldable pub new_concurrent_dispatcher : ℕ → Dispatcher
new_concurrent_dispatcher concurrency =
    concurrent_dispatcher (if ltb concurrency 1 then 1 else concurrency)

-- NewDispatcher
unfoldable pub new_dispatcher : Str → ℕ → List ℕ → Dispatcher
unfolding new_concurrent_dispatcher
new_dispatcher mode concurrency weights =
    if str_eq mode mode_random
    then random_dispatcher
    else if str_eq mode mode_concurrent
    then new_concurrent_dispatcher concurrency
    else if str_eq mode mode_weighted
    then weighted_dispatcher weights
    else sequential_dispatcher

-- `indices[i], indices[j] = indices[j], indices[i]`
unfoldable pub swap : List ℕ → ℕ → ℕ → List ℕ
swap xs i j = set (set xs i (get_or xs j 0)) j (get_or xs i 0)

-- The Fisher-Yates loop from index `i` down to 1; `draw i` is the random number below `i + 1`.
unfoldable pub shuffle_from : (ℕ → ℕ) → ℕ → List ℕ → List ℕ
unfolding swap
shuffle_from draw zero xs = xs
shuffle_from draw (suc i) xs = shuffle_from draw i (swap xs (suc i) (draw (suc i)))

-- The order in which RandomDispatcher runs `count` items.
unfoldable pub random_order : (ℕ → ℕ) → ℕ → List ℕ
random_order draw count = shuffle_from draw (count - 1) (range 0 count)

-- selectByWeight; `r` is `mrand.IntN(total)`.
unfoldable pub select_by_weight : List ℕ → ℕ → ℕ
unfolding select_loop
select_by_weight weights r = select_loop weights r 0 0

-- The picks of WeightedDispatcher; `draws` are the numbers that IntN gives, one for each pick.
unfoldable pub weighted_order : List ℕ → List ℕ → List ℕ
unfolding select_by_weight
weighted_order weights draws = if sum weights == 0 then [] else map (select_by_weight weights) draws

-- `cancelled s` is `ctx.Err() != nil` in the world `s`, and `work i` what workFn does for index `i`.
module _ {S : Type 0} (cancelled : S → Bool) (work : ℕ → S → S) where
  -- The loop that the three dispatchers share, over the indices in their order.
  unfoldable pub dispatch_each : List ℕ → S → S
  dispatch_each [] s = s
  dispatch_each (i ∷ is) s = if cancelled s then s else dispatch_each is (work i s)

  unfoldable pub dispatch_sequential : ℕ → S → S
  unfolding dispatch_each
  dispatch_sequential count = dispatch_each (range 0 count)

  unfoldable pub dispatch_random : (ℕ → ℕ) → ℕ → S → S
  unfolding dispatch_each
  dispatch_random draw count = dispatch_each (random_order draw count)

  unfoldable pub dispatch_weighted : List ℕ → List ℕ → S → S
  unfolding dispatch_each
  dispatch_weighted weights draws = dispatch_each (weighted_order weights draws)
