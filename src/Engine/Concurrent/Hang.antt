-- ===== src/Engine/Concurrent/Hang.antt =====
-- A cancellation that arrives while the dispatcher waits for a slot can make it hang for ever: the
-- drain takes the token of a goroutine that still runs, which then never gets one back.
use scrutineer.Prelude.{ℕ, ◌<◌, ◌≡◌, refl, ap, ◌≢◌, true, [], ◌∷◌, arith, length, length-append}
use scrutineer.Engine.Concurrent.{
  waiting, returned, State, initial, Step, cancel, enter, leave, acquire, see_done, launch, drain,
  work, release, join, Reach, here, onward,
}

-- Item 0 was started; then the context was cancelled at the select for item 1.
abbrev pub hung : State
hung = record {
  next = 1;
  slots = 0;
  running = [];
  releasing = 0 ∷ [];
  finished = [];
  cancelled = true;
  main = waiting;
}

abbrev first_started : State
first_started = record initial { next = 1; slots = 1; running = 0 ∷ [] }

start_first : (c count : ℕ) → 0 < c → 1 < count → Reach c count initial first_started
start_first c count h k =
    onward (onward (onward here (enter refl (omega arith) refl refl)) (acquire refl h refl))
      (launch refl refl refl)

cancel_at_select :
    (c count : ℕ)
    → 0 < c
    → 1 < count
    → Reach c count initial (record first_started { slots = 0; cancelled = true; main = waiting })
cancel_at_select c count h k =
    onward
      (onward
        (onward (onward (start_first c count h k) (enter refl k refl refl)) (cancel refl refl))
        (see_done refl refl refl))
      (drain refl refl refl)

Reach-hung : (c count : ℕ) → 0 < c → 1 < count → Reach c count initial hung
Reach-hung c count h k = onward (cancel_at_select c count h k) (work [] 0 [] refl refl)

hung_is_stuck : (c count : ℕ) (t : State) → ¬ Step c count hung t
hung_is_stuck c count t (cancel h e) = cc
hung_is_stuck c count t (enter m l h e) = cc
hung_is_stuck c count t (leave m h e) = cc
hung_is_stuck c count t (acquire m l e) = cc
hung_is_stuck c count t (see_done m h e) = cc
hung_is_stuck c count t (launch m h e) = cc
hung_is_stuck c count t (drain m h e) = cc
hung_is_stuck c count t (work xs i ys w e) =
    absurd (omega (arith, ap length w, length-append xs (i ∷ ys)))
hung_is_stuck c count t (release xs i ys w p e) = absurd (omega arith)
hung_is_stuck c count t (join m a b e) = cc

-- For every concurrency above zero and every count above one there is a reachable state in which
-- Dispatch has not returned, the context is cancelled, one item has finished its work but not
-- released its slot, and no goroutine can ever take a step again.
pub dispatch_may_hang :
    (concurrency count : ℕ)
    → 0 < concurrency
    → 1 < count
    → (s : State) × Reach concurrency count initial s
      × (s.main ≢ returned)
      × (s.cancelled ≡ true)
      × ((t : State) → ¬ Step concurrency count s t)
dispatch_may_hang concurrency count h k =
    (hung, Reach-hung concurrency count h k, λ m. cc, refl, hung_is_stuck concurrency count)
