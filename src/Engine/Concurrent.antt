-- ===== src/Engine/Concurrent.antt =====
-- ConcurrentDispatcher.Dispatch of core/engine/dispatcher.go, as the steps of the goroutine that
-- dispatches, of those it starts, and of the context. A panic of workFn is recovered by its
-- goroutine, which releases its slot all the same, so a panic is an end of the work here.
pub mod Hang
pub mod Bound
use scrutineer.Prelude.{
  ℕ, zero, suc, ◌+◌, ◌-◌, ◌*◌, ◌/◌, ◌%◌, ◌^◌, ◌≤◌, ◌<◌, ◌≡◌, refl, sym, ap, ◌∙◌, ◌≢◌, ◌↔◌, ◌⊎◌, inl,
  inr, Bool, true, false, ◌&&◌, ◌||◌, not, Option, none, some, List, [], ◌∷◌, ◌++◌, map,
  append_assoc, append-nil, arith, GoMap, lookup, insert, keys, lookup-insert, lookup-insert_self,
  Bytes, Str, codes, str_eq, str_le, str_eq_iff, str_eq_refl, range, sum, ltb, leb, ◌==◌,
  if◌then◌else◌, Bool-cases, Option-cases, length, get_elem?, get_or, set, take, drop, All,
  length-append, length-set, take-length_append, drop-length_append, length-map, ltb→lt, lt→ltb,
  ltb-false, le→ltb-false, leb→le, ==_iff,
}

-- Where the dispatching goroutine stands: at the first test of ctx.Err, at the select, at the
-- second test, in wg.Wait, behind it.
pub data Main : Type 0 where
  checking selecting rechecking waiting returned : Main

pub record State : Type 0 where
  pub next : ℕ
  pub slots : ℕ
  pub running : List ℕ
  pub releasing : List ℕ
  pub finished : List ℕ
  pub cancelled : Bool
  pub main : Main

abbrev pub initial : State
initial = record {
  next = 0;
  slots = 0;
  running = [];
  releasing = [];
  finished = [];
  cancelled = false;
  main = checking;
}

pub data Step (concurrency count : ℕ) (s t : State) : Type 0 where
  -- the caller cancels the context
  cancel : s.cancelled ≡ false → t ≡ record s { cancelled = true } → Step concurrency count s t
  -- `i < count` and `ctx.Err() == nil`
  enter :
      s.main ≡ checking
      → s.next < count
      → s.cancelled ≡ false
      → t ≡ record s { main = selecting }
      → Step concurrency count s t
  -- the loop ends, or breaks at `ctx.Err() != nil`
  leave :
      s.main ≡ checking
      → (count ≤ s.next) ⊎ (s.cancelled ≡ true)
      → t ≡ record s { main = waiting }
      → Step concurrency count s t
  -- `case sem <- struct{}{}`
  acquire :
      s.main ≡ selecting
      → s.slots < concurrency
      → t ≡ record s { slots = s.slots + 1; main = rechecking }
      → Step concurrency count s t
  -- `case <-ctx.Done()`, whose `break` leaves the select alone
  see_done :
      s.main ≡ selecting
      → s.cancelled ≡ true
      → t ≡ record s { main = rechecking }
      → Step concurrency count s t
  -- the second test fails: the goroutine is started
  launch :
      s.main ≡ rechecking
      → s.cancelled ≡ false
      → t ≡ record s { next = s.next + 1; running = s.next ∷ s.running; main = checking }
      → Step concurrency count s t
  -- the second test holds: `select { case <-sem: default: }` and `break`
  drain :
      s.main ≡ rechecking
      → s.cancelled ≡ true
      → t ≡ record s { slots = s.slots - 1; main = waiting }
      → Step concurrency count s t
  -- the goroutine returns from workFn, or at once under a cancelled context
  work :
      (xs : List ℕ) (i : ℕ) (ys : List ℕ)
      → s.running ≡ xs ++ i ∷ ys
      → t ≡ record s { running = xs ++ ys; releasing = i ∷ s.releasing }
      → Step concurrency count s t
  -- the deferred `<-sem`, then wg.Done
  release :
      (xs : List ℕ) (i : ℕ) (ys : List ℕ)
      → s.releasing ≡ xs ++ i ∷ ys
      → 0 < s.slots
      → t ≡ record s { releasing = xs ++ ys; slots = s.slots - 1; finished = i ∷ s.finished }
      → Step concurrency count s t
  -- wg.Wait returns
  join :
      s.main ≡ waiting
      → s.running ≡ []
      → s.releasing ≡ []
      → t ≡ record s { main = returned }
      → Step concurrency count s t

pub data Reach (concurrency count : ℕ) (s : State) : State → Type 0 where
  here : Reach concurrency count s s
  onward :
      {t u : State}
      → Reach concurrency count s t
      → Step concurrency count t u
      → Reach concurrency count s u
