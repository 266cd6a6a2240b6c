-- ===== src/Engine/Pool.antt =====
-- Pool.Run of core/engine/parallel.go, as the steps of the main goroutine and of those it starts.
pub mod Safety
use scrutineer.Prelude.{
  ℕ, zero, suc, ◌+◌, ◌-◌, ◌*◌, ◌/◌, ◌%◌, ◌^◌, ◌≤◌, ◌<◌, ◌≡◌, refl, sym, ap, ◌∙◌, ◌≢◌, ◌↔◌, ◌⊎◌, inl,
  inr, Bool, true, false, ◌&&◌, ◌||◌, not, Option, none, some, List, [], ◌∷◌, ◌++◌, map,
  append_assoc, append-nil, arith, GoMap, lookup, insert, keys, lookup-insert, lookup-insert_self,
  Bytes, Str, codes, str_eq, str_le, str_eq_iff, str_eq_refl, range, sum, ltb, leb, ◌==◌,
  if◌then◌else◌, Bool-cases, Option-cases, length, get_elem?, get_or, set, take, drop, All,
  length-append, length-set, take-length_append, drop-length_append, length-map, ltb→lt, lt→ltb,
  ltb-false, le→ltb-false, leb→le, ==_iff,
}

pub data Main : Type 0 where
  launching waiting returned : Main

-- `slots` is the number of tokens in the channel `sem`. A started goroutine runs fn, then holds its
-- token until it takes one back, then is done with the WaitGroup.
pub record State : Type 0 where
  pub next : ℕ
  pub slots : ℕ
  pub running : List ℕ
  pub releasing : List ℕ
  pub finished : List ℕ
  pub main : Main

-- NewPool
unfoldable pub pool_size : ℕ → ℕ
pool_size size = if ltb size 1 then 1 else size

abbrev pub initial : State
initial = record {
  next = 0;
  slots = 0;
  running = [];
  releasing = [];
  finished = [];
  main = launching;
}

pub data Step (size count : ℕ) (s t : State) : Type 0 where
  -- `sem <- struct{}{}` and `go func`
  launch :
      s.main ≡ launching
      → s.next < count
      → s.slots < size
      → t ≡ record s { next = s.next + 1; slots = s.slots + 1; running = s.next ∷ s.running }
      → Step size count s t
  -- the end of the loop
  launched :
      s.main ≡ launching → count ≤ s.next → t ≡ record s { main = waiting } → Step size count s t
  -- fn(idx) returns
  work :
      (xs : List ℕ) (i : ℕ) (ys : List ℕ)
      → s.running ≡ xs ++ i ∷ ys
      → t ≡ record s { running = xs ++ ys; releasing = i ∷ s.releasing }
      → Step size count s t
  -- `<-sem` and wg.Done
  release :
      (xs : List ℕ) (i : ℕ) (ys : List ℕ)
      → s.releasing ≡ xs ++ i ∷ ys
      → 0 < s.slots
      → t ≡ record s { releasing = xs ++ ys; slots = s.slots - 1; finished = i ∷ s.finished }
      → Step size count s t
  -- wg.Wait returns
  join :
      s.main ≡ waiting
      → s.running ≡ []
      → s.releasing ≡ []
      → t ≡ record s { main = returned }
      → Step size count s t

pub data Reach (size count : ℕ) (s : State) : State → Type 0 where
  here : Reach size count s s
  onward : {t u : State} → Reach size count s t → Step size count t u → Reach size count s u
