-- ===== src/Engine/Concurrent/Bound.antt =====
-- What holds of the dispatcher in every state, and without a cancellation.
use scrutineer.Prelude.{
  ℕ, suc, ◌+◌, ◌-◌, ◌≤◌, ◌<◌, ◌≡◌, refl, ap, ◌⊎◌, inl, inr, Bool, true, false, List, [], ◌∷◌, ◌++◌,
  arith, ltb, if◌then◌else◌, length,
}
use scrutineer.Engine.Concurrent.{
  Main, checking, selecting, rechecking, waiting, returned, State, initial, Step, cancel, enter,
  leave, acquire, see_done, launch, drain, work, release, join, Reach, here, onward,
}
use scrutineer.Engine.Pool.Safety.{occurrences, length_middle, occurrences_middle}

-- The goroutines that hold a token, or wait to give one back.
abbrev pub live : State → ℕ
live s = length s.running + length s.releasing

-- The tokens in the channel, by where the dispatcher stands, from the number that is live.
abbrev pub Tokens : Main → ℕ → ℕ → Bool → Type 0
Tokens checking slots n stop = slots ≡ n
Tokens selecting slots n stop = slots ≡ n
Tokens rechecking slots n stop = (slots ≡ n + 1) ⊎ ((stop ≡ true) × (slots ≡ n))
Tokens waiting slots n stop = n ≤ slots + 1
Tokens returned slots n stop = n ≡ 0

-- How many indices were started: all of them, once the dispatcher waits on a live context.
abbrev pub Launched : Main → ℕ → ℕ → Bool → Type 0
Launched checking count next stop = next ≤ count
Launched selecting count next stop = next < count
Launched rechecking count next stop = next < count
Launched waiting count next stop = (next ≤ count) × (stop ≡ false → next ≡ count)
Launched returned count next stop = (next ≤ count) × (stop ≡ false → next ≡ count)

abbrev pub started : ℕ → State → ℕ
started k s = occurrences k s.running + occurrences k s.releasing + occurrences k s.finished

pub record Inv (c count : ℕ) (s : State) : Type 0 where
  pub held : live s ≤ c
  pub slots_le : s.slots ≤ c
  pub tokens : Tokens s.main s.slots (live s) s.cancelled
  pub launched : Launched s.main count s.next s.cancelled
  pub each_once : (k : ℕ) → started k s ≡ (if ltb k s.next then 1 else 0)

initial-Inv : (c count : ℕ) → Inv c count initial
unfolding occurrences
initial-Inv c count = record {
  held = omega arith;
  slots_le = omega arith;
  tokens = refl;
  launched = omega arith;
  each_once = λ k. ground arith;
}

Tokens-cancel :
    (m : Main) (slots n : ℕ) (stop : Bool) → Tokens m slots n stop → Tokens m slots n true
Tokens-cancel checking slots n stop h = h
Tokens-cancel selecting slots n stop h = h
Tokens-cancel rechecking slots n stop (inl e) = inl e
Tokens-cancel rechecking slots n stop (inr (e, f)) = inr (refl, f)
Tokens-cancel waiting slots n stop h = h
Tokens-cancel returned slots n stop h = h

Launched-cancel :
    (m : Main) (count next : ℕ) (stop : Bool)
    → Launched m count next stop
    → Launched m count next true
Launched-cancel checking count next stop h = h
Launched-cancel selecting count next stop h = h
Launched-cancel rechecking count next stop h = h
Launched-cancel waiting count next stop h = (h.0, λ e. cc)
Launched-cancel returned count next stop h = (h.0, λ e. cc)

Tokens-release :
    (m : Main) (slots n : ℕ) (stop : Bool)
    → 0 < slots
    → Tokens m slots (suc n) stop
    → Tokens m (slots - 1) n stop
Tokens-release checking slots n stop p h = omega arith
Tokens-release selecting slots n stop p h = omega arith
Tokens-release rechecking slots n stop p (inl e) = inl (omega arith)
Tokens-release rechecking slots n stop p (inr (e, f)) = inr (e, omega arith)
Tokens-release waiting slots n stop p h = omega arith
Tokens-release returned slots n stop p h = absurd (omega arith)

Tokens-drain : (slots n : ℕ) (stop : Bool) → Tokens rechecking slots n stop → n ≤ slots - 1 + 1
Tokens-drain slots n stop (inl e) = omega arith
Tokens-drain slots n stop (inr (e, f)) = omega arith

Tokens-live : (slots n : ℕ) → Tokens rechecking slots n false → slots ≡ n + 1
Tokens-live slots n (inl e) = e
Tokens-live slots n (inr (e, f)) = cc

Launched-leave :
    (count next : ℕ) (stop : Bool)
    → next ≤ count
    → (count ≤ next) ⊎ (stop ≡ true)
    → stop ≡ false
    → next ≡ count
Launched-leave count next stop h (inl l) e = omega arith
Launched-leave count next stop h (inr t) e = cc

-- Every step, in every state, keeps the invariant.
Step-Inv : (c count : ℕ) (s t : State) → Step c count s t → Inv c count s → Inv c count t
unfolding occurrences
Step-Inv c count s t (cancel h e) v = rw e record {
  held = v.held;
  slots_le = v.slots_le;
  tokens = Tokens-cancel s.main s.slots (live s) s.cancelled v.tokens;
  launched = Launched-cancel s.main count s.next s.cancelled v.launched;
  each_once = v.each_once;
}
Step-Inv c count s t (enter m l h e) v = rw e record {
  held = v.held;
  slots_le = v.slots_le;
  tokens = rw m at (v.tokens);
  launched = l;
  each_once = v.each_once;
}
Step-Inv c count s t (leave m h e) v =
    let next_le : s.next ≤ count = rw m at (v.launched) in
    let all : s.slots ≡ live s = rw m at (v.tokens) in
    rw e record {
      held = v.held;
      slots_le = v.slots_le;
      tokens = omega arith;
      launched = (next_le, Launched-leave count s.next s.cancelled next_le h);
      each_once = v.each_once;
    }
Step-Inv c count s t (acquire m l e) v =
    let all : s.slots ≡ live s = rw m at (v.tokens) in
    rw e record {
      held = v.held;
      slots_le = omega arith;
      tokens = inl (omega arith);
      launched = rw m at (v.launched);
      each_once = v.each_once;
    }
Step-Inv c count s t (see_done m h e) v = rw e record {
  held = v.held;
  slots_le = v.slots_le;
  tokens = inr (h, rw m at (v.tokens));
  launched = rw m at (v.launched);
  each_once = v.each_once;
}
Step-Inv c count s t (launch m h e) v =
    let all : s.slots ≡ live s + 1 = Tokens-live s.slots (live s) (rw (m, h) at (v.tokens)) in
    let below : s.next < count = rw m at (v.launched) in
    rw e record {
      held = omega (arith, v.slots_le);
      slots_le = v.slots_le;
      tokens = omega arith;
      launched = omega arith;
      each_once = λ k. ground (arith, v.each_once k);
    }
Step-Inv c count s t (drain m h e) v =
    let below : s.next < count = rw m at (v.launched) in
    rw e record {
      held = v.held;
      slots_le = omega (arith, v.slots_le);
      tokens = Tokens-drain s.slots (live s) s.cancelled (rw m at (v.tokens));
      launched = (omega arith, λ f. cc);
      each_once = v.each_once;
    }
Step-Inv c count s t (work xs i ys w e) v =
    let same : live s ≡ length (xs ++ ys) + suc (length s.releasing) =
      omega (arith, ap length w, length_middle xs i ys) in
    rw e record {
      held = omega (arith, v.held);
      slots_le = v.slots_le;
      tokens = rw same at (v.tokens);
      launched = v.launched;
      each_once =
          λ k. omega (arith, v.each_once k, ap (occurrences k) w, occurrences_middle k xs i ys);
    }
Step-Inv c count s t (release xs i ys w p e) v =
    let one_less : live s ≡ suc (length s.running + length (xs ++ ys)) =
      omega (arith, ap length w, length_middle xs i ys) in
    rw e record {
      held = omega (arith, v.held);
      slots_le = omega (arith, v.slots_le);
      tokens = Tokens-release s.main s.slots _ s.cancelled p (rw one_less at (v.tokens));
      launched = v.launched;
      each_once =
          λ k. omega (arith, v.each_once k, ap (occurrences k) w, occurrences_middle k xs i ys);
    }
Step-Inv c count s t (join m a b e) v = rw e record {
  held = v.held;
  slots_le = v.slots_le;
  tokens = omega (arith, ap length a, ap length b);
  launched = rw m at (v.launched);
  each_once = v.each_once;
}

Reach-Inv : (c count : ℕ) (s t : State) → Reach c count s t → Inv c count s → Inv c count t
Reach-Inv c count s t here v = v
Reach-Inv c count s t (onward {t = u} r st) v = Step-Inv c count u t st (Reach-Inv c count s u r v)

occurrences-le-length : (k : ℕ) (xs : List ℕ) → occurrences k xs ≤ length xs
unfolding occurrences
occurrences-le-length k [] = omega arith
occurrences-le-length k (x ∷ xs) = ground (arith, occurrences-le-length k xs)

all_finished :
    (c count : ℕ) (s : State)
    → Inv c count s
    → s.main ≡ returned
    → s.cancelled ≡ false
    → (k : ℕ) → occurrences k s.finished ≡ (if ltb k count then 1 else 0)
all_finished c count s v m h k =
    let none_live : live s ≡ 0 = rw m at (v.tokens) in
    let ends : (s.next ≤ count) × (s.cancelled ≡ false → s.next ≡ count) = rw m at (v.launched) in
    let all : s.next ≡ count = ends.1 h in
    ground
      (arith, v.each_once k, occurrences-le-length k s.running, occurrences-le-length k s.releasing)

at_most_once : (c count : ℕ) (s : State) → Inv c count s → (k : ℕ) → started k s ≤ 1
at_most_once c count s v k = ground (arith, v.each_once k)

-- In every reachable state, also behind a cancellation, at most `concurrency` items run and no item
-- was started twice.
pub dispatch_bounded :
    (concurrency count : ℕ) (s : State)
    → Reach concurrency count initial s
    → (length s.running ≤ concurrency) × ((k : ℕ) → started k s ≤ 1)
dispatch_bounded c count s r =
    let v = Reach-Inv c count initial s r (initial-Inv c count) in
    (omega (arith, v.held), at_most_once c count s v)

-- If Dispatch has returned and the context is not cancelled, each index below the count has
-- finished exactly once, and no other has.
pub dispatch_complete :
    (concurrency count : ℕ) (s : State)
    → Reach concurrency count initial s
    → s.main ≡ returned
    → s.cancelled ≡ false
    → (k : ℕ) → occurrences k s.finished ≡ (if ltb k count then 1 else 0)
dispatch_complete c count s r =
    all_finished c count s (Reach-Inv c count initial s r (initial-Inv c count))
