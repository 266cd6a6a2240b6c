-- ===== src/Engine/Pool/Safety.antt =====
-- What holds in every state of the pool, whatever the goroutines' order.
use scrutineer.Prelude.{
  ℕ, suc, ◌+◌, ◌-◌, ◌*◌, ◌≤◌, ◌<◌, ◌≡◌, refl, sym, ap, ◌∙◌, ◌≢◌, inl, inr, List, [], ◌∷◌, ◌++◌,
  arith, ltb, ◌==◌, if◌then◌else◌, Bool-cases, length, length-append, ltb→lt, ltb-false,
}
use scrutineer.Engine.Pool.{
  Main, launching, waiting, returned, State, initial, Step, launch, launched, work, release, join,
  Reach, here, onward,
}

unfoldable pub occurrences : ℕ → List ℕ → ℕ
occurrences k [] = 0
occurrences k (x ∷ xs) = (if x == k then 1 else 0) + occurrences k xs

occurrences-append :
    (k : ℕ) (xs ys : List ℕ) → occurrences k (xs ++ ys) ≡ occurrences k xs + occurrences k ys
unfolding occurrences
occurrences-append k [] ys = omega arith
occurrences-append k (x ∷ xs) ys = omega (arith, occurrences-append k xs ys)

-- How often index `k` was started.
abbrev started : ℕ → State → ℕ
started k s = occurrences k s.running + occurrences k s.releasing + occurrences k s.finished

pub record Inv (size count : ℕ) (s : State) : Type 0 where
  pub tokens : s.slots ≡ length s.running + length s.releasing
  pub bounded : s.slots ≤ size
  pub within : s.next ≤ count
  pub each_once : (k : ℕ) → started k s ≡ (if ltb k s.next then 1 else 0)
  pub all_launched : s.main ≢ launching → s.next ≡ count
  pub all_done : s.main ≡ returned → (s.running ≡ []) × (s.releasing ≡ [])

initial-Inv : (size count : ℕ) → Inv size count initial
unfolding occurrences
initial-Inv size count = record {
  tokens = refl;
  bounded = omega arith;
  within = omega arith;
  each_once = λ k. ground arith;
  all_launched = λ h. absurd (h refl);
  all_done = λ h. cc;
}

-- Taking one out of the middle.
pub length_middle :
    (xs : List ℕ) (i : ℕ) (ys : List ℕ) → length (xs ++ i ∷ ys) ≡ suc (length (xs ++ ys))
length_middle xs i ys = omega (arith, length-append xs (i ∷ ys), length-append xs ys)

pub occurrences_middle :
    (k : ℕ) (xs : List ℕ) (i : ℕ) (ys : List ℕ)
    → occurrences k (xs ++ i ∷ ys) ≡ occurrences k (i ∷ xs ++ ys)
unfolding occurrences
occurrences_middle k xs i ys =
    omega (arith, occurrences-append k xs (i ∷ ys), occurrences-append k xs ys)

Step-Inv :
    (size count : ℕ) (s t : State) → Step size count s t → Inv size count s → Inv size count t
unfolding occurrences
Step-Inv size count s t (launch m l f e) v = rw e record {
  tokens = omega (arith, v.tokens);
  bounded = omega arith;
  within = omega arith;
  each_once = λ k. ground (arith, v.each_once k);
  all_launched = λ h. absurd (h m);
  all_done = λ h. cc;
}
Step-Inv size count s t (launched m l e) v = rw e record {
  tokens = v.tokens;
  bounded = v.bounded;
  within = v.within;
  each_once = v.each_once;
  all_launched = λ h. omega (arith, v.within);
  all_done = λ h. cc;
}
Step-Inv size count s t (work xs i ys w e) v = rw e record {
  tokens = omega (arith, v.tokens, ap length w, length_middle xs i ys);
  bounded = v.bounded;
  within = v.within;
  each_once = λ k. omega (arith, v.each_once k, ap (occurrences k) w, occurrences_middle k xs i ys);
  all_launched = v.all_launched;
  all_done =
      λ h. absurd (omega (arith, ap length (sym w ∙ (v.all_done h).0), length_middle xs i ys));
}
Step-Inv size count s t (release xs i ys w p e) v = rw e record {
  tokens = omega (arith, v.tokens, ap length w, length_middle xs i ys);
  bounded = omega (arith, v.bounded);
  within = v.within;
  each_once = λ k. omega (arith, v.each_once k, ap (occurrences k) w, occurrences_middle k xs i ys);
  all_launched = v.all_launched;
  all_done =
      λ h. absurd (omega (arith, ap length (sym w ∙ (v.all_done h).1), length_middle xs i ys));
}
Step-Inv size count s t (join m a b e) v = rw e record {
  tokens = v.tokens;
  bounded = v.bounded;
  within = v.within;
  each_once = v.each_once;
  all_launched = λ h. v.all_launched (λ q. cc);
  all_done = λ h. (a, b);
}

Reach-Inv :
    (size count : ℕ) (s t : State) → Reach size count s t → Inv size count s → Inv size count t
Reach-Inv size count s t here v = v
Reach-Inv size count s t (onward {t = u} r st) v =
    Step-Inv size count u t st (Reach-Inv size count s u r v)

-- In every reachable state of a pool of `size`, at most `size` functions run at once.
pub running-le-size :
    (size count : ℕ) (s : State) → Reach size count initial s → length s.running ≤ size
running-le-size size count s r =
    let v = Reach-Inv size count initial s r (initial-Inv size count) in
    omega (arith, v.tokens, v.bounded)

-- When Run has returned, fn has run once for each index below the count and for no other.
pub returned_ran_each_once :
    (size count : ℕ) (s : State)
    → Reach size count initial s
    → s.main ≡ returned
    → (k : ℕ) → occurrences k s.finished ≡ (if ltb k count then 1 else 0)
returned_ran_each_once size count s r m k =
    let v = Reach-Inv size count initial s r (initial-Inv size count) in
    let (no_running, no_releasing) = v.all_done m in
    let all = v.all_launched (λ q. cc) in unfold occurrences in ground (arith, v.each_once k)

-- What is still to do: a launch counts for four, an end of fn for two.
abbrev phase : Main → ℕ
phase launching = 2
phase waiting = 1
phase returned = 0

abbrev pub to_do : ℕ → State → ℕ
to_do count s = 3 * (count - s.next) + 2 * length s.running + length s.releasing + phase s.main

Step-to_do :
    (size count : ℕ) (s t : State) → Step size count s t → suc (to_do count t) ≤ to_do count s
Step-to_do size count s t (launch m l f e) = rw (e, m) (omega arith)
Step-to_do size count s t (launched m l e) = rw (e, m) (omega arith)
Step-to_do size count s t (work xs i ys w e) = rw (e, w) (omega (arith, length_middle xs i ys))
Step-to_do size count s t (release xs i ys w p e) = rw (e, w) (omega (arith, length_middle xs i ys))
Step-to_do size count s t (join m a b e) = rw (e, m) (omega arith)

can_go_on :
    (size count : ℕ) (s : State)
    → 0 < size
    → Inv size count s
    → s.main ≢ returned
    → (main : Main) (running releasing : List ℕ) → s.main ≡ main
    → s.running ≡ running
    → s.releasing ≡ releasing
    → (t : State) × Step size count s t
can_go_on size count s h v m returned running releasing e f g = absurd (m e)
can_go_on size count s h v m main (i ∷ is) releasing e f g = (_, work [] i is f refl)
can_go_on size count s h v m main [] (i ∷ is) e f g =
    (_, release [] i is g (omega (arith, v.tokens, ap length g)) refl)
can_go_on size count s h v m waiting [] [] e f g = (_, join e f g refl)
can_go_on size count s h v m launching [] [] e f g = elim (Bool-cases (ltb s.next count)) [
  | inl more ↦
      (_, launch e (ltb→lt _ _ more) (omega (arith, v.tokens, ap length f, ap length g)) refl)
  | inr end ↦ (_, launched e (ltb-false _ _ end) refl)
]

-- The pool never hangs: from every reachable state in which Run has not returned some goroutine
-- can take a step, and every step leaves less to do.
pub pool_progress :
    (size count : ℕ) (s : State)
    → 0 < size
    → Reach size count initial s
    → s.main ≢ returned
    → (t : State) × Step size count s t × (to_do count t < to_do count s)
pool_progress size count s h r m =
    let v = Reach-Inv size count initial s r (initial-Inv size count) in
    let (t, st) = can_go_on size count s h v m s.main s.running s.releasing refl refl refl in
    (t, st, Step-to_do size count s t st)
