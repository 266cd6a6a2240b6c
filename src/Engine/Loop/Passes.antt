-- ===== src/Engine/Loop/Passes.antt =====
-- How many passes the loop makes, told by a counter in the world that each pass increments.
use scrutineer.Prelude.{
  ℕ, zero, suc, ◌+◌, ◌≤◌, ◌<◌, ◌≡◌, refl, inl, inr, Bool, false, some, arith, ltb, leb, Bool-cases,
  lt→ltb, le→ltb-false,
}
use scrutineer.Engine.Loop.{Round, return, again, after_pass, round, run_loop, run}

-- The counter of passes: `pass n` runs when `n - 1` passes are counted, and counts one more.
pub record Counts {S : Type 0} (pass : ℕ → S → S) (wait : S → S × Bool) (count : S → ℕ)
    : Type 0 where
  pub pass_counts : (n : ℕ) (s : S) → count (pass n s) ≡ count s + 1
  pub wait_keeps : (s : S) → count (wait s).0 ≡ count s

module _ {S : Type 0} (cancelled : S → Bool) (pass : ℕ → S → S) (wait : S → S × Bool)
    (count : S → ℕ) (c : Counts pass wait count) where
  -- The context stays alive, before every pass and during every wait.
  abbrev pub Steady : Type 0
  Steady = (t : S) → (cancelled t ≡ false) × ((wait t).1 ≡ false)

  -- What one round does to the counter, on its way to `repeat` passes.
  abbrev RoundCounts : ℕ → ℕ → S → Round S → Type 0
  RoundCounts repeat n s (return s') =
      (count s ≤ count s')
      × (count s' ≤ count s + 1)
      × (Steady → (count s' ≡ count s + 1) × (n ≡ repeat))
  RoundCounts repeat n s (again s') = (count s' ≡ count s + 1) × (n < repeat)

  after_pass_counts :
      (repeat interval n : ℕ) (s t : S)
      → 0 < repeat
      → n ≤ repeat
      → count t ≡ count s + 1
      → RoundCounts repeat n s (after_pass cancelled pass wait repeat interval n t)
  unfolding after_pass
  after_pass_counts repeat interval n s t h l e =
      let w = c.wait_keeps t in
      let some_repeat = lt→ltb 0 repeat h in
      elim (Bool-cases (leb repeat n)) [
        | inl last ↦ rw (some_repeat, last) (omega arith, omega arith, λ st. ground arith)
        | inr more ↦
            let below : n < repeat = ground arith in
            elim (Bool-cases (ltb 0 interval)) [
              | inl paced ↦ elim (Bool-cases (wait t).1) [
                | inl done ↦
                    rw (some_repeat, more, paced, done)
                      (omega arith, omega arith, λ st. ground (arith, st t))
                | inr go ↦ rw (some_repeat, more, paced, go) (omega arith, below)
              ]
              | inr unpaced ↦ rw (some_repeat, more, unpaced) (e, below)
            ]
      ]

  round_counts :
      (repeat interval n : ℕ) (s : S)
      → 0 < repeat
      → n ≤ repeat
      → RoundCounts repeat n s (round cancelled pass wait repeat interval n s)
  unfolding round
  round_counts repeat interval n s h l =
      let not_past : ltb repeat n ≡ false = le→ltb-false repeat n l in
      elim (Bool-cases (cancelled s)) [
        | inl stop ↦ rw stop (omega arith, omega arith, λ st. ground (arith, st s))
        | inr go ↦
            rw (go, lt→ltb 0 repeat h, not_past, round)
              (after_pass_counts repeat interval n s (pass n s) h l (c.pass_counts n s))
      ]

  -- The loop ends, with at most `repeat` passes counted, and with all of them on a steady context.
  abbrev Ends : ℕ → ℕ → ℕ → ℕ → S → Type 0
  Ends fuel repeat interval n s =
      (s' : S) × (run_loop cancelled pass wait fuel repeat interval n s ≡ some s')
      × (count s ≤ count s')
      × (count s' + n ≤ count s + repeat)
      × (Steady → count s' + n ≡ count s + repeat)

  one_round :
      (fuel repeat interval n : ℕ) (s : S) (r : Round S)
      → n < repeat
      → round cancelled pass wait repeat interval (n + 1) s ≡ r
      → RoundCounts repeat (n + 1) s r
      → ((s' : S) → n + 1 < repeat → Ends fuel repeat interval (n + 1) s')
      → Ends (suc fuel) repeat interval n s
  unfolding run_loop
  one_round fuel repeat interval n s (return s') l e (low, high, exact) rest =
      (s', rw (e, run_loop), low, omega arith, λ st. omega (arith, exact st))
  one_round fuel repeat interval n s (again s') l e (counted, more) rest =
      let (end, same, low, high, exact) = rest s' more in
      (end, rw (e, run_loop) same, omega arith, omega arith, λ st. omega (arith, exact st))

  run_loop_counts :
      (left fuel repeat interval n : ℕ) (s : S)
      → n + suc left ≡ repeat
      → left < fuel
      → Ends fuel repeat interval n s
  run_loop_counts left zero repeat interval n s e f = absurd (omega arith)
  run_loop_counts zero (suc fuel) repeat interval n s e f =
      one_round fuel repeat interval n s _ (omega arith) refl
        (round_counts repeat interval (n + 1) s (omega arith) (omega arith))
        (λ s' more. absurd (omega arith))
  run_loop_counts (suc left) (suc fuel) repeat interval n s e f =
      one_round fuel repeat interval n s _ (omega arith) refl
        (round_counts repeat interval (n + 1) s (omega arith) (omega arith))
        (λ s' more.
          run_loop_counts left fuel repeat interval (n + 1) s' (omega arith) (omega arith))

  run_counts :
      (repeat interval : ℕ) (s : S)
      → 0 < repeat
      → (s' : S) × (run cancelled pass wait repeat repeat interval s ≡ some s')
        × (count s ≤ count s')
        × (count s' ≤ count s + repeat)
        × (Steady → count s' ≡ count s + repeat)
  unfolding run
  run_counts zero interval s h = absurd (omega arith)
  run_counts (suc left) interval s h =
      let (s', same, low, high, exact) =
        run_loop_counts left (suc left) (suc left) interval 0 s (omega arith) (omega arith) in
      (s', same, low, omega arith, λ st. omega (arith, exact st))

  -- With a repeat count above zero the controller ends, whatever the context and the waits do, with
  -- at most that many passes made.
  pub run_passes_bounded :
      (repeat interval : ℕ) (s : S)
      → 0 < repeat
      → (s' : S) × (run cancelled pass wait repeat repeat interval s ≡ some s')
        × (count s ≤ count s')
        × (count s' ≤ count s + repeat)
  run_passes_bounded repeat interval s h =
      let (s', same, low, high, exact) = run_counts repeat interval s h in (s', same, low, high)

  -- On a context that stays alive it makes exactly that many.
  pub run_passes_exact :
      (repeat interval : ℕ) (s : S)
      → 0 < repeat
      → Steady
      → (s' : S) × (run cancelled pass wait repeat repeat interval s ≡ some s')
        × (count s' ≡ count s + repeat)
  run_passes_exact repeat interval s h st =
      let (s', same, low, high, exact) = run_counts repeat interval s h in (s', same, exact st)
