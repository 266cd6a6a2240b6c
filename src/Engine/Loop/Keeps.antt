-- ===== src/Engine/Loop/Keeps.antt =====
-- What every pass keeps, the loop keeps, and with a repeat count it ends.
use scrutineer.Engine.Loop.{Round, return, again, after_pass, round, run_loop, run}
use scrutineer.Prelude.{
  ℕ, zero, suc, ◌+◌, ◌≤◌, ◌<◌, ◌≡◌, refl, inl, inr, Bool, some, arith, ltb, leb, Bool-cases, lt→ltb,
  le→ltb-false,
}

module _ {S : Type 0} (cancelled : S → Bool) (pass : ℕ → S → S) (wait : S → S × Bool)
    (Keep : S → Type 0) (passes : (n : ℕ) (s : S) → Keep s → Keep (pass n s))
    (waits : (s : S) → Keep s → Keep (wait s).0) where
  -- The state that a round ends with is kept; it goes on below the repeat count only.
  abbrev RoundKeeps : ℕ → ℕ → Round S → Type 0
  RoundKeeps repeat n (return s) = Keep s
  RoundKeeps repeat n (again s) = Keep s × (n < repeat)

  after_pass-keeps :
      (repeat interval n : ℕ) (s : S)
      → 0 < repeat
      → Keep s
      → RoundKeeps repeat n (after_pass cancelled pass wait repeat interval n s)
  unfolding after_pass
  after_pass-keeps repeat interval n s h k = elim (Bool-cases (leb repeat n)) [
    | inl last ↦ rw (lt→ltb 0 repeat h, last) k
    | inr more ↦
        let below : n < repeat = ground arith in
        elim (Bool-cases (ltb 0 interval)) [
          | inr unpaced ↦ rw (lt→ltb 0 repeat h, more, unpaced) (k, below)
          | inl paced ↦ elim (Bool-cases (wait s).1) [
            | inl done ↦ rw (lt→ltb 0 repeat h, more, paced, done) (waits s k)
            | inr go ↦ rw (lt→ltb 0 repeat h, more, paced, go) (waits s k, below)
          ]
        ]
  ]

  round-keeps :
      (repeat interval n : ℕ) (s : S)
      → 0 < repeat
      → n ≤ repeat
      → Keep s
      → RoundKeeps repeat n (round cancelled pass wait repeat interval n s)
  unfolding round
  round-keeps repeat interval n s h l k = elim (Bool-cases (cancelled s)) [
    | inl stop ↦ rw stop k
    | inr go ↦
        rw (go, lt→ltb 0 repeat h, le→ltb-false repeat n l, round)
          (after_pass-keeps repeat interval n (pass n s) h (passes n s k))
  ]

  one_round :
      (fuel repeat interval n : ℕ) (s : S) (r : Round S)
      → round cancelled pass wait repeat interval (n + 1) s ≡ r
      → RoundKeeps repeat (n + 1) r
      → ((s' : S)
          → n + 1 < repeat
          → Keep s'
          → (s'' : S) × (run_loop cancelled pass wait fuel repeat interval (n + 1) s' ≡ some s'')
            × Keep s'')
      → (s' : S) × (run_loop cancelled pass wait (suc fuel) repeat interval n s ≡ some s') × Keep s'
  unfolding run_loop
  one_round fuel repeat interval n s (return s') e k rest = (s', rw (e, run_loop), k)
  one_round fuel repeat interval n s (again s') e (k, more) rest =
      let (s'', same, k') = rest s' more k in (s'', rw (e, run_loop) same, k')

  run_loop-keeps :
      (left fuel repeat interval n : ℕ) (s : S)
      → n + suc left ≡ repeat
      → left < fuel
      → Keep s
      → (s' : S) × (run_loop cancelled pass wait fuel repeat interval n s ≡ some s') × Keep s'
  run_loop-keeps left zero repeat interval n s e f k = absurd (omega arith)
  run_loop-keeps zero (suc fuel) repeat interval n s e f k =
      one_round fuel repeat interval n s _ refl
        (round-keeps repeat interval (n + 1) s (omega arith) (omega arith) k)
        (λ s' more k'. absurd (omega arith))
  run_loop-keeps (suc left) (suc fuel) repeat interval n s e f k =
      one_round fuel repeat interval n s _ refl
        (round-keeps repeat interval (n + 1) s (omega arith) (omega arith) k)
        (λ s' more k'.
          run_loop-keeps left fuel repeat interval (n + 1) s' (omega arith) (omega arith) k')

  pub run-keeps :
      (repeat interval : ℕ) (s : S)
      → 0 < repeat
      → Keep s
      → (s' : S) × (run cancelled pass wait repeat repeat interval s ≡ some s') × Keep s'
  unfolding run
  run-keeps zero interval s h k = absurd (omega arith)
  run-keeps (suc left) interval s h k =
      run_loop-keeps left (suc left) (suc left) interval 0 s (omega arith) (omega arith) k
