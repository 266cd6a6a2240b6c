-- ===== src/Engine/Loop/Adds.antt =====
-- What every pass adds to a measure, the loop adds as often as it repeats.
use scrutineer.Engine.Loop.{Round, return, again, after_pass, round, run_loop, run}
use scrutineer.Prelude.{
  ℕ, zero, suc, ◌+◌, ◌*◌, ◌≤◌, ◌<◌, ◌≡◌, refl, ◌∙◌, inl, inr, Bool, false, some, arith, ltb, leb,
  Bool-cases, lt→ltb, le→ltb-false,
}

module _ {S : Type 0} (cancelled : S → Bool) (pass : ℕ → S → S) (wait : S → S × Bool)
    (count : S → ℕ) (size : ℕ) (alive : (s : S) → cancelled s ≡ false)
    (waits : (s : S) → (wait s).1 ≡ false)
    (passes : (n : ℕ) (s : S) → count (pass n s) ≡ count s + size)
    (keeps : (s : S) → count (wait s).0 ≡ count s) where
  abbrev RoundAdds : ℕ → ℕ → S → Round S → Type 0
  RoundAdds repeat n s (return s') = (count s' ≡ count s + size) × (n ≡ repeat)
  RoundAdds repeat n s (again s') = (count s' ≡ count s + size) × (n < repeat)

  after_pass-adds :
      (repeat interval n : ℕ) (s t : S)
      → 0 < repeat
      → n ≤ repeat
      → count t ≡ count s + size
      → RoundAdds repeat n s (after_pass cancelled pass wait repeat interval n t)
  unfolding after_pass
  after_pass-adds repeat interval n s t h l e = elim (Bool-cases (leb repeat n)) [
    | inl last ↦ rw (lt→ltb 0 repeat h, last) (e, ground arith)
    | inr more ↦
        let below : n < repeat = ground arith in
        elim (Bool-cases (ltb 0 interval)) [
          | inr unpaced ↦ rw (lt→ltb 0 repeat h, more, unpaced) (e, below)
          | inl paced ↦ rw (lt→ltb 0 repeat h, more, paced, waits t) (keeps t ∙ e, below)
        ]
  ]

  round-adds :
      (repeat interval n : ℕ) (s : S)
      → 0 < repeat
      → n ≤ repeat
      → RoundAdds repeat n s (round cancelled pass wait repeat interval n s)
  unfolding round
  round-adds repeat interval n s h l =
      rw (alive s, lt→ltb 0 repeat h, le→ltb-false repeat n l, round)
        (after_pass-adds repeat interval n s (pass n s) h l (passes n s))

  abbrev Adds : ℕ → ℕ → ℕ → ℕ → S → Type 0
  Adds fuel repeat interval n s =
      (s' : S) × (run_loop cancelled pass wait fuel repeat interval n s ≡ some s')
      × (count s' + n * size ≡ count s + repeat * size)

  one_round :
      (fuel repeat interval n : ℕ) (s : S) (r : Round S)
      → round cancelled pass wait repeat interval (n + 1) s ≡ r
      → RoundAdds repeat (n + 1) s r
      → ((s' : S) → n + 1 < repeat → Adds fuel repeat interval (n + 1) s')
      → Adds (suc fuel) repeat interval n s
  unfolding run_loop
  one_round fuel repeat interval n s (return s') e (added, last) rest =
      (s', rw (e, run_loop), rw⁻¹ last (omega (arith, added)))
  one_round fuel repeat interval n s (again s') e (added, more) rest =
      let (end, same, total) = rest s' more in
      (end, rw (e, run_loop) same, omega (arith, added, total))

  run_loop-Adds :
      (left fuel repeat interval n : ℕ) (s : S)
      → n + suc left ≡ repeat
      → left < fuel
      → Adds fuel repeat interval n s
  run_loop-Adds left zero repeat interval n s e f = absurd (omega arith)
  run_loop-Adds zero (suc fuel) repeat interval n s e f =
      one_round fuel repeat interval n s _ refl
        (round-adds repeat interval (n + 1) s (omega arith) (omega arith))
        (λ s' more. absurd (omega arith))
  run_loop-Adds (suc left) (suc fuel) repeat interval n s e f =
      one_round fuel repeat interval n s _ refl
        (round-adds repeat interval (n + 1) s (omega arith) (omega arith))
        (λ s' more. run_loop-Adds left fuel repeat interval (n + 1) s' (omega arith) (omega arith))

  pub run-adds :
      (repeat interval : ℕ) (s : S)
      → 0 < repeat
      → (s' : S) × (run cancelled pass wait repeat repeat interval s ≡ some s')
        × (count s' ≡ count s + repeat * size)
  unfolding run
  run-adds zero interval s h = absurd (omega arith)
  run-adds (suc left) interval s h =
      let (s', same, total) =
        run_loop-Adds left (suc left) (suc left) interval 0 s (omega arith) (omega arith) in
      (s', same, omega (arith, total))
