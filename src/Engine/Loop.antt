-- ===== src/Engine/Loop.antt =====
-- core/engine/loop.go. Durations and the number of passes are not negative.
pub mod Passes
pub mod Keeps
pub mod Adds
use scrutineer.Prelude.{
  ℕ, zero, suc, ◌+◌, ◌-◌, ◌*◌, ◌/◌, ◌%◌, ◌^◌, ◌≤◌, ◌<◌, ◌≡◌, refl, sym, ap, ◌∙◌, ◌≢◌, ◌↔◌, ◌⊎◌, inl,
  inr, Bool, true, false, ◌&&◌, ◌||◌, not, Option, none, some, List, [], ◌∷◌, ◌++◌, map,
  append_assoc, append-nil, arith, GoMap, lookup, insert, keys, lookup-insert, lookup-insert_self,
  Bytes, Str, codes, str_eq, str_le, str_eq_iff, str_eq_refl, range, sum, ltb, leb, ◌==◌,
  if◌then◌else◌, Bool-cases, Option-cases, length, get_elem?, get_or, set, take, drop, All,
  length-append, length-set, take-length_append, drop-length_append, length-map, ltb→lt, lt→ltb,
  ltb-false, le→ltb-false, leb→le, ==_iff,
}

-- One round of the loop ends it or goes on.
pub data Round (S : Type 0) : Type 0 where
  return : S → Round S
  again : S → Round S

-- `cancelled s` is `runCtx.Err() != nil`, the deadline of `duration` included, `pass n` is passFn on
-- pass `n`, and `wait` is the select between runCtx.Done and the interval: `true` for Done.
module _ {S : Type 0} (cancelled : S → Bool) (pass : ℕ → S → S) (wait : S → S × Bool) where
  unfoldable pub after_pass : ℕ → ℕ → ℕ → S → Round S
  after_pass repeat interval n s =
      if ltb 0 repeat && leb repeat n
      then return s
      else if ltb 0 interval
      then (let (s', done) = wait s in if done then return s' else again s')
      else again s

  -- The body of the `for`; `n` is passNum, already incremented.
  unfoldable pub round : ℕ → ℕ → ℕ → S → Round S
  round repeat interval n s =
      if cancelled s
      then return s
      else if ltb 0 repeat && ltb repeat n
      then return s
      else after_pass repeat interval n (pass n s)

  -- The loop after `n` passes, on fuel; `none` is out of fuel.
  unfoldable pub run_loop : ℕ → ℕ → ℕ → ℕ → S → Option S
  run_loop zero repeat interval n s = none
  run_loop (suc fuel) repeat interval n s = elim (round repeat interval (n + 1) s) [
    | return s' ↦ some s'
    | again s' ↦ run_loop fuel repeat interval (n + 1) s'
  ]

  -- LoopController.Run
  unfoldable pub run : ℕ → ℕ → ℕ → S → Option S
  run fuel repeat interval s = run_loop fuel repeat interval 0 s
