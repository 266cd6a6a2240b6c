-- ===== src/Retry.antt =====
-- core/retry/retry.go and core/retry/wait.go. What the caller passes in and what the runtime decides
-- (the function, the context, the timers) is a parameter over a state `W`; an error is an `E`. Each
-- function also returns the outcomes of its calls, in their order.
pub mod Course
mod Tests
use scrutineer.Prelude.{
  ℕ, zero, suc, ◌+◌, ◌-◌, ◌*◌, ◌/◌, ◌%◌, ◌^◌, ◌≤◌, ◌<◌, ◌≡◌, refl, sym, ap, ◌∙◌, ◌≢◌, ◌↔◌, ◌⊎◌, inl,
  inr, Bool, true, false, ◌&&◌, ◌||◌, not, Option, none, some, List, [], ◌∷◌, ◌++◌, map,
  append_assoc, append-nil, arith, GoMap, lookup, insert, keys, lookup-insert, lookup-insert_self,
  Bytes, Str, codes, str_eq, str_le, str_eq_iff, str_eq_refl, range, sum, ltb, leb, ◌==◌,
  if◌then◌else◌, Bool-cases, Option-cases, length, get_elem?, get_or, set, take, drop, All,
  length-append, length-set, take-length_append, drop-length_append, length-map, ltb→lt, lt→ltb,
  ltb-false, le→ltb-false, leb→le, ==_iff,
}

-- ctx.Err, fn, and the select behind a failed attempt: `none` after the wait, or the context's error.
pub record Calls (W E : Type 0) : Type 0 where
  pub ctx_err : W → Option E × W
  pub fn : W → Option E × W
  pub pause : ℕ → W → Option E × W

-- Policy. `scaled n` is InitialWait * Multiplier^n, which the code computes in float64.
pub record Policy : Type 0 where
  pub max_attempts : ℕ
  pub max_wait : ℕ
  pub scaled : ℕ → ℕ

-- wait = min(InitialWait * Multiplier^attempt, MaxWait)
unfoldable pub backoff : Policy → ℕ → ℕ
backoff policy attempt =
    if ltb policy.max_wait (policy.scaled attempt) then policy.max_wait else policy.scaled attempt

-- What Do returns, the outcomes of the calls of fn, and the state.
pub record Ended (W E : Type 0) : Type 0 where
  pub result : Option E
  pub outcomes : List (Option E)
  pub world : W

module _ {W E : Type 0} (calls : Calls W E) where
  abbrev pub before_it : Option E → Ended W E → Ended W E
  before_it outcome ended = record ended { outcomes = outcome ∷ ended.outcomes }

  abbrev pub ended : Option E → List (Option E) → W → Ended W E
  ended result outcomes w = record { result = result; outcomes = outcomes; world = w }

  -- The loop of Do at `attempt`, with `left` attempts left and the last error so far.
  unfoldable pub attempts : Policy → ℕ → ℕ → Option E → W → Ended W E
  attempts policy attempt zero last_err w = ended last_err [] w
  attempts policy attempt (suc left) last_err w =
      let (stopped, w1) = calls.ctx_err w in
      elim stopped [
        | some e ↦ ended (some e) [] w1
        | none ↦
            let (outcome, w2) = calls.fn w1 in
            elim outcome [
              | none ↦ ended none (none ∷ []) w2
              | some e ↦ elim left [
                | zero ↦ ended (some e) (some e ∷ []) w2
                | suc n ↦
                    let (cancelled, w3) = calls.pause (backoff policy attempt) w2 in
                    elim cancelled [
                      | some c ↦ ended (some c) (some e ∷ []) w3
                      | none ↦ before_it (some e) (attempts policy (attempt + 1) left (some e) w3)
                    ]
              ]
            ]
      ]

  -- Do
  unfoldable pub run : Policy → W → Ended W E
  run policy w = attempts policy 0 policy.max_attempts none w
