-- ===== src/Fleet/Weight.antt =====
-- core/fleet/weight.go. A weight and a total are not negative (core/schema/validate.go refuses a weight
-- that is), and below 2^63. The sum, the products and what is computed from them are an `int`: its
-- 64-bit two's complement pattern, which wraps.
pub mod Shares
pub mod Spread
pub mod Quota
use mathlib.Core.Option
use scrutineer.Prelude.{
  ℕ, zero, suc, ◌+◌, ◌-◌, ◌*◌, ◌/◌, ◌%◌, ◌^◌, ◌≤◌, ◌<◌, ◌≡◌, refl, sym, ap, ◌∙◌, ◌≢◌, ◌↔◌, ◌⊎◌, inl,
  inr, Bool, true, false, ◌&&◌, ◌||◌, not, Option, none, some, List, [], ◌∷◌, ◌++◌, map,
  append_assoc, append-nil, arith, GoMap, lookup, insert, keys, lookup-insert, lookup-insert_self,
  Bytes, Str, codes, str_eq, str_le, str_eq_iff, str_eq_refl, range, sum, ltb, leb, ◌==◌,
  if◌then◌else◌, Bool-cases, Option-cases, length, get_elem?, get_or, set, take, drop, All,
  length-append, length-set, take-length_append, drop-length_append, length-map, ltb→lt, lt→ltb,
  ltb-false, le→ltb-false, leb→le, ==_iff,
}

-- The loop of SelectByWeight over the weights from index `i` on. Where the list ends the result is
-- `len(weights) - 1`.
unfoldable pub select_loop : List ℕ → ℕ → ℕ → ℕ → ℕ
select_loop [] r cumulative i = i - 1
select_loop (w ∷ ws) r cumulative i =
    if ltb r (cumulative + w) then i else select_loop ws r (cumulative + w) (i + 1)

-- SelectByWeight; `draw n` is `rng.IntN(n)`.
unfoldable pub select_by_weight : List ℕ → (ℕ → ℕ) → ℕ
select_by_weight weights draw =
    if sum weights == 0 then 0 else select_loop weights (draw (sum weights)) 0 0

-- An `int` by its pattern: whether it is not negative, its magnitude, and the one of opposite sign.
abbrev pub is_natural : ℕ → Bool
is_natural a = ltb a (2 ^ 63)

abbrev pub magnitude : ℕ → ℕ
magnitude a = if is_natural a then a else 2 ^ 64 - a

abbrev pub negated : ℕ → ℕ
negated a = (2 ^ 64 - a) % 2 ^ 64

-- a / b, which truncates toward zero.
unfoldable pub quotient : ℕ → ℕ → ℕ
quotient a b =
    let q = magnitude a / magnitude b in
    if is_natural a
    then (if is_natural b then q else negated q)
    else if is_natural b
    then negated q
    else q

-- `result[i] = total * w / weightSum`
unfoldable pub floors : ℕ → ℕ → List ℕ → List ℕ
floors total weight_sum [] = []
floors total weight_sum (w ∷ ws) =
    quotient (total * w % 2 ^ 64) weight_sum ∷ floors total weight_sum ws

-- `total - assigned`, and 0 for a negative one, at which the loop does not start either.
unfoldable pub remainder_of : ℕ → ℕ → ℕ
remainder_of total assigned =
    let left = (total + (2 ^ 64 - assigned % 2 ^ 64)) % 2 ^ 64 in
    if is_natural left then left else 0

-- `for i := 0; remainder > 0; i++`, on fuel; `none` is out of fuel.
unfoldable pub spread : ℕ → ℕ → ℕ → List ℕ → List ℕ → Option (List ℕ)
spread zero i remainder weights result = none
spread (suc fuel) i zero weights result = some result
spread (suc fuel) i (suc remainder) weights result =
    let idx = i % length weights in
    let given = spread fuel (i + 1) remainder weights (set result idx (get_or result idx 0 + 1)) in
    let passed = spread fuel (i + 1) (suc remainder) weights result in
    if ltb 0 (get_or weights idx 0) then given else passed

-- DistributeByWeight; the counts wrap at the end.
unfoldable pub distribute_by_weight : ℕ → List ℕ → ℕ → Option (List ℕ)
distribute_by_weight fuel weights total =
    let weight_sum = sum weights % 2 ^ 64 in
    if length weights == 0 || total == 0
    then some (map (λ w. 0) weights)
    else if weight_sum == 0
    then some (map (λ w. 0) weights)
    else (let result = floors total weight_sum weights in
        Option.map (map (λ r. r % 2 ^ 64))
          (spread fuel 0 (remainder_of total (sum result)) weights result))
