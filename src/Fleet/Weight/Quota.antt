-- ===== src/Fleet/Weight/Quota.antt =====
-- What DistributeByWeight gives to each bin.
use scrutineer.Prelude.{
  ℕ, zero, suc, ◌+◌, ◌-◌, ◌*◌, ◌/◌, ◌%◌, ◌^◌, ◌≤◌, ◌<◌, ◌≡◌, refl, ap, inl, inr, true, false, some,
  List, [], ◌∷◌, map, arith, sum, ltb, ◌==◌, if◌then◌else◌, Bool-cases, length, get_or, lt→ltb,
  ltb-false,
}
use native.Mathlib.Nat.{mod-eq_of_lt, zero-div, mod-lt, div-add-mod, le_of_mul-le-mul_left}
use scrutineer.Fleet.Weight.{quotient, floors, remainder_of, distribute_by_weight}
use scrutineer.Fleet.Weight.Spread.{positives, bump, spread-bump}

sum-bump :
    (m : ℕ) (ws rs : List ℕ)
    → length rs ≡ length ws
    → m ≤ positives ws
    → sum (bump m ws rs) ≡ sum rs + m
unfolding bump sum positives
sum-bump zero ws rs e h = omega arith
sum-bump (suc m) [] rs e h = absurd (omega arith)
sum-bump (suc m) (w ∷ ws) [] e h = absurd (omega arith)
sum-bump (suc m) (w ∷ ws) (r ∷ rs) e h = ground (arith, sum-bump m ws rs, sum-bump (suc m) ws rs)

length-bump : (m : ℕ) (ws rs : List ℕ) → length rs ≡ length ws → length (bump m ws rs) ≡ length ws
unfolding bump
length-bump zero ws rs e = e
length-bump (suc m) [] rs e = e
length-bump (suc m) (w ∷ ws) [] e = e
length-bump (suc m) (w ∷ ws) (r ∷ rs) e =
    ground (arith, length-bump m ws rs, length-bump (suc m) ws rs)

-- A bin gets nothing more, or one more if it has a weight.
bump_bounds :
    (m : ℕ) (ws rs : List ℕ) (k : ℕ)
    → length rs ≡ length ws
    → (get_or rs k 0 ≤ get_or (bump m ws rs) k 0)
      × (get_or (bump m ws rs) k 0 ≤ get_or rs k 0 + 1)
      × (get_or ws k 0 ≡ 0 → get_or (bump m ws rs) k 0 ≡ get_or rs k 0)
unfolding bump
bump_bounds zero ws rs k e = (omega arith, omega arith, λ z. refl)
bump_bounds (suc m) [] rs k e = (omega arith, omega arith, λ z. refl)
bump_bounds (suc m) (w ∷ ws) [] k e = absurd (omega arith)
bump_bounds (suc m) (w ∷ ws) (r ∷ rs) zero e = ground arith
bump_bounds (suc m) (w ∷ ws) (r ∷ rs) (suc k) e =
    ground (arith, bump_bounds m ws rs k, bump_bounds (suc m) ws rs k)

-- The exact shares, rounded down.
unfoldable pub shares : ℕ → ℕ → List ℕ → List ℕ
shares total s [] = []
shares total s (w ∷ ws) = (total * w / s) ∷ shares total s ws

-- Where no product reaches 2^63, the floors are those shares.
floors-shares :
    (total s : ℕ) (ws : List ℕ)
    → s < 2 ^ 63
    → total * sum ws < 2 ^ 63
    → floors total s ws ≡ shares total s ws
unfolding floors shares sum quotient
floors-shares total s [] hs h = refl
floors-shares total s (w ∷ ws) hs h =
    let apart : total * (w + sum ws) ≡ total * w + total * sum ws = omega arith in
    let small : total * w < 2 ^ 63 = omega (arith, h, apart) in
    let rest : total * sum ws < 2 ^ 63 = omega (arith, h, apart) in
    let whole : total * w % 2 ^ 64 ≡ total * w = mod-eq_of_lt (omega (arith, small)) in
    rw (whole, lt→ltb (total * w) (2 ^ 63) small, lt→ltb s (2 ^ 63) hs)
      (ap (◌∷◌ (total * w / s)) (floors-shares total s ws hs rest))

remainder_of-sub :
    (total assigned : ℕ)
    → total < 2 ^ 63
    → assigned ≤ total
    → remainder_of total assigned ≡ total - assigned
unfolding remainder_of
remainder_of-sub total assigned h k =
    let low : assigned % 2 ^ 64 ≡ assigned = mod-eq_of_lt (omega arith) in
    let left : (total + (2 ^ 64 - assigned)) % 2 ^ 64 ≡ total - assigned = omega arith in
    let natural : ltb (total - assigned) (2 ^ 63) ≡ true = lt→ltb _ _ (omega arith) in
    rw (low, left, natural) refl

map-mod : (xs : List ℕ) → sum xs < 2 ^ 64 → map (λ r. r % 2 ^ 64) xs ≡ xs
unfolding sum
map-mod [] h = refl
map-mod (x ∷ xs) h =
    let small : x % 2 ^ 64 ≡ x = mod-eq_of_lt (omega arith) in
    rw small (ap (◌∷◌ x) (map-mod xs (omega arith)))

length-shares : (total s : ℕ) (ws : List ℕ) → length (shares total s ws) ≡ length ws
unfolding shares
length-shares total s [] = refl
length-shares total s (w ∷ ws) = ap suc (length-shares total s ws)

-- Neither factor exceeds the product.
factors_below : (a b : ℕ) → 0 < a → 0 < b → a * b < 2 ^ 63 → (a < 2 ^ 63) × (b < 2 ^ 63)
factors_below zero b ha hb h = elim ha [ ]
factors_below (suc a) zero ha hb h = elim hb [ ]
factors_below (suc a) (suc b) ha hb h = (omega (arith, h), omega (arith, h))

get_or-shares :
    (total s : ℕ) (ws : List ℕ) (k : ℕ) → get_or (shares total s ws) k 0 ≡ total * get_or ws k 0 / s
unfolding shares
get_or-shares total s [] k = let e : total * 0 ≡ 0 = omega arith in rw (e, zero-div)
get_or-shares total s (w ∷ ws) zero = refl
get_or-shares total s (w ∷ ws) (suc k) = get_or-shares total s ws k

-- The shares leave less than one for each bin with a weight.
shares_below :
    (total s : ℕ) (ws : List ℕ)
    → 0 < s
    → (s * sum (shares total s ws) ≤ total * sum ws)
      × (total * sum ws ≤ s * (sum (shares total s ws) + positives ws))
unfolding shares sum positives
shares_below total s [] h = (omega arith, omega arith)
shares_below total s (w ∷ ws) h =
    let whole = div-add-mod (total * w) s in
    let part = mod-lt (total * w) h in
    elim (Bool-cases (ltb 0 w)) [
      | inl t ↦ rw t (omega (arith, shares_below total s ws h))
      | inr t ↦
          let none_left : total * w ≡ total * 0 =
            ap (λ (v : ℕ). total * v) (omega (arith, ltb-false 0 w t)) in
          rw t (omega (arith, shares_below total s ws h))
    ]

-- The remainder is at most one for each bin with a weight.
remainder_bounds :
    (total : ℕ) (ws : List ℕ)
    → 0 < sum ws
    → (sum (shares total (sum ws) ws) ≤ total)
      × (total - sum (shares total (sum ws) ws) ≤ positives ws)
remainder_bounds total ws h =
    let (low, high) = shares_below total (sum ws) ws h in
    let low' : sum ws * sum (shares total (sum ws) ws) ≤ sum ws * total = omega (arith, low) in
    let high' : sum ws * total ≤ sum ws * (sum (shares total (sum ws) ws) + positives ws) =
      omega (arith, high) in
    omega (arith, le_of_mul-le-mul_left low' h, le_of_mul-le-mul_left high' h)

distribute_loop :
    (ws : List ℕ) (total : ℕ)
    → 0 < total
    → 0 < sum ws
    → total * sum ws < 2 ^ 63
    → distribute_by_weight (suc (length ws)) ws total
      ≡ some (bump (total - sum (shares total (sum ws) ws)) ws (shares total (sum ws) ws))
unfolding distribute_by_weight
distribute_loop [] total ht h hb = unfold sum in absurd (omega arith)
distribute_loop (w ∷ ws) total ht h hb =
    let s = sum (w ∷ ws) in
    let fs = shares total s (w ∷ ws) in
    let m = total - sum fs in
    let (fits, few) = remainder_bounds total (w ∷ ws) h in
    let (low_total, low_sum) = factors_below total s ht h hb in
    let no_total : (total == 0) ≡ false = ground arith in
    let no_length : (length (w ∷ ws) == 0) ≡ false = ground arith in
    let whole : s % 2 ^ 64 ≡ s = mod-eq_of_lt (omega arith) in
    let no_sum : (s == 0) ≡ false = ground arith in
    let size : length fs ≡ length (w ∷ ws) = length-shares total s (w ∷ ws) in
    let exact : sum (bump m (w ∷ ws) fs) < 2 ^ 64 =
      omega (arith, sum-bump m (w ∷ ws) fs size few, fits) in
    rw
      (
        no_length,
        no_total,
        whole,
        no_sum,
        floors-shares total s (w ∷ ws) low_sum hb,
        remainder_of-sub total (sum fs) low_total fits,
        spread-bump (w ∷ ws) fs [] [] 0 m size refl refl few,
        map-mod (bump m (w ∷ ws) fs) exact,
      )
      refl

-- With a total and a weight above zero, and the total times the sum of the weights below 2^63, where no
-- int overflows, DistributeByWeight ends within one round over the bins, gives out the whole total,
-- and gives each bin its exact share rounded down or one more, and nothing to a bin with no weight.
pub distribute_by_weight_quota :
    (weights : List ℕ) (total : ℕ)
    → 0 < total
    → 0 < sum weights
    → total * sum weights < 2 ^ 63
    → (result : List ℕ) × (distribute_by_weight (suc (length weights)) weights total ≡ some result)
      × (length result ≡ length weights)
      × (sum result ≡ total)
      × ((k : ℕ) → total * get_or weights k 0 / sum weights ≤ get_or result k 0)
      × ((k : ℕ)
          → get_or result k 0
            ≤ total * get_or weights k 0 / sum weights
              + (if ltb 0 (get_or weights k 0) then 1 else 0))
distribute_by_weight_quota ws total ht h hb =
    let s = sum ws in
    let fs = shares total s ws in
    let m = total - sum fs in
    let size = length-shares total s ws in
    let (fits, few) = remainder_bounds total ws h in
    (
      bump m ws fs,
      distribute_loop ws total ht h hb,
      length-bump m ws fs size,
      omega (arith, sum-bump m ws fs size few),
      λ k. omega (arith, bump_bounds m ws fs k size, get_or-shares total s ws k),
      λ k. ground (arith, bump_bounds m ws fs k size, get_or-shares total s ws k),
    )
