-- ===== src/Fleet/Tests.antt =====
-- Runs of core/fleet on concrete weights, and its theorems at concrete inputs.
use scrutineer.Prelude.{
  ℕ, ◌+◌, ◌*◌, ◌/◌, ◌≤◌, ◌≡◌, refl, some, List, [], ◌∷◌, arith, sum, ltb, if◌then◌else◌, length,
  get_or,
}
use scrutineer.Fleet.Weight.{floors, quotient, remainder_of, spread, distribute_by_weight}
use scrutineer.Fleet.Weight.Quota.{distribute_by_weight_quota}

abbrev uneven : List ℕ
uneven = 1 ∷ 2 ∷ 0 ∷ 4 ∷ []

distribute_uneven : distribute_by_weight 5 uneven 10 ≡ some (2 ∷ 3 ∷ 0 ∷ 5 ∷ [])
unfolding distribute_by_weight floors quotient remainder_of spread sum
distribute_uneven = refl

-- The remainder goes to the first bin, which is not the heavier one.
remainder_goes_first : distribute_by_weight 3 (1 ∷ 2 ∷ []) 1 ≡ some (1 ∷ 0 ∷ [])
unfolding distribute_by_weight floors quotient remainder_of spread sum
remainder_goes_first = refl

distribute_by_weight_quota_example :
    (result : List ℕ) × (distribute_by_weight 5 uneven 10 ≡ some result)
    × (length result ≡ 4)
    × (sum result ≡ 10)
    × ((k : ℕ) → 10 * get_or uneven k 0 / sum uneven ≤ get_or result k 0)
    × ((k : ℕ)
        → get_or result k 0
          ≤ 10 * get_or uneven k 0 / sum uneven + (if ltb 0 (get_or uneven k 0) then 1 else 0))
unfolding sum
distribute_by_weight_quota_example =
    distribute_by_weight_quota uneven 10 (omega arith) (omega arith) (omega arith)
