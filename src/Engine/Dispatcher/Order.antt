-- ===== src/Engine/Dispatcher/Order.antt =====
-- In which order the dispatchers run their items, and how they stop.
use scrutineer.Prelude.{
  ℕ, zero, suc, ◌-◌, ◌≤◌, ◌<◌, ◌≡◌, refl, ap, inl, inr, Bool, true, false, List, [], ◌∷◌, arith,
  range, Bool-cases, length, get_or, set, take, length-set,
}
use mathlib.Core.List.{foldl, Perm, perm-cons}
use mathlib.Core.List.Perm
use scrutineer.Engine.Dispatcher.{swap, shuffle_from, random_order, dispatch_each}

replace_perm : (xs : List ℕ) (i v : ℕ) → i < length xs → Perm (get_or xs i 0 ∷ set xs i v) (v ∷ xs)
replace_perm [] i v h = absurd (omega arith)
replace_perm (x ∷ xs) zero v h = Perm.swap _ _ _
replace_perm (x ∷ xs) (suc i) v h =
    Perm.trans (Perm.swap _ _ _)
      (Perm.trans (Perm.cons x (replace_perm xs i v (omega arith))) (Perm.swap _ _ _))

get_or-set : (xs : List ℕ) (i j : ℕ) → get_or (set xs i (get_or xs j 0)) j 0 ≡ get_or xs j 0
get_or-set [] i j = refl
get_or-set (x ∷ xs) zero zero = refl
get_or-set (x ∷ xs) zero (suc j) = refl
get_or-set (x ∷ xs) (suc i) zero = refl
get_or-set (x ∷ xs) (suc i) (suc j) = get_or-set xs i j

swap-perm : (xs : List ℕ) (i j : ℕ) → i < length xs → j < length xs → Perm (swap xs i j) xs
unfolding swap
swap-perm xs i j hi hj =
    let b = get_or xs j 0 in
    let second = replace_perm (set xs i b) j (get_or xs i 0) (rw length-set hj) in
    (perm-cons b).0 (Perm.trans (rw get_or-set at second) (replace_perm xs i b hi))

length-swap : (xs : List ℕ) (i j : ℕ) → length (swap xs i j) ≡ length xs
unfolding swap
length-swap xs i j = rw (length-set, length-set)

shuffle_from-perm :
    (draw : ℕ → ℕ) (i : ℕ) (xs : List ℕ)
    → ((k : ℕ) → draw k ≤ k)
    → i < length xs
    → Perm (shuffle_from draw i xs) xs
unfolding shuffle_from
shuffle_from-perm draw zero xs hd h = Perm.refl xs
shuffle_from-perm draw (suc i) xs hd h =
    Perm.trans
      (shuffle_from-perm draw i (swap xs (suc i) (draw (suc i))) hd (rw length-swap (omega arith)))
      (swap-perm xs (suc i) (draw (suc i)) h (omega (arith, hd (suc i))))

length-range : (a n : ℕ) → length (range a n) ≡ n
unfolding range
length-range a zero = refl
length-range a (suc n) = ap suc (length-range (suc a) n)

-- RandomDispatcher's order holds each index below the count exactly once, whatever is drawn.
pub random_order-perm :
    (draw : ℕ → ℕ) (count : ℕ)
    → ((k : ℕ) → draw k ≤ k)
    → Perm (random_order draw count) (range 0 count)
unfolding random_order
random_order-perm draw zero hd = unfold shuffle_from range in Perm.refl []
random_order-perm draw (suc count) hd =
    shuffle_from-perm draw (suc count - 1) (range 0 (suc count)) hd (rw length-range (omega arith))

module _ {S : Type 0} (cancelled : S → Bool) (work : ℕ → S → S) where
  abbrev pub run_first : ℕ → List ℕ → S → S
  run_first k is s = foldl (λ s' i. work i s') s (take k is)

  alive_before_suc :
      (i : ℕ) (is : List ℕ) (s : S) (k : ℕ)
      → cancelled s ≡ false
      → ((j : ℕ) → j < k → cancelled (run_first j is (work i s)) ≡ false)
      → (j : ℕ) → j < suc k
      → cancelled (run_first j (i ∷ is) s) ≡ false
  alive_before_suc i is s k e h zero l = e
  alive_before_suc i is s k e h (suc j) l = h j (omega arith)

  -- A dispatcher runs the first `k` items of its order, one behind the other, for some `k`; it
  -- found the context alive before each of them, and it stops short only at a cancelled context.
  pub dispatch_each_prefix :
      (is : List ℕ) (s : S)
      → (k : ℕ) × (k ≤ length is)
        × (dispatch_each cancelled work is s ≡ run_first k is s)
        × ((j : ℕ) → j < k → cancelled (run_first j is s) ≡ false)
        × (k < length is → cancelled (run_first k is s) ≡ true)
  unfolding dispatch_each
  dispatch_each_prefix [] s =
      (0, omega arith, refl, λ j h. absurd (omega arith), λ h. absurd (omega arith))
  dispatch_each_prefix (i ∷ is) s = elim (Bool-cases (cancelled s)) [
    | inl e ↦ (0, omega arith, rw e, λ j h. absurd (omega arith), λ h. e)
    | inr e ↦
        let (k, few, same, alive, stop) = dispatch_each_prefix is (work i s) in
        (suc k, omega arith, rw e same, alive_before_suc i is s k e alive, λ h. stop (omega arith))
  ]
