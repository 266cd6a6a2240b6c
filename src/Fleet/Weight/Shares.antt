-- ===== src/Fleet/Weight/Shares.antt =====
-- Each index is selected for as many draws as its weight.
use scrutineer.Prelude.{
  ℕ, zero, suc, ◌+◌, ◌≤◌, ◌<◌, ◌≡◌, refl, Bool, true, false, List, [], ◌∷◌, arith, sum, ◌==◌,
  if◌then◌else◌, length, get_or,
}
use native.Mathlib.Nat.{zero-add, add-zero, suc-add}
use scrutineer.Fleet.Weight.{select_loop}

-- How many of the `n` numbers from `a` on pass the test.
unfoldable pub hits : (ℕ → Bool) → ℕ → ℕ → ℕ
hits p a zero = 0
hits p a (suc n) = (if p a then 1 else 0) + hits p (suc a) n

hits-append : (p : ℕ → Bool) (a n m : ℕ) → hits p a (n + m) ≡ hits p a n + hits p (a + n) m
unfolding hits
hits-append p a zero m = rw (zero-add, add-zero) (omega arith)
hits-append p a (suc n) m =
    let e : suc a + n ≡ a + suc n = omega arith in
    rw (suc-add, ← e) (omega (arith, hits-append p (suc a) n m))

hits_all : (p : ℕ → Bool) (a n : ℕ) → ((r : ℕ) → a ≤ r → r < a + n → p r ≡ true) → hits p a n ≡ n
unfolding hits
hits_all p a zero h = refl
hits_all p a (suc n) h =
    rw (h a (omega arith) (omega arith))
      (omega (arith, hits_all p (suc a) n (λ r l u. h r (omega arith) (omega arith))))

hits_none : (p : ℕ → Bool) (a n : ℕ) → ((r : ℕ) → a ≤ r → r < a + n → p r ≡ false) → hits p a n ≡ 0
unfolding hits
hits_none p a zero h = refl
hits_none p a (suc n) h =
    rw (h a (omega arith) (omega arith))
      (omega (arith, hits_none p (suc a) n (λ r l u. h r (omega arith) (omega arith))))

-- A draw below the sum selects one of the indices from `i` on.
select_loop_range :
    (ws : List ℕ) (r cumulative i : ℕ)
    → r < cumulative + sum ws
    → cumulative ≤ r
    → (i ≤ select_loop ws r cumulative i) × (select_loop ws r cumulative i < i + length ws)
unfolding select_loop sum
select_loop_range [] r c i h l = absurd (omega arith)
select_loop_range (w ∷ ws) r c i h l = ground (arith, select_loop_range ws r (c + w) (i + 1))

hits_ext :
    (p q : ℕ → Bool) (a n : ℕ) → ((r : ℕ) → a ≤ r → r < a + n → p r ≡ q r) → hits p a n ≡ hits q a n
unfolding hits
hits_ext p q a zero h = refl
hits_ext p q a (suc n) h = rw (
  h a (omega arith) (omega arith),
  hits_ext p q (suc a) n (λ r l u. h r (omega arith) (omega arith)),
)

-- The test whether the draw `r` selects index `k` behind `i`.
abbrev selects : List ℕ → ℕ → ℕ → ℕ → ℕ → Bool
selects ws c i k r = select_loop ws r c i == i + k

selects_first :
    (w : ℕ) (ws : List ℕ) (c i k r : ℕ) → r < c + w → selects (w ∷ ws) c i k r ≡ (k == 0)
unfolding select_loop
selects_first w ws c i k r h = ground arith

selects_later :
    (w : ℕ) (ws : List ℕ) (c i k r : ℕ)
    → c + w ≤ r
    → selects (w ∷ ws) c i (suc k) r ≡ selects ws (c + w) (i + 1) k r
unfolding select_loop
selects_later w ws c i k r h = ground arith

selects_not_first :
    (w : ℕ) (ws : List ℕ) (c i r : ℕ)
    → c + w ≤ r
    → r < c + w + sum ws
    → selects (w ∷ ws) c i 0 r ≡ false
unfolding select_loop
selects_not_first w ws c i r h u = ground (arith, select_loop_range ws r (c + w) (i + 1))

shares : (ws : List ℕ) (c i k : ℕ) → hits (selects ws c i k) c (sum ws) ≡ get_or ws k 0
unfolding sum
shares [] c i k = unfold hits in refl
shares (w ∷ ws) c i zero = rw (hits-append _ c w (sum ws)) (
    omega (
      arith,
      hits_all (selects (w ∷ ws) c i 0) c w (λ r l u. selects_first w ws c i 0 r u),
      hits_none (selects (w ∷ ws) c i 0) (c + w) (sum ws)
          (λ r l u. selects_not_first w ws c i r l u),
    ))
shares (w ∷ ws) c i (suc k) = rw (hits-append _ c w (sum ws)) (
    omega (
      arith,
      hits_none (selects (w ∷ ws) c i (suc k)) c w
          (λ r l u. ground (arith, selects_first w ws c i (suc k) r u)),
      hits_ext (selects (w ∷ ws) c i (suc k)) (selects ws (c + w) (i + 1) k) (c + w) (sum ws)
          (λ r l u. selects_later w ws c i k r l),
      shares ws (c + w) (i + 1) k,
    ))
