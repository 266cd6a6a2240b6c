-- ===== src/Fleet/Weight/Spread.antt =====
-- The loop that distributes the remainder, against a plain recursion.
use scrutineer.Prelude.{
  ℕ, zero, suc, ◌+◌, ◌%◌, ◌≤◌, ◌<◌, ◌≡◌, refl, ap, inl, inr, some, List, [], ◌∷◌, ◌++◌,
  append_assoc, arith, ltb, if◌then◌else◌, Bool-cases, length, get_or, set, length-append,
}
use native.Mathlib.Nat.{mod-eq_of_lt}
use scrutineer.Fleet.Weight.{spread}

unfoldable pub positives : List ℕ → ℕ
positives [] = 0
positives (w ∷ ws) = (if ltb 0 w then 1 else 0) + positives ws

-- One more for each of the first `m` bins with a weight.
unfoldable pub bump : ℕ → List ℕ → List ℕ → List ℕ
bump zero ws rs = rs
bump (suc m) [] rs = rs
bump (suc m) (w ∷ ws) [] = []
bump (suc m) (w ∷ ws) (r ∷ rs) = if ltb 0 w then (r + 1) ∷ bump m ws rs else r ∷ bump (suc m) ws rs

get_or-append :
    (front : List ℕ) (x : ℕ) (back : List ℕ) → get_or (front ++ x ∷ back) (length front) 0 ≡ x
get_or-append [] x back = refl
get_or-append (y ∷ front) x back = get_or-append front x back

set-append :
    (front : List ℕ) (x v : ℕ) (back : List ℕ)
    → set (front ++ x ∷ back) (length front) v ≡ front ++ v ∷ back
set-append [] x v back = refl
set-append (y ∷ front) x v back = ap (◌∷◌ y) (set-append front x v back)

spread_step :
    (fuel i m : ℕ) (weights result : List ℕ)
    → i < length weights
    → spread (suc fuel) i (suc m) weights result ≡ (
        if ltb 0 (get_or weights i 0)
        then spread fuel (i + 1) m weights (set result i (get_or result i 0 + 1))
        else spread fuel (i + 1) (suc m) weights result)
unfolding spread
spread_step fuel i m weights result h =
    let e : i % length weights ≡ i = mod-eq_of_lt h in rw (e, spread) refl

-- What the loop reads and writes at the index behind `front` and `done`.
module _ (front done ws rs : List ℕ) (w r i : ℕ) (at_front : i ≡ length front)
    (at_done : i ≡ length done) where
  read_weight : get_or (front ++ w ∷ ws) i 0 ≡ w
  read_weight = rw at_front (get_or-append front w ws)

  write_result : set (done ++ r ∷ rs) i (get_or (done ++ r ∷ rs) i 0 + 1) ≡ done ++ (r + 1) ∷ rs
  write_result = rw (at_done, get_or-append done r rs) (set-append done r (r + 1) rs)

  in_range : i < length (front ++ w ∷ ws)
  in_range = omega (arith, length-append front (w ∷ ws))

-- One round of the loop, from what its rest gives.
one_round :
    (w : ℕ) (ws : List ℕ) (r : ℕ) (rs front done : List ℕ) (i m : ℕ)
    → suc m ≤ positives (w ∷ ws)
    → (m ≤ positives ws
        → spread
            (suc (length ws))
            (i + 1)
            m
            ((front ++ w ∷ []) ++ ws)
            ((done ++ (r + 1) ∷ []) ++ rs)
          ≡ some ((done ++ (r + 1) ∷ []) ++ bump m ws rs))
    → (suc m ≤ positives ws
        → spread
            (suc (length ws))
            (i + 1)
            (suc m)
            ((front ++ w ∷ []) ++ ws)
            ((done ++ r ∷ []) ++ rs)
          ≡ some ((done ++ r ∷ []) ++ bump (suc m) ws rs))
    → (if ltb 0 w
        then spread (suc (length ws)) (i + 1) m (front ++ w ∷ ws) (done ++ (r + 1) ∷ rs)
        else spread (suc (length ws)) (i + 1) (suc m) (front ++ w ∷ ws) (done ++ r ∷ rs))
      ≡ some (done ++ bump (suc m) (w ∷ ws) (r ∷ rs))
unfolding positives bump
one_round w ws r rs front done i m h given passed = elim (Bool-cases (ltb 0 w)) [
  | inl t ↦ let e : m ≤ positives ws = ground arith in rw t (simp append_assoc at (given e))
  | inr t ↦ let e : suc m ≤ positives ws = ground arith in rw t (simp append_assoc at (passed e))
]

-- The loop stands at index `i`, with `ws` and `rs` from there on.
pub spread-bump :
    (ws rs front done : List ℕ) (i m : ℕ)
    → length rs ≡ length ws
    → i ≡ length front
    → i ≡ length done
    → m ≤ positives ws
    → spread (suc (length ws)) i m (front ++ ws) (done ++ rs) ≡ some (done ++ bump m ws rs)
spread-bump ws rs front done i zero e f g h = unfold spread bump in refl
spread-bump [] rs front done i (suc m) e f g h = unfold positives in absurd (omega arith)
spread-bump (w ∷ ws) [] front done i (suc m) e f g h = absurd (omega arith)
spread-bump (w ∷ ws) (r ∷ rs) front done i (suc m) e f g h =
    let fr : i + 1 ≡ length (front ++ w ∷ []) = omega (arith, length-append front (w ∷ [])) in
    let given =
      spread-bump ws rs (front ++ w ∷ []) (done ++ (r + 1) ∷ []) (i + 1) m (omega arith) fr
        (omega (arith, length-append done ((r + 1) ∷ []))) in
    let passed =
      spread-bump ws rs (front ++ w ∷ []) (done ++ r ∷ []) (i + 1) (suc m) (omega arith) fr
        (omega (arith, length-append done (r ∷ []))) in
    rw
      (
        spread_step _ i m _ (done ++ r ∷ rs) (in_range front done ws rs w r i f g),
        read_weight front done ws rs w r i f g,
        write_result front done ws rs w r i f g,
      )
      (one_round w ws r rs front done i m h given passed)
