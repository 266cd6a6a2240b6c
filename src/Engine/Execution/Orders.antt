-- ===== src/Engine/Execution/Orders.antt =====
-- What the orders of a dispatcher add up to.
use mathlib.Core.List.{Perm, foldr}
use mathlib.Core.List.Perm
use native.Mathlib.Nat.{ℕ_set}
use mathlib.Core.Path.{subst}
use scrutineer.Engine.Dispatcher.{new_dispatcher, dispatch_each}
use scrutineer.Engine.Dispatcher.Order.{random_order-perm}
use scrutineer.Engine.Runner.Types.{Deps}
use scrutineer.Schema.Types.{mode_weighted, mode_random, mode_concurrent}
use scrutineer.Engine.Suite.Types.{SuiteHappening, SuiteResult, Engine, SuiteState}
use scrutineer.Engine.Execution.{Surroundings, dispatch_order, at_index, dispatch, stopped}
use scrutineer.Prelude.{
  ℕ, zero, suc, ◌+◌, ◌≤◌, ◌≡◌, refl, sym, ap, ◌∙◌, inl, inr, false, Option, none, some, List, [],
  ◌∷◌, map, arith, Str, str_eq, range, sum, Bool-cases, Option-cases, length, get_elem?, All,
}

sum-foldr : (f : ℕ → ℕ) (xs : List ℕ) → sum (map f xs) ≡ foldr (λ i n. f i + n) 0 xs
unfolding sum
sum-foldr f [] = refl
sum-foldr f (x ∷ xs) = ap (λ n. f x + n) (sum-foldr f xs)

sum-Perm : (f : ℕ → ℕ) (xs ys : List ℕ) → Perm xs ys → sum (map f xs) ≡ sum (map f ys)
sum-Perm f xs ys p =
    sum-foldr f xs
    ∙ Perm.foldr-eq ℕ_set (λ i n. f i + n) (λ a b n. omega arith) p 0
    ∙ sym (sum-foldr f ys)

-- The size of an item by its index.
abbrev pub size_at : {I : Type 0} → (I → ℕ) → List I → ℕ → ℕ
size_at size [] i = 0
size_at size (item ∷ items) zero = size item
size_at size (item ∷ items) (suc i) = size_at size items i

sum-shift :
    (f : ℕ → ℕ) (a n : ℕ) → sum (map f (range (suc a) n)) ≡ sum (map (λ i. f (suc i)) (range a n))
unfolding sum range
sum-shift f a zero = refl
sum-shift f a (suc n) = ap (λ m. f (suc a) + m) (sum-shift f (suc a) n)

sum-range :
    {I : Type 0} (size : I → ℕ) (items : List I)
    → sum (map (size_at size items) (range 0 (length items))) ≡ sum (map size items)
unfolding sum range
sum-range size [] = refl
sum-range size (item ∷ items) =
    ap (λ n. size item + n)
      (sum-shift (size_at size (item ∷ items)) 0 (length items) ∙ sum-range size items)

abbrev size_or_zero : {I : Type 0} → (I → ℕ) → Option I → ℕ
size_or_zero size none = 0
size_or_zero size (some item) = size item

size_at-get_elem? :
    {I : Type 0} (size : I → ℕ) (items : List I) (i : ℕ)
    → size_at size items i ≡ size_or_zero size (get_elem? items i)
size_at-get_elem? size [] i = refl
size_at-get_elem? size (item ∷ items) zero = refl
size_at-get_elem? size (item ∷ items) (suc i) = size_at-get_elem? size items i

All-get_elem? :
    {I : Type 0} (P : I → Type 0) (items : List I) (i : ℕ) (item : I)
    → All P items
    → get_elem? items i ≡ some item
    → P item
All-get_elem? P [] i item h e = cc
All-get_elem? P (first ∷ items) zero item (h, hs) e =
    (let same : first ≡ item = cc in subst P same h)
All-get_elem? P (first ∷ items) (suc i) item (h, hs) e = All-get_elem? P items i item hs e

-- A measure of a result and of what was told.
abbrev pub gauge :
    {W : Type 0} → (SuiteResult → List SuiteHappening → ℕ) → SuiteResult × SuiteState W → ℕ
gauge measure p = measure p.0 p.1.trace

-- The work on an item adds its size to a measure.
abbrev pub Adds :
    {I W : Type 0}
    → (I → ℕ)
    → (I → SuiteResult × SuiteState W → SuiteResult × SuiteState W)
    → (SuiteResult → List SuiteHappening → ℕ)
    → I
    → Type 0
Adds {I} {W} size work measure item =
    (p : SuiteResult × SuiteState W) → gauge measure (work item p) ≡ gauge measure p + size item

-- What the random numbers and the arrivals of concurrent items are like.
pub record Fair {W V : Type 0} (x : Surroundings W V) : Type 0 where
  pub shuffles : (w : W) (k : ℕ) → (x.shuffle w).0 k ≤ k
  pub arrives : (n count : ℕ) (w : W) → Perm (x.arrivals n count w).0 (range 0 count)

module _ {W C A V : Type 0} (d : Deps W C A V) (e : Engine V) (x : Surroundings W V) (fair : Fair x)
    (never : (w : W) → x.is_stopped w ≡ false) where
  dispatch_order-Perm :
      (mode : Str) (concurrency : ℕ) (weights : List ℕ) (count : ℕ) (w : W)
      → str_eq mode mode_weighted ≡ false
      → Perm
          (dispatch_order d e x (new_dispatcher mode concurrency weights) count w).0
          (range 0 count)
  unfolding new_dispatcher dispatch_order
  dispatch_order-Perm mode concurrency weights count w h =
      elim (Bool-cases (str_eq mode mode_random)) [
        | inl random ↦ rw random (random_order-perm (x.shuffle w).0 count (fair.shuffles w))
        | inr other ↦ elim (Bool-cases (str_eq mode mode_concurrent)) [
          | inl concurrent ↦ rw (other, concurrent) (fair.arrives _ count w)
          | inr sequential ↦ rw (other, sequential, h) (Perm.refl _)
        ]
      ]

  -- Where the work on each item adds its size to a measure, a dispatcher that is never stopped adds
  -- the sizes of all items.
  module _ {I : Type 0} (items : List I) (size : I → ℕ)
      (work : I → SuiteResult × SuiteState W → SuiteResult × SuiteState W)
      (measure : SuiteResult → List SuiteHappening → ℕ)
      (adds : All (Adds size work measure) items) where
    at_index_adds :
        (i : ℕ) (p : SuiteResult × SuiteState W)
        → gauge measure (at_index d e x items work i p) ≡ gauge measure p + size_at size items i
    unfolding at_index
    at_index_adds i p =
        let of_get = size_at-get_elem? size items i in
        elim (Option-cases (get_elem? items i)) [
          | inl gone ↦ rw (gone, at_index) (rw (of_get, gone) (omega arith))
          | inr (item, found) ↦
              rw (found, at_index) (rw (of_get, found) (All-get_elem? _ items i item adds found p))
        ]

    dispatch_each_adds :
        (order : List ℕ) (p : SuiteResult × SuiteState W)
        → gauge measure (dispatch_each (stopped d e x) (at_index d e x items work) order p)
          ≡ gauge measure p + sum (map (size_at size items) order)
    unfolding dispatch_each sum
    dispatch_each_adds [] p = omega arith
    dispatch_each_adds (i ∷ is) p =
        rw (never p.1.world)
          (omega (arith, dispatch_each_adds is (at_index d e x items work i p), at_index_adds i p))

    pub dispatch_adds :
        (mode : Str) (concurrency : ℕ) (weights : List ℕ) (p : SuiteResult × SuiteState W)
        → str_eq mode mode_weighted ≡ false
        → gauge measure (
            dispatch d e x
              (new_dispatcher mode concurrency weights)
              (length items)
              (at_index d e x items work)
              p)
          ≡ gauge measure p + sum (map size items)
    unfolding dispatch
    dispatch_adds mode concurrency weights (sr, s) h =
        let chosen =
          dispatch_order d e x (new_dispatcher mode concurrency weights) (length items) s.world in
        dispatch_each_adds chosen.0 (sr, record s { world = chosen.1 })
        ∙ ap (λ n. measure sr s.trace + n)
            (sum-Perm (size_at size items) _ _
                (dispatch_order-Perm mode concurrency weights (length items) s.world h)
              ∙ sum-range size items)
