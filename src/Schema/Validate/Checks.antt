-- ===== src/Schema/Validate/Checks.antt =====
-- When a run of checks adds nothing: one lemma for each shape that the validation has.
use scrutineer.Prelude.{
  ℕ, ◌^◌, ◌<◌, ◌≡◌, refl, ◌↔◌, ◌⊎◌, inl, inr, Bool, true, false, ◌&&◌, not, List, [], ◌∷◌, ◌++◌,
  arith, Str, if◌then◌else◌, All,
}
use scrutineer.Schema.Validate.{Problem, is_negative, is_empty, add_if}

module _ {P Q : Type 0} where
  -- One check in front of the others, and the last one.
  pub with_check :
      (c : Bool) (p : Problem) {ys : List Problem}
      → ((c ≡ false) ↔ P)
      → ((ys ≡ []) ↔ Q)
      → (add_if c p ++ ys ≡ []) ↔ (P × Q)
  unfolding add_if
  with_check true p (f, g) (h, k) = (λ e. cc, λ (a, b). cc (g a))
  with_check false p (f, g) (h, k) = (λ e. (f refl, h e), λ (a, b). k b)

  pub with_list :
      {xs ys : List Problem} → ((xs ≡ []) ↔ P) → ((ys ≡ []) ↔ Q) → (xs ++ ys ≡ []) ↔ (P × Q)
  with_list {xs = []} (f, g) (h, k) = (λ e. (f refl, h e), λ (a, b). k b)
  with_list {xs = x ∷ xs} (f, g) (h, k) = (λ e. cc, λ (a, b). cc (g a))

pub last_check : {P : Type 0} (c : Bool) (p : Problem) → ((c ≡ false) ↔ P) → (add_if c p ≡ []) ↔ P
unfolding add_if
last_check true p (f, g) = (λ e. cc, λ a. cc (g a))
last_check false p (f, g) = (λ e. f refl, λ a. refl)

pub given : {P : Type 0} → P ↔ P
given = (λ a. a, λ a. a)

pub not_negative : (x : ℕ) → (is_negative x ≡ false) ↔ (x < 2 ^ 63)
not_negative x = ground arith

-- A text that is either left out or passes a test.
pub optional :
    (s : Str) (b : Bool) → ((not (is_empty s) && not b) ≡ false) ↔ ((s ≡ []) ⊎ (b ≡ true))
optional [] b = (λ e. inl refl, λ h. refl)
optional (c ∷ s) true = (λ e. inr refl, λ h. refl)
optional (c ∷ s) false = (λ e. cc, λ h. elim h [ inl e ↦ cc | inr e ↦ cc ])

-- One of two tests has to fail.
pub not_both : (a b : Bool) → ((a && b) ≡ false) ↔ ((a ≡ false) ⊎ (b ≡ false))
not_both true b = (λ e. inr e, λ h. elim h [ inl e ↦ cc | inr e ↦ e ])
not_both false b = (λ e. inl refl, λ h. refl)

-- The lists are checked only if they hold something.
pub guarded :
    {A : Type 0} (xs : List A) (P : A → Type 0) (ps : List Problem)
    → ((ps ≡ []) ↔ All P xs)
    → ((if not (is_empty xs) then ps else []) ≡ []) ↔ All P xs
guarded [] P ps h = (λ e. tt, λ a. refl)
guarded (x ∷ xs) P ps h = h
