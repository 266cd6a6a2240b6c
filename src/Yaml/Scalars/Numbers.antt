-- ===== src/Yaml/Scalars/Numbers.antt =====
-- Integers of any length, against the 64 bits that they are kept in.
use scrutineer.Prelude.{ℕ, ◌+◌, ◌-◌, ◌*◌, ◌%◌, ◌^◌, ◌≡◌, refl, true, [], ◌∷◌, arith, Str}
use scrutineer.Yaml.Scalars.{is_digit, add_digits, parse_int}

-- The number that some digits stand for, behind a number `n`.
unfoldable pub decimal : ℕ → Str → ℕ
decimal n [] = n
decimal n (c ∷ s) = decimal (n * 10 + (c - b'0')) s

add_digits-decimal : (n m : ℕ) (s : Str) → n ≡ m % 2 ^ 64 → add_digits n s ≡ decimal m s % 2 ^ 64
unfolding add_digits decimal
add_digits-decimal n m [] e = e
add_digits-decimal n m (c ∷ s) e =
    add_digits-decimal ((n * 10 + (c - b'0')) % 2 ^ 64) (m * 10 + (c - b'0')) s (rw e (omega arith))

-- A text of digits is read as its number reduced to 64 bits, with a plus sign too, and with a minus
-- sign as the two's complement of it: no length of digits is refused.
pub parse_int_wraps :
    (c : ℕ) (s : Str)
    → is_digit c ≡ true
    → (parse_int (c ∷ s) ≡ decimal 0 (c ∷ s) % 2 ^ 64)
      × (parse_int (b'+' ∷ c ∷ s) ≡ decimal 0 (c ∷ s) % 2 ^ 64)
      × (parse_int (b'-' ∷ c ∷ s) ≡ (2 ^ 64 - decimal 0 (c ∷ s) % 2 ^ 64) % 2 ^ 64)
unfolding parse_int
parse_int_wraps c s d =
    let e = add_digits-decimal 0 0 (c ∷ s) (omega arith) in (ground (arith, e), e, rw e refl)
