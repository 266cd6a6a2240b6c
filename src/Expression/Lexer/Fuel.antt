-- ===== src/Expression/Lexer/Fuel.antt =====
-- Tokenize has fuel enough.
use scrutineer.Expression.Syntax.{Token}
use scrutineer.Expression.Lexer.{
  Lexed, ok, err, out_of_fuel, Unicode, is_digit, is_quote, is_escape, push, read_string, span,
  fraction_read, read_fraction, after_digits, digits_read, read_digits, read_number, cons_token,
  is_ident_start, is_ident_part, tokenize_from, tokenize,
}
use scrutineer.Prelude.{
  ℕ, zero, suc, ◌≤◌, ◌<◌, ◌≡◌, refl, ◌≢◌, inl, inr, Bool, true, ◌||◌, Option, none, some, List, [],
  ◌∷◌, ◌++◌, arith, Str, ◌==◌, Bool-cases, Option-cases, length,
}

-- What is read leaves no more than there was, or less.
abbrev Leaves : ℕ → Option (Str × Str) → Type 0
Leaves n none = Unit
Leaves n (some (taken, rest)) = length rest ≤ n

Leaves-weaken : (n m : ℕ) (found : Option (Str × Str)) → n ≤ m → Leaves n found → Leaves m found
Leaves-weaken n m none le h = tt
Leaves-weaken n m (some (taken, rest)) le h = omega (arith, le, h)

push-Leaves : (c n : ℕ) (found : Option (Str × Str)) → Leaves n found → Leaves n (push c found)
push-Leaves c n none h = tt
push-Leaves c n (some (taken, rest)) h = h

read_string-Leaves : (q : ℕ) (s : Str) → Leaves (length s) (read_string q s)
unfolding read_string
read_string-Leaves q [] = tt
read_string-Leaves q (c ∷ []) = elim (Bool-cases (c == q)) [
  | inl e ↦ rw (e, read_string) (omega arith)
  | inr e ↦ rw (e, read_string) tt
]
read_string-Leaves q (c ∷ d ∷ s) = elim (Bool-cases (is_escape q c d)) [
  | inl e ↦
      rw (e, read_string)
        (push-Leaves d _ _
          (Leaves-weaken (length s) (length (c ∷ d ∷ s)) _ (omega arith) (read_string-Leaves q s)))
  | inr e1 ↦ elim (Bool-cases (c == q)) [
    | inl e ↦ rw (e1, read_string) (rw (e, read_string) (omega arith))
    | inr e ↦
        rw (e1, read_string)
          (rw (e, read_string)
            (push-Leaves c _ _ (
              Leaves-weaken (length (d ∷ s)) (length (c ∷ d ∷ s)) _ (omega arith)
                (read_string-Leaves q (d ∷ s)))))
  ]
]

span-le : (p : ℕ → Bool) (s : Str) → length (span p s).1 ≤ length s
unfolding span
span-le p [] = omega arith
span-le p (c ∷ s) = elim (Bool-cases (p c)) [
  | inl e ↦ rw (e, span) (omega (arith, span-le p s))
  | inr e ↦ rw (e, span) (omega arith)
]

-- A span whose first byte passes takes it.
span-less : (p : ℕ → Bool) (c : ℕ) (s : Str) → p c ≡ true → length (span p (c ∷ s)).1 ≤ length s
unfolding span
span-less p c s e = rw (e, span) (span-le p s)

fraction_read-Leaves : (value : Str) (r : Str × Str) → Leaves (length r.1) (fraction_read value r)
fraction_read-Leaves value ([], rest) = tt
fraction_read-Leaves value (d ∷ ds, rest) = omega arith

after_digits-Leaves : (value s : Str) → Leaves (length s) (after_digits value s)
unfolding after_digits read_fraction
after_digits-Leaves value [] = omega arith
after_digits-Leaves value (c ∷ s) = elim (Bool-cases (c == b'.')) [
  | inl e ↦
      rw (e, after_digits)
        (Leaves-weaken (length (span is_digit s).1) _ _ (omega (arith, span-le is_digit s))
          (fraction_read-Leaves (value ++ c ∷ []) (span is_digit s)))
  | inr e ↦ rw (e, after_digits) (omega arith)
]

digits_read-Leaves : (before : Str) (r : Str × Str) → Leaves (length r.1) (digits_read before r)
digits_read-Leaves before ([], rest) = tt
digits_read-Leaves before (d ∷ ds, rest) = after_digits-Leaves (before ++ d ∷ ds) rest

-- A number takes its first byte.
read_number-Leaves :
    (c : ℕ) (s : Str) → ((c == b'-') || is_digit c) ≡ true → Leaves (length s) (read_number (c ∷ s))
unfolding read_number read_digits
read_number-Leaves c s h = elim (Bool-cases (c == b'-')) [
  | inl e ↦
      rw (e, read_number)
        (Leaves-weaken (length (span is_digit s).1) _ _ (span-le is_digit s)
          (digits_read-Leaves (c ∷ []) (span is_digit s)))
  | inr e ↦
      let digit : is_digit c ≡ true = ground (arith, h, e) in
      rw (e, read_number)
        (Leaves-weaken (length (span is_digit (c ∷ s)).1) _ _ (span-less is_digit c s digit)
          (digits_read-Leaves [] (span is_digit (c ∷ s))))
]

abbrev Returns : Lexed (List Token) → Type 0
Returns r = r ≢ out_of_fuel

cons_token-Returns : (t : Token) (r : Lexed (List Token)) → Returns r → Returns (cons_token t r)
unfolding cons_token
cons_token-Returns t (ok ts) h = λ e. ground (arith, e)
cons_token-Returns t (err p) h = λ e. ground (arith, e)
cons_token-Returns t out_of_fuel h = λ e. h refl

module _ (u : Unicode) where
  tokenize_from-Returns : (f : ℕ) (s : Str) → length s < f → Returns (tokenize_from u f s)
  unfolding tokenize_from
  tokenize_from-Returns zero s h = absurd (omega arith)
  tokenize_from-Returns (suc f) [] h = λ e. ground (arith, e)
  tokenize_from-Returns (suc f) (c ∷ s) h =
      let next = tokenize_from-Returns f s (omega (arith, h)) in
      elim (Bool-cases (u.is_space c)) [
        | inl e ↦ rw (e, tokenize_from) next
        | inr e1 ↦ elim (Bool-cases (c == b'(')) [
          | inl e ↦ rw (e1, tokenize_from) (rw (e, tokenize_from) (cons_token-Returns _ _ next))
          | inr e2 ↦ elim (Bool-cases (c == b')')) [
            | inl e ↦
                rw (e1, tokenize_from)
                  (rw (e2, tokenize_from) (rw (e, tokenize_from) (cons_token-Returns _ _ next)))
            | inr e3 ↦ elim (Bool-cases (c == b',')) [
              | inl e ↦
                  rw (e1, tokenize_from)
                    (rw (e2, tokenize_from)
                      (rw (e3, tokenize_from)
                        (rw (e, tokenize_from) (cons_token-Returns _ _ next))))
              | inr e4 ↦
                  rw (e1, tokenize_from)
                    (rw (e2, tokenize_from)
                      (rw (e3, tokenize_from)
                        (rw (e4, tokenize_from)
                          (elim (Bool-cases (is_quote c)) [
                            | inl e ↦
                                rw (e, tokenize_from)
                                  (elim (Option-cases (read_string c s)) [
                                    | inl gone ↦ rw (gone, tokenize_from) (λ p. ground (arith, p))
                                    | inr ((value, rest), found) ↦
                                        let less : length rest ≤ length s =
                                          rw found at (read_string-Leaves c s) in
                                        rw (found, tokenize_from)
                                          (cons_token-Returns _ _
                                            (tokenize_from-Returns f rest (omega (arith, h, less))))
                                  ])
                            | inr e5 ↦
                                rw (e5, tokenize_from)
                                  (elim (Bool-cases ((c == b'-') || is_digit c)) [
                                    | inl e ↦
                                        rw (e, tokenize_from)
                                          (elim (Option-cases (read_number (c ∷ s))) [
                                            | inl gone ↦
                                                rw (gone, tokenize_from) (λ p. ground (arith, p))
                                            | inr ((value, rest), found) ↦
                                                let less : length rest ≤ length s =
                                                  rw found at (read_number-Leaves c s e) in
                                                rw (found, tokenize_from)
                                                  (cons_token-Returns _ _ (
                                                    tokenize_from-Returns f rest
                                                      (omega (arith, h, less))))
                                          ])
                                    | inr e6 ↦
                                        rw (e6, tokenize_from)
                                          (elim (Bool-cases (is_ident_start u c)) [
                                            | inl e ↦
                                                let part : is_ident_part u c ≡ true =
                                                  ground (arith, e) in
                                                rw (e, tokenize_from)
                                                  (cons_token-Returns _ _ (
                                                    tokenize_from-Returns f
                                                      (span (is_ident_part u) (c ∷ s)).1
                                                      (omega (
                                                        arith,
                                                        h,
                                                        span-less (is_ident_part u) c s part,
                                                      ))))
                                            | inr e ↦ rw (e, tokenize_from) (λ p. ground (arith, p))
                                          ])
                                  ])
                          ]))))
            ]
          ]
        ]
      ]

  -- Tokenize never runs out of fuel, whatever the text is.
  tokenize_has_fuel : (s : Str) → tokenize u s ≢ out_of_fuel
  unfolding tokenize
  tokenize_has_fuel s = tokenize_from-Returns (suc (length s)) s (omega arith)
