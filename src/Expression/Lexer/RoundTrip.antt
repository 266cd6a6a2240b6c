-- ===== src/Expression/Lexer/RoundTrip.antt =====
-- Tokens printed with a space behind each, and read back.
use scrutineer.Expression.Syntax.{token, number}
use scrutineer.Expression.Lexer.{
  ok, Unicode, span, read_number, cons_token, word, is_ident_start, is_ident_part, tokenize_from,
  tokenize,
}
use scrutineer.Prelude.{
  ℕ, zero, suc, ◌<◌, ◌≡◌, refl, ap, ◌∙◌, true, false, some, List, [], ◌∷◌, ◌++◌, map, arith, Str,
  codes, ◌==◌, length, All, length-append,
}
use scrutineer.Expression.Lexer.Print.{
  Tables, Lexeme, open_paren, close_paren, separator, quoted, whole, decimal, name, token_of,
  escape, print_token, print, WellFormed,
}
use scrutineer.Expression.Lexer.Reading.{
  span-All, read_string-escape, read_digits_whole, read_digits_decimal, Starts, Digit-Starts,
  name-Starts,
}

module _ (u : Unicode) (t : Tables u) where
  space_step : (f : ℕ) (s : Str) → tokenize_from u (suc f) (b' ' ∷ s) ≡ tokenize_from u f s
  unfolding tokenize_from
  space_step f s = rw (t.ascii_space b' ' (omega arith), tokenize_from) refl

  number_step :
      (f : ℕ) (c : ℕ) (s value rest : Str)
      → Starts u c true
      → read_number (c ∷ s) ≡ some (value, rest)
      → tokenize_from u (suc f) (c ∷ s) ≡ cons_token (token number value) (tokenize_from u f rest)
  unfolding tokenize_from
  number_step f c s value rest (space, opens, closes, separated, quote, numeral) e =
      rw (space, tokenize_from)
        (rw (opens, tokenize_from)
          (rw (closes, tokenize_from)
            (rw (separated, tokenize_from)
              (rw (quote, tokenize_from)
                (rw (numeral, tokenize_from) (rw (e, tokenize_from) refl))))))

  name_step :
      (f : ℕ) (c : ℕ) (s rest : Str)
      → is_ident_start u c ≡ true
      → All (λ r. is_ident_part u r ≡ true) s
      → tokenize_from u (suc f) (c ∷ (s ++ b' ' ∷ rest))
        ≡ cons_token (word (c ∷ s)) (tokenize_from u f (b' ' ∷ rest))
  unfolding tokenize_from
  name_step f c s rest h hs =
      let (space, opens, closes, separated, quote, numeral) = name-Starts u t c h in
      let letter = t.ascii_letter b' ' (omega arith) in
      let digit = t.ascii_number b' ' (omega arith) in
      let spanned : span (is_ident_part u) ((c ∷ s) ++ b' ' ∷ rest) ≡ (c ∷ s, b' ' ∷ rest) =
        span-All (is_ident_part u) (c ∷ s) b' ' rest (ground (arith, h), hs)
          (ground (arith, letter, digit)) in
      rw (space, tokenize_from)
        (rw (opens, tokenize_from)
          (rw (closes, tokenize_from)
            (rw (separated, tokenize_from)
              (rw (quote, tokenize_from)
                (rw (numeral, tokenize_from)
                  (rw (h, tokenize_from)
                    (ap (λ r. cons_token (word r.0) (tokenize_from u f r.1)) spanned)))))))

  sign-Starts : Starts u b'-' true
  sign-Starts = (rw (t.ascii_space b'-' (omega arith)) refl, refl, refl, refl, refl, refl)

  -- A token in front of a space is read as it is.
  token_step :
      (f : ℕ) (x : Lexeme) (rest : Str)
      → WellFormed u x
      → tokenize_from u (suc f) (print_token x (b' ' ∷ rest))
        ≡ cons_token (token_of x) (tokenize_from u f (b' ' ∷ rest))
  unfolding tokenize_from print_token token_of read_number
  token_step f open_paren rest h = rw (t.ascii_space b'(' (omega arith), tokenize_from) refl
  token_step f close_paren rest h = rw (t.ascii_space b')' (omega arith), tokenize_from) refl
  token_step f separator rest h = rw (t.ascii_space b',' (omega arith), tokenize_from) refl
  token_step f (quoted v) rest h =
      rw (t.ascii_space b'"' (omega arith), tokenize_from)
        (rw (read_string-escape v (b' ' ∷ rest), tokenize_from) refl)
  token_step f (whole true d ds) rest (h, hs) =
      number_step f b'-' _ _ _ sign-Starts (read_digits_whole (codes "-") d ds rest h hs)
  token_step f (whole false d ds) rest (h, hs) = number_step f d _ _ _ (Digit-Starts u t d h) (
      let unsigned : (d == b'-') ≡ false = ground (arith, h) in
      rw unsigned (read_digits_whole [] d ds rest h hs))
  token_step f (decimal true d ds e es) rest (h, hs, g, gs) =
      number_step f b'-' _ _ _ sign-Starts
        (read_digits_decimal (codes "-") d ds e es rest h hs g gs)
  token_step f (decimal false d ds e es) rest (h, hs, g, gs) =
      number_step f d _ _ _ (Digit-Starts u t d h) (
        let unsigned : (d == b'-') ≡ false = ground (arith, h) in
        rw unsigned (read_digits_decimal [] d ds e es rest h hs g gs))
  token_step f (name c s) rest (h, hs) = name_step f c s rest h hs

  -- A token is one rune at least.
  print_token-longer : (x : Lexeme) (rest : Str) → length rest < length (print_token x rest)
  unfolding print_token
  print_token-longer open_paren rest = omega arith
  print_token-longer close_paren rest = omega arith
  print_token-longer separator rest = omega arith
  print_token-longer (quoted v) rest = omega (arith, length-append (escape v) (b'"' ∷ rest))
  print_token-longer (whole true d ds) rest = omega (arith, length-append ds rest)
  print_token-longer (whole false d ds) rest = omega (arith, length-append ds rest)
  print_token-longer (decimal true d ds e es) rest =
      omega (arith, length-append ds (b'.' ∷ e ∷ (es ++ rest)), length-append es rest)
  print_token-longer (decimal false d ds e es) rest =
      omega (arith, length-append ds (b'.' ∷ e ∷ (es ++ rest)), length-append es rest)
  print_token-longer (name c s) rest = omega (arith, length-append s rest)

  tokenize_from-print :
      (xs : List Lexeme) (f : ℕ)
      → All (WellFormed u) xs
      → length (print xs) < f
      → tokenize_from u f (print xs) ≡ ok (map token_of xs)
  unfolding tokenize_from print cons_token
  tokenize_from-print xs zero h l = absurd (omega arith)
  tokenize_from-print [] (suc f) h l = refl
  tokenize_from-print (x ∷ xs) (suc zero) h l =
      absurd (omega (arith, print_token-longer x (b' ' ∷ print xs)))
  tokenize_from-print (x ∷ xs) (suc (suc f)) (one, h) l =
      token_step (suc f) x (print xs) one
      ∙ rw
          (
            space_step,
            tokenize_from-print xs f h (omega (arith, l, print_token-longer x (b' ' ∷ print xs))),
          )
          refl

  -- The text of any tokens, printed with a space behind each and with the quotes and the backslashes of
  -- strings escaped, is read back as these tokens.
  pub tokenize-print :
      (xs : List Lexeme) → All (WellFormed u) xs → tokenize u (print xs) ≡ ok (map token_of xs)
  unfolding tokenize
  tokenize-print xs h = tokenize_from-print xs (suc (length (print xs))) h (omega arith)
