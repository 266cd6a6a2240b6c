-- ===== src/Expression/Lexer/Reading.antt =====
-- What the readers of the lexer take of a printed token.
use scrutineer.Expression.Lexer.{
  Unicode, is_digit, is_quote, push, read_string, span, read_fraction, after_digits, digits_read,
  fraction_read, read_digits, is_ident_start,
}
use scrutineer.Prelude.{
  ℕ, ◌≡◌, refl, ap, ◌∙◌, inl, inr, Bool, true, false, ◌||◌, some, [], ◌∷◌, ◌++◌, arith, Str, ltb,
  ◌==◌, Bool-cases, All,
}
use scrutineer.Expression.Lexer.Print.{Tables, escape, Digit}

pub span-All :
    (p : ℕ → Bool) (xs : Str) (c : ℕ) (rest : Str)
    → All (λ r. p r ≡ true) xs
    → p c ≡ false
    → span p (xs ++ c ∷ rest) ≡ (xs, c ∷ rest)
unfolding span
span-All p [] c rest h e = rw e refl
span-All p (x ∷ xs) c rest (one, h) e = rw (one, span) (rw (span-All p xs c rest h e) refl)

-- One step of readString.
pub read_plain :
    (c : ℕ) (s : Str)
    → (c == b'"') ≡ false
    → (c == b'\\') ≡ false
    → read_string b'"' (c ∷ s) ≡ push c (read_string b'"' s)
unfolding read_string
read_plain c [] q e = rw q refl
read_plain c (n ∷ s) q e = rw (e, read_string) (rw q refl)

pub read_close : (s : Str) → read_string b'"' (b'"' ∷ s) ≡ some ([], s)
unfolding read_string
read_close [] = refl
read_close (n ∷ s) = refl

pub read_escaped :
    (c : ℕ) (s : Str)
    → ((c == b'"') || (c == b'\\')) ≡ true
    → read_string b'"' (b'\\' ∷ c ∷ s) ≡ push c (read_string b'"' s)
unfolding read_string
read_escaped c s h = rw (h, read_string) refl

pub read_string-escape :
    (v rest : Str) → read_string b'"' (escape v ++ b'"' ∷ rest) ≡ some (v, rest)
unfolding escape
read_string-escape [] rest = read_close rest
read_string-escape (c ∷ v) rest = elim (Bool-cases ((c == b'"') || (c == b'\\'))) [
  | inl special ↦
      rw (special, escape)
        (read_escaped c (escape v ++ b'"' ∷ rest) special ∙ rw (read_string-escape v rest) refl)
  | inr plain ↦
      rw (plain, escape)
        (read_plain c (escape v ++ b'"' ∷ rest) (ground (arith, plain)) (ground (arith, plain))
          ∙ rw (read_string-escape v rest) refl)
]

-- Numbers, behind which there is a space.
pub read_digits_whole :
    (before : Str) (d : ℕ) (ds rest : Str)
    → Digit d
    → All Digit ds
    → read_digits before (d ∷ (ds ++ b' ' ∷ rest)) ≡ some (before ++ d ∷ ds, b' ' ∷ rest)
unfolding read_digits after_digits
read_digits_whole before d ds rest h hs =
    ap (digits_read before) (span-All is_digit (d ∷ ds) b' ' rest (h, hs) refl)

pub read_digits_decimal :
    (before : Str) (d : ℕ) (ds : Str) (e : ℕ) (es rest : Str)
    → Digit d
    → All Digit ds
    → Digit e
    → All Digit es
    → read_digits before (d ∷ (ds ++ (b'.' ∷ e ∷ (es ++ b' ' ∷ rest))))
      ≡ some (((before ++ d ∷ ds) ++ b'.' ∷ []) ++ e ∷ es, b' ' ∷ rest)
unfolding read_digits after_digits read_fraction
read_digits_decimal before d ds e es rest h hs g gs =
    ap (digits_read before) (span-All is_digit (d ∷ ds) b'.' (e ∷ (es ++ b' ' ∷ rest)) (h, hs) refl)
    ∙ ap (fraction_read ((before ++ d ∷ ds) ++ b'.' ∷ []))
        (span-All is_digit (e ∷ es) b' ' rest (g, gs) refl)

-- No case before the one of a number takes a sign or a digit, and none before the one of an identifier
-- takes its first rune.
abbrev pub Starts : Unicode → ℕ → Bool → Type 0
Starts u c numeral =
    (u.is_space c ≡ false)
    × ((c == b'(') ≡ false)
    × ((c == b')') ≡ false)
    × ((c == b',') ≡ false)
    × (is_quote c ≡ false)
    × (((c == b'-') || is_digit c) ≡ numeral)

pub Digit-Starts : (u : Unicode) (t : Tables u) (c : ℕ) → Digit c → Starts u c true
Digit-Starts u t c h =
    let space = t.ascii_space c (ground (arith, h)) in
    (
      ground (arith, h, space),
      ground (arith, h),
      ground (arith, h),
      ground (arith, h),
      ground (arith, h),
      ground (arith, h),
    )

-- A letter is in none of the other classes.
pub letter-Starts : (u : Unicode) (t : Tables u) (c : ℕ) → u.is_letter c ≡ true → Starts u c false
letter-Starts u t c h = elim (Bool-cases (ltb c 128)) [
  | inl low ↦
      let l = t.ascii_letter c (ground (arith, low)) in
      (
        t.letter_or_space c h,
        ground (arith, h, l),
        ground (arith, h, l),
        ground (arith, h, l),
        ground (arith, h, l),
        ground (arith, h, l),
      )
  | inr high ↦ (
    t.letter_or_space c h,
    ground (arith, high),
    ground (arith, high),
    ground (arith, high),
    ground (arith, high),
    ground (arith, high),
  )
]

pub name-Starts :
    (u : Unicode) (t : Tables u) (c : ℕ) → is_ident_start u c ≡ true → Starts u c false
name-Starts u t c h = elim (Bool-cases (u.is_letter c)) [
  | inl letter ↦ letter-Starts u t c letter
  | inr other ↦
      let underscore : c ≡ b'_' = ground (arith, h, other) in
      let space = t.ascii_space c (ground (arith, underscore)) in
      (
        ground (arith, underscore, space),
        ground (arith, underscore),
        ground (arith, underscore),
        ground (arith, underscore),
        ground (arith, underscore),
        ground (arith, underscore),
      )
]
