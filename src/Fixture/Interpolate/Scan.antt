-- ===== src/Fixture/Interpolate/Scan.antt =====
-- The scan of findExpressionEnd over a body.
use scrutineer.Fixture.Interpolate.{Quotes, outside, in_single, in_double, keep, find_end}
use scrutineer.Prelude.{
  ℕ, ◌+◌, ◌≡◌, refl, ap, ◌∙◌, inl, inr, false, ◌&&◌, ◌||◌, Option, some, [], ◌∷◌, ◌++◌,
  append_assoc, append-nil, arith, Str, ◌==◌, Bool-cases,
}
use scrutineer.Fixture.Interpolate.Body.{
  Body, empty, char, group, single, double, quoted, body_text, is_special, ValidBody,
}

unfoldable prepend : Str → Option (Str × Str) → Option (Str × Str)
prepend [] found = found
prepend (c ∷ s) found = keep c (prepend s found)

prepend-append :
    (xs ys : Str) (found : Option (Str × Str))
    → prepend (xs ++ ys) found ≡ prepend xs (prepend ys found)
unfolding prepend
prepend-append [] ys found = refl
prepend-append (c ∷ xs) ys found = ap (keep c) (prepend-append xs ys found)

prepend-some : (xs a rest : Str) → prepend xs (some (a, rest)) ≡ some (xs ++ a, rest)
unfolding prepend
prepend-some [] a rest = refl
prepend-some (c ∷ xs) a rest = rw (prepend-some xs a rest) refl

-- A pair of parentheses more changes nothing.
find_end_shift :
    (q : Quotes) (closed opened : ℕ) (s : Str)
    → find_end q (closed + 1) (opened + 1) s ≡ find_end q closed opened s
unfolding find_end
find_end_shift outside closed opened [] = refl
find_end_shift in_single closed opened [] = refl
find_end_shift in_double closed opened [] = refl
find_end_shift in_single closed opened (c ∷ []) = refl
find_end_shift in_double closed opened (c ∷ []) = refl
find_end_shift outside closed opened (c ∷ s) =
    let same : ((closed + 1) == (opened + 1)) ≡ (closed == opened) = ground arith in
    elim (Bool-cases (c == b'\'')) [
      | inl e ↦ rw (e, find_end) (ap (keep c) (find_end_shift in_single closed opened s))
      | inr e1 ↦ elim (Bool-cases (c == b'"')) [
        | inl e ↦
            rw (e1, find_end)
              (rw (e, find_end) (ap (keep c) (find_end_shift in_double closed opened s)))
        | inr e2 ↦ elim (Bool-cases (c == b'(')) [
          | inl e ↦
              rw (e1, find_end)
                (rw (e2, find_end)
                  (rw (e, find_end) (ap (keep c) (find_end_shift outside closed (opened + 1) s))))
          | inr e3 ↦ elim (Bool-cases (c == b')')) [
            | inl e ↦
                rw (e1, find_end)
                  (rw (e2, find_end)
                    (rw (e3, find_end)
                      (rw (e, find_end)
                        (ap (keep c) (find_end_shift outside (closed + 1) opened s)))))
            | inr e4 ↦ elim (Bool-cases ((c == b'}') && (closed == opened))) [
              | inl e ↦
                  rw (e1, find_end)
                    (rw (e2, find_end)
                      (rw (e3, find_end)
                        (rw (e4, find_end) (rw (same, find_end) (rw (e, find_end) refl)))))
              | inr e ↦
                  rw (e1, find_end)
                    (rw (e2, find_end)
                      (rw (e3, find_end)
                        (rw (e4, find_end)
                          (rw (same, find_end)
                            (rw (e, find_end)
                              (ap (keep c) (find_end_shift outside closed opened s)))))))
            ]
          ]
        ]
      ]
    ]
find_end_shift in_single closed opened (c ∷ d ∷ s) = elim (Bool-cases (c == b'\\')) [
  | inl e ↦
      rw (e, find_end) (ap (λ r. keep c (keep d r)) (find_end_shift in_single closed opened s))
  | inr e1 ↦ elim (Bool-cases (c == b'\'')) [
    | inl e ↦
        rw (e1, find_end)
          (rw (e, find_end) (ap (keep c) (find_end_shift outside closed opened (d ∷ s))))
    | inr e ↦
        rw (e1, find_end)
          (rw (e, find_end) (ap (keep c) (find_end_shift in_single closed opened (d ∷ s))))
  ]
]
find_end_shift in_double closed opened (c ∷ d ∷ s) = elim (Bool-cases (c == b'\\')) [
  | inl e ↦
      rw (e, find_end) (ap (λ r. keep c (keep d r)) (find_end_shift in_double closed opened s))
  | inr e1 ↦ elim (Bool-cases (c == b'"')) [
    | inl e ↦
        rw (e1, find_end)
          (rw (e, find_end) (ap (keep c) (find_end_shift outside closed opened (d ∷ s))))
    | inr e ↦
        rw (e1, find_end)
          (rw (e, find_end) (ap (keep c) (find_end_shift in_double closed opened (d ∷ s))))
  ]
]

-- How the scan goes inside of one kind of quotes.
record Inside (q : Quotes) (quote : ℕ) : Type 0 where
  close : (a o : ℕ) (s : Str) → find_end q a o (quote ∷ s) ≡ keep quote (find_end outside a o s)
  escaped :
      (a o c : ℕ) (s : Str)
      → find_end q a o (b'\\' ∷ c ∷ s) ≡ keep b'\\' (keep c (find_end q a o s))
  plain :
      (a o c : ℕ) (s : Str)
      → ((c == quote) || (c == b'\\')) ≡ false
      → find_end q a o (c ∷ s) ≡ keep c (find_end q a o s)

single-Inside : Inside in_single b'\''
unfolding find_end
single-Inside = record { close = close_lem; escaped = λ a o c s. refl; plain = plain_lem }
  where
    close_lem :
        (a o : ℕ) (s : Str)
        → find_end in_single a o (b'\'' ∷ s) ≡ keep b'\'' (find_end outside a o s)
    close_lem a o [] = refl
    close_lem a o (d ∷ s) = refl

    plain_lem :
        (a o c : ℕ) (s : Str)
        → ((c == b'\'') || (c == b'\\')) ≡ false
        → find_end in_single a o (c ∷ s) ≡ keep c (find_end in_single a o s)
    plain_lem a o c [] h = refl
    plain_lem a o c (d ∷ s) h =
        let no_escape : (c == b'\\') ≡ false = ground (arith, h) in
        let no_quote : (c == b'\'') ≡ false = ground (arith, h) in
        rw (no_escape, find_end) (rw (no_quote, find_end) refl)

double-Inside : Inside in_double b'"'
unfolding find_end
double-Inside = record { close = close_lem; escaped = λ a o c s. refl; plain = plain_lem }
  where
    close_lem :
        (a o : ℕ) (s : Str) → find_end in_double a o (b'"' ∷ s) ≡ keep b'"' (find_end outside a o s)
    close_lem a o [] = refl
    close_lem a o (d ∷ s) = refl

    plain_lem :
        (a o c : ℕ) (s : Str)
        → ((c == b'"') || (c == b'\\')) ≡ false
        → find_end in_double a o (c ∷ s) ≡ keep c (find_end in_double a o s)
    plain_lem a o c [] h = refl
    plain_lem a o c (d ∷ s) h =
        let no_escape : (c == b'\\') ≡ false = ground (arith, h) in
        let no_quote : (c == b'"') ≡ false = ground (arith, h) in
        rw (no_escape, find_end) (rw (no_quote, find_end) refl)

find_end-quoted :
    (q : Quotes) (quote : ℕ) (s : Str) (a o : ℕ) (rest : Str)
    → Inside q quote
    → find_end q a o (quoted quote s ++ rest) ≡ prepend (quoted quote s) (find_end outside a o rest)
unfolding quoted prepend
find_end-quoted q quote [] a o rest i = i.close a o rest
find_end-quoted q quote (c ∷ s) a o rest i = elim (Bool-cases ((c == quote) || (c == b'\\'))) [
  | inl special ↦
      rw (special, quoted)
        (i.escaped a o c (quoted quote s ++ rest)
          ∙ ap (λ r. keep b'\\' (keep c r)) (find_end-quoted q quote s a o rest i))
  | inr other ↦
      rw (other, quoted)
        (i.plain a o c (quoted quote s ++ rest) other
          ∙ ap (keep c) (find_end-quoted q quote s a o rest i))
]

char_end :
    (c a o : ℕ) (s : Str)
    → is_special c ≡ false
    → find_end outside a o (c ∷ s) ≡ keep c (find_end outside a o s)
unfolding find_end
char_end c a o s h =
    let e1 : (c == b'\'') ≡ false = ground (arith, h) in
    let e2 : (c == b'"') ≡ false = ground (arith, h) in
    let e3 : (c == b'(') ≡ false = ground (arith, h) in
    let e4 : (c == b')') ≡ false = ground (arith, h) in
    let e5 : (c == b'}') ≡ false = ground (arith, h) in
    rw (e1, find_end)
      (rw (e2, find_end) (rw (e3, find_end) (rw (e4, find_end) (rw (e5, find_end) refl))))

-- The scan goes over a body as a whole.
find_end-body_text :
    (b : Body) (a o : ℕ) (rest : Str)
    → ValidBody b
    → find_end outside a o (body_text b ++ rest) ≡ prepend (body_text b) (find_end outside a o rest)
unfolding find_end body_text prepend
find_end-body_text empty a o rest h = refl
find_end-body_text (char c b) a o rest (e, h) =
    char_end c a o (body_text b ++ rest) e ∙ ap (keep c) (find_end-body_text b a o rest h)
find_end-body_text (group b b') a o rest (h, h') =
    let inner : find_end outside a (o + 1) (body_text b ++ (b')' ∷ (body_text b' ++ rest)))
        ≡ prepend (body_text b)
            (keep b')' (find_end outside (a + 1) (o + 1) (body_text b' ++ rest))) =
      find_end-body_text b a (o + 1) (b')' ∷ (body_text b' ++ rest)) h in
    let behind : find_end outside (a + 1) (o + 1) (body_text b' ++ rest)
        ≡ prepend (body_text b') (find_end outside a o rest) =
      find_end_shift outside a o (body_text b' ++ rest) ∙ find_end-body_text b' a o rest h' in
    ap (keep b'(') (rw (append_assoc, prepend-append) (rw behind at inner))
find_end-body_text (single s b) a o rest h =
    let inside : find_end in_single a o (quoted b'\'' s ++ (body_text b ++ rest))
        ≡ prepend (quoted b'\'' s) (find_end outside a o (body_text b ++ rest)) =
      find_end-quoted in_single b'\'' s a o (body_text b ++ rest) single-Inside in
    ap (keep b'\'')
      (rw (append_assoc, prepend-append) (rw (find_end-body_text b a o rest h) at inside))
find_end-body_text (double s b) a o rest h =
    let inside : find_end in_double a o (quoted b'"' s ++ (body_text b ++ rest))
        ≡ prepend (quoted b'"' s) (find_end outside a o (body_text b ++ rest)) =
      find_end-quoted in_double b'"' s a o (body_text b ++ rest) double-Inside in
    ap (keep b'"')
      (rw (append_assoc, prepend-append) (rw (find_end-body_text b a o rest h) at inside))

pub find_end-brace :
    (b : Body) (rest : Str)
    → ValidBody b
    → find_end outside 0 0 (body_text b ++ b'}' ∷ rest) ≡ some (body_text b, rest)
unfolding find_end
find_end-brace b rest h =
    find_end-body_text b 0 0 (b'}' ∷ rest) h
    ∙ prepend-some (body_text b) [] rest
    ∙ ap (λ s. some (s, rest)) (append-nil (body_text b))
