-- ===== src/Fixture/Interpolate/Fuel.antt =====
-- Interpolate has fuel enough.
use scrutineer.Fixture.Interpolate.{
  Result, ok, err, out_of_fuel, Store, Quotes, outside, in_single, in_double, keep, write, to_brace,
  find_end, expression_of, write_variable, write_expression, interpolate_from, reference,
  interpolate,
}
use scrutineer.Prelude.{
  ℕ, zero, suc, ◌+◌, ◌*◌, ◌<◌, ◌≡◌, refl, ◌≢◌, inl, inr, ◌&&◌, Option, none, some, [], ◌∷◌, arith,
  Str, ◌==◌, Bool-cases, Option-cases, length,
}

-- What is found leaves less than there was.
abbrev Shorter : Str → Option (Str × Str) → Type 0
Shorter s none = Unit
Shorter s (some (taken, rest)) = length rest < length s

keep-Shorter :
    (c : ℕ) (s : Str) (found : Option (Str × Str))
    → Shorter s found
    → Shorter (c ∷ s) (keep c found)
keep-Shorter c s none h = tt
keep-Shorter c s (some (taken, rest)) h = omega (arith, h)

to_brace-Shorter : (s : Str) → Shorter s (to_brace s)
unfolding to_brace
to_brace-Shorter [] = tt
to_brace-Shorter (c ∷ s) = elim (Bool-cases (c == b'}')) [
  | inl e ↦ rw (e, to_brace) (omega arith)
  | inr e ↦ elim (Option-cases (to_brace s)) [
    | inl gone ↦ rw (e, to_brace) (rw gone tt)
    | inr ((ref, rest), found) ↦
        let less : length rest < length s = rw found at (to_brace-Shorter s) in
        rw (e, to_brace) (rw found (omega (arith, less)))
  ]
]

find_end-Shorter : (q : Quotes) (a o : ℕ) (s : Str) → Shorter s (find_end q a o s)
unfolding find_end
find_end-Shorter outside a o [] = tt
find_end-Shorter in_single a o [] = tt
find_end-Shorter in_double a o [] = tt
find_end-Shorter in_single a o (c ∷ []) = tt
find_end-Shorter in_double a o (c ∷ []) = tt
find_end-Shorter outside a o (c ∷ s) = elim (Bool-cases (c == b'\'')) [
  | inl e ↦ rw (e, find_end) (keep-Shorter c s _ (find_end-Shorter in_single a o s))
  | inr e1 ↦ elim (Bool-cases (c == b'"')) [
    | inl e ↦
        rw (e1, find_end) (rw (e, find_end) (keep-Shorter c s _ (find_end-Shorter in_double a o s)))
    | inr e2 ↦ elim (Bool-cases (c == b'(')) [
      | inl e ↦
          rw (e1, find_end)
            (rw (e2, find_end)
              (rw (e, find_end) (keep-Shorter c s _ (find_end-Shorter outside a (o + 1) s))))
      | inr e3 ↦ elim (Bool-cases (c == b')')) [
        | inl e ↦
            rw (e1, find_end)
              (rw (e2, find_end)
                (rw (e3, find_end)
                  (rw (e, find_end) (keep-Shorter c s _ (find_end-Shorter outside (a + 1) o s)))))
        | inr e4 ↦ elim (Bool-cases ((c == b'}') && (a == o))) [
          | inl e ↦
              rw (e1, find_end)
                (rw (e2, find_end)
                  (rw (e3, find_end) (rw (e4, find_end) (rw (e, find_end) (omega arith)))))
          | inr e ↦
              rw (e1, find_end)
                (rw (e2, find_end)
                  (rw (e3, find_end)
                    (rw (e4, find_end)
                      (rw (e, find_end) (keep-Shorter c s _ (find_end-Shorter outside a o s))))))
        ]
      ]
    ]
  ]
]
find_end-Shorter in_single a o (c ∷ d ∷ s) = elim (Bool-cases (c == b'\\')) [
  | inl e ↦
      rw (e, find_end)
        (keep-Shorter c (d ∷ s) _ (keep-Shorter d s _ (find_end-Shorter in_single a o s)))
  | inr e1 ↦ elim (Bool-cases (c == b'\'')) [
    | inl e ↦
        rw (e1, find_end)
          (rw (e, find_end) (keep-Shorter c (d ∷ s) _ (find_end-Shorter outside a o (d ∷ s))))
    | inr e ↦
        rw (e1, find_end)
          (rw (e, find_end) (keep-Shorter c (d ∷ s) _ (find_end-Shorter in_single a o (d ∷ s))))
  ]
]
find_end-Shorter in_double a o (c ∷ d ∷ s) = elim (Bool-cases (c == b'\\')) [
  | inl e ↦
      rw (e, find_end)
        (keep-Shorter c (d ∷ s) _ (keep-Shorter d s _ (find_end-Shorter in_double a o s)))
  | inr e1 ↦ elim (Bool-cases (c == b'"')) [
    | inl e ↦
        rw (e1, find_end)
          (rw (e, find_end) (keep-Shorter c (d ∷ s) _ (find_end-Shorter outside a o (d ∷ s))))
    | inr e ↦
        rw (e1, find_end)
          (rw (e, find_end) (keep-Shorter c (d ∷ s) _ (find_end-Shorter in_double a o (d ∷ s))))
  ]
]

-- The body behind "fn:" is shorter than the reference.
expression_of-le : (s body : Str) → expression_of s ≡ some body → length body < length s
unfolding expression_of
expression_of-le [] body e = absurd (ground (arith, e))
expression_of-le (c ∷ []) body e = absurd (ground (arith, e))
expression_of-le (c ∷ d ∷ []) body e = absurd (ground (arith, e))
expression_of-le (c ∷ d ∷ d' ∷ s) body e =
    elim (Bool-cases ((c == b'f') && ((d == b'n') && (d' == b':')))) [
      | inl is ↦
          let same : some s ≡ some body = rw is at e in
          let same' : s ≡ body = cc in rw⁻¹ same' (omega arith)
      | inr no_fn ↦
          absurd (let none_some : none ≡ some body = rw no_fn at e in ground (arith, none_some))
    ]

-- A result that is one of the code.
abbrev Returns : Result Str → Type 0
Returns r = r ≢ out_of_fuel

write-Returns : (s : Str) (r : Result Str) → Returns r → Returns (write s r)
write-Returns s (ok t) h = λ e. ground (arith, e)
write-Returns s (err p) h = λ e. ground (arith, e)
write-Returns s out_of_fuel h = λ e. h refl

module _ (store : Store) where
  write_variable-Returns :
      (ref : Str) (r : Result Str) → Returns r → Returns (write_variable store ref r)
  write_variable-Returns ref r h = elim (Option-cases (store.resolve ref)) [
    | inl gone ↦ rw (gone, write_variable) (λ e. ground (arith, e))
    | inr (v, found) ↦ rw (found, write_variable) (write-Returns v r h)
  ]

  write_expression-Returns :
      (body : Str) (r : Result Str) → Returns r → Returns (write_expression store body r)
  write_expression-Returns body r h = elim (Option-cases (store.eval_expression body)) [
    | inl gone ↦ rw (gone, write_expression) (λ e. ground (arith, e))
    | inr (v, found) ↦ rw (found, write_expression) (write-Returns v r h)
  ]

  reference-Returns :
      (f : ℕ) (body : Option Str) (s : Str)
      → ((t : Str) → 2 * length t < f → Returns (interpolate_from store f t))
      → expression_of s ≡ body
      → 2 * length s + 2 < f
      → Returns (reference store (suc f) body s)
  unfolding reference
  reference-Returns f none s more e h =
      let short = to_brace-Shorter s in
      elim (Option-cases (to_brace s)) [
        | inl gone ↦
            rw (gone, reference) (write-Returns (b'$' ∷ []) _ (more (b'{' ∷ s) (omega (arith, h))))
        | inr ((ref, rest), found) ↦
            let less : length rest < length s = rw found at short in
            rw (found, reference)
              (write_variable-Returns ref _ (more rest (omega (arith, h, less))))
      ]
  reference-Returns f (some body) s more e h =
      let behind = expression_of-le s body e in
      let short = find_end-Shorter outside 0 0 body in
      elim (Option-cases (find_end outside 0 0 body)) [
        | inl gone ↦
            rw (gone, reference) (write-Returns (b'$' ∷ []) _ (more (b'{' ∷ s) (omega (arith, h))))
        | inr ((expression, rest), found) ↦
            let less : length rest < length body = rw found at short in
            rw (found, reference)
              (write_expression-Returns expression _ (more rest (omega (arith, h, less, behind))))
      ]

  interpolate_from-Returns :
      (f : ℕ) (s : Str) → 2 * length s < f → Returns (interpolate_from store f s)
  unfolding interpolate_from
  interpolate_from-Returns zero s h = absurd (omega arith)
  interpolate_from-Returns (suc f) [] h = λ e. ground (arith, e)
  interpolate_from-Returns (suc f) (c ∷ []) h = λ e. ground (arith, e)
  interpolate_from-Returns (suc zero) (c ∷ d ∷ s) h = absurd (omega (arith, h))
  interpolate_from-Returns (suc (suc f)) (c ∷ d ∷ s) h =
      elim (Bool-cases ((c == b'\\') && (d == b'$'))) [
        | inl e ↦
            rw (e, interpolate_from)
              (write-Returns (d ∷ []) _ (interpolate_from-Returns (suc f) s (omega (arith, h))))
        | inr e ↦ elim (Bool-cases ((c == b'$') && (d == b'{'))) [
          | inl begins ↦
              rw (e, interpolate_from)
                (rw (begins, interpolate_from)
                  (reference-Returns f (expression_of s) s (λ t l. interpolate_from-Returns f t l)
                    refl (omega (arith, h))))
          | inr other ↦
              rw (e, interpolate_from)
                (rw (other, interpolate_from)
                  (write-Returns (c ∷ []) _
                    (interpolate_from-Returns (suc f) (d ∷ s) (omega (arith, h)))))
        ]
      ]

  -- Interpolate never runs out of fuel, whatever the text is.
  interpolate_has_fuel : (s : Str) → interpolate store s ≢ out_of_fuel
  unfolding interpolate
  interpolate_has_fuel s = interpolate_from-Returns (2 * length s + 1) s (omega arith)
