-- ===== src/Fixture/Interpolate/RoundTrip.antt =====
-- What Interpolate makes of a template.
use scrutineer.Fixture.Interpolate.{
  Result, ok, err, out_of_fuel, Store, write, to_brace, expression_of, write_variable,
  write_expression, interpolate_from, reference, interpolate,
}
use scrutineer.Fixture.Interpolate.Body.{Body, body_text, ValidBody}
use scrutineer.Fixture.Interpolate.Scan.{find_end-brace}
use scrutineer.Fixture.Interpolate.Template.{
  Piece, literal, variable, expression, escape, render, denote, NotBrace, EndsPlain, Valid,
}
use scrutineer.Prelude.{
  ℕ, zero, suc, ◌+◌, ◌*◌, ◌<◌, ◌≡◌, refl, sym, ◌⊎◌, inl, inr, true, false, ◌&&◌, none, some, List,
  [], ◌∷◌, ◌++◌, arith, Str, ◌==◌, Bool-cases, length, All, length-append,
}

write-write : (c : ℕ) (s : Str) (v : Result Str) → write (c ∷ []) (write s v) ≡ write (c ∷ s) v
write-write c s (ok rest) = refl
write-write c s (err e) = refl
write-write c s out_of_fuel = refl

write_nothing : (v : Result Str) → write [] v ≡ v
write_nothing (ok rest) = refl
write_nothing (err e) = refl
write_nothing out_of_fuel = refl

to_brace-append :
    (ref rest : Str) → All NotBrace ref → to_brace (ref ++ b'}' ∷ rest) ≡ some (ref, rest)
unfolding to_brace
to_brace-append [] rest h = refl
to_brace-append (c ∷ ref) rest (e, h) = rw (e, to_brace) (rw (to_brace-append ref rest h) refl)

-- A closing brace does not make a reference an expression.
expression_of-append :
    (ref rest : Str) → expression_of ref ≡ none → expression_of (ref ++ b'}' ∷ rest) ≡ none
unfolding expression_of
expression_of-append [] [] e = refl
expression_of-append [] (d ∷ []) e = refl
expression_of-append [] (d ∷ d' ∷ rest) e = refl
expression_of-append (c ∷ []) [] e = refl
expression_of-append (c ∷ []) (d ∷ rest) e = ground arith
expression_of-append (c ∷ c' ∷ []) rest e = ground arith
expression_of-append (c ∷ c' ∷ c'' ∷ ref) rest e =
    elim (Bool-cases ((c == b'f') && ((c' == b'n') && (c'' == b':')))) [
      | inl is ↦ absurd (ground (arith, e, is))
      | inr no_fn ↦ rw no_fn refl
    ]

-- The first byte is no dollar.
abbrev NoDollar : Str → Type 0
NoDollar [] = Unit
NoDollar (c ∷ s) = (c == b'$') ≡ false

escape_dollar : (c : ℕ) (s : Str) → (c == b'$') ≡ true → escape (c ∷ s) ≡ b'\\' ∷ b'$' ∷ escape s
unfolding escape
escape_dollar c s e = let same : c ≡ b'$' = ground (arith, e) in rw same refl

escape_plain : (c : ℕ) (s : Str) → (c == b'$') ≡ false → escape (c ∷ s) ≡ c ∷ escape s
unfolding escape
escape_plain c s e = rw (e, escape) refl

NoDollar-escape : (c : ℕ) (s rest : Str) → NoDollar (escape (c ∷ s) ++ rest)
NoDollar-escape c s rest = elim (Bool-cases (c == b'$')) [
  | inl e ↦ rw (escape_dollar c s e) refl
  | inr e ↦ rw (escape_plain c s e) e
]

EndsPlain-tail : (c : ℕ) (s : Str) → EndsPlain (c ∷ s) → EndsPlain s
EndsPlain-tail c [] h = tt
EndsPlain-tail c (d ∷ s) h = h

-- A last byte is no backslash, and one that is not the last is not in front of a dollar.
before_plain :
    (c : ℕ) (s rest : Str)
    → EndsPlain (c ∷ s)
    → ((c == b'\\') ≡ false) ⊎ NoDollar (escape s ++ rest)
before_plain c [] rest h = inl h
before_plain c (d ∷ s) rest h = inr (NoDollar-escape d s rest)

module _ (store : Store) where
  -- With fuel above a bound the text is read to this.
  abbrev Reads : Str → Result Str → Type 0
  Reads s v = (f : ℕ) → 2 * length s < f → interpolate_from store f s ≡ v

  nothing-Reads : Reads [] (ok [])
  unfolding interpolate_from
  nothing-Reads zero h = absurd (omega arith)
  nothing-Reads (suc f) h = refl

  dollar-Reads :
      (s : Str) (v : Result Str) → Reads s v → Reads (b'\\' ∷ b'$' ∷ s) (write (b'$' ∷ []) v)
  unfolding interpolate_from
  dollar-Reads s v r zero h = absurd (omega arith)
  dollar-Reads s v r (suc f) h = rw (r f (omega arith)) refl

  plain-Reads :
      (c : ℕ) (s : Str) (v : Result Str)
      → (c == b'$') ≡ false
      → ((c == b'\\') ≡ false) ⊎ NoDollar s
      → Reads s v
      → Reads (c ∷ s) (write (c ∷ []) v)
  unfolding interpolate_from
  plain-Reads c s v e n r zero h = absurd (omega arith)
  plain-Reads c [] v e n r (suc f) h = rw (sym (r 1 (omega arith))) refl
  plain-Reads c (d ∷ s) v e n r (suc f) h =
      let no_escape : ((c == b'\\') && (d == b'$')) ≡ false = elim n [
        | inl p ↦ rw p refl
        | inr q ↦ ground (arith, q)
      ] in
      rw (no_escape, interpolate_from) (rw (e, interpolate_from) (rw (r f (omega (arith, h))) refl))

  variable-Reads :
      (ref s : Str) (v : Result Str)
      → Valid (variable ref)
      → Reads s v
      → Reads (b'$' ∷ b'{' ∷ (ref ++ b'}' ∷ s)) (write_variable store ref v)
  unfolding interpolate_from
  variable-Reads ref s v h r zero l = absurd (omega arith)
  variable-Reads ref s v h r (suc zero) l = absurd (omega arith)
  variable-Reads ref s v (no_brace, no_fn) r (suc (suc f)) l =
      rw (expression_of-append ref s no_fn, interpolate_from)
        (rw (to_brace-append ref s no_brace, reference)
          (rw (r f (omega (arith, l, length-append ref (b'}' ∷ s)))) refl))

  expression-Reads :
      (b : Body) (s : Str) (v : Result Str)
      → ValidBody b
      → Reads s v
      → Reads
          (b'$' ∷ b'{' ∷ b'f' ∷ b'n' ∷ b':' ∷ (body_text b ++ b'}' ∷ s))
          (write_expression store (body_text b) v)
  unfolding interpolate_from expression_of
  expression-Reads b s v h r zero l = absurd (omega arith)
  expression-Reads b s v h r (suc zero) l = absurd (omega arith)
  expression-Reads b s v h r (suc (suc f)) l =
      rw (find_end-brace b s h, interpolate_from)
        (rw (r f (omega (arith, l, length-append (body_text b) (b'}' ∷ s)))) refl)

  literal-Reads :
      (s rest : Str) (v : Result Str)
      → EndsPlain s
      → Reads rest v
      → Reads (escape s ++ rest) (write s v)
  literal-Reads [] rest v h r = unfold escape in rw (write_nothing v) r
  literal-Reads (c ∷ s) rest v h r =
      let ih = literal-Reads s rest v (EndsPlain-tail c s h) r in
      elim (Bool-cases (c == b'$')) [
        | inl e ↦
            let same : c ≡ b'$' = ground (arith, e) in
            let out = dollar-Reads (escape s ++ rest) (write s v) ih in
            rw (escape_dollar c s e, same) (rw (write-write b'$' s v) at out)
        | inr e ↦
            let out = plain-Reads c (escape s ++ rest) (write s v) e (before_plain c s rest h) ih in
            rw (escape_plain c s e) (rw (write-write c s v) at out)
      ]

  render-Reads : (ps : List Piece) → All Valid ps → Reads (render ps) (denote store ps)
  unfolding render denote
  render-Reads [] h = nothing-Reads
  render-Reads (literal s ∷ ps) (one, h) = literal-Reads s (render ps) _ one (render-Reads ps h)
  render-Reads (variable ref ∷ ps) (one, h) =
      variable-Reads ref (render ps) _ one (render-Reads ps h)
  render-Reads (expression b ∷ ps) (one, h) =
      expression-Reads b (render ps) _ one (render-Reads ps h)

  -- Interpolate gives the text that a template stands for, with the dollars of its literal parts escaped
  -- and its variables and expressions replaced, or the error of the first of these that has no value.
  -- No literal part ends in a backslash, no variable has a closing brace or begins with "fn:", and an
  -- expression has quotes, parentheses and closing braces only as its strings and groups.
  pub interpolate-render :
      (ps : List Piece) → All Valid ps → interpolate store (render ps) ≡ denote store ps
  unfolding interpolate
  interpolate-render ps h = render-Reads ps h (2 * length (render ps) + 1) (omega arith)
