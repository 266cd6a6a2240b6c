-- ===== src/Fixture/Tests.antt =====
-- A template with two variables, and the theorem there.
use scrutineer.Fixture.Interpolate.{
  ok, Store, expression_of, interpolate, interpolate_from, to_brace, find_end,
}
use scrutineer.Fixture.Interpolate.Body.{empty, char, group, double}
use scrutineer.Fixture.Interpolate.Template.{Piece, literal, variable, expression, render, denote}
use scrutineer.Fixture.Interpolate.RoundTrip.{interpolate-render}
use scrutineer.Prelude.{◌≡◌, refl, none, some, List, [], ◌∷◌, codes, str_eq, if◌then◌else◌}

-- One variable is known, and an expression is its own value.
abbrev store : Store
store = record {
  resolve = λ ref. if str_eq ref (codes "fixture.x") then some (codes "7") else none;
  eval_expression = λ body. some body;
}

-- $1 is \ and ${fixture.x}${fn:f("}")}.
abbrev template : List Piece
template =
    literal (codes "$1 is \\ and ")
    ∷ variable (codes "fixture.x")
    ∷ expression (char b'f' (group (double (codes "}") empty) empty))
    ∷ literal (codes ".")
    ∷ []

interpolate-render_example : interpolate store (render template) ≡ denote store template
unfolding expression_of
interpolate-render_example = interpolate-render store template (
  refl,
  (
    ((refl, (refl, (refl, (refl, (refl, (refl, (refl, (refl, (refl, tt))))))))), refl),
    ((refl, (tt, tt)), (refl, tt)),
  ),
)

-- ${fn:f(")}", ')')}!
expression_test : interpolate store (codes "${fn:f(\")}\", ')')}!") ≡ ok (codes "f(\")}\", ')')!")
unfolding interpolate interpolate_from expression_of find_end
expression_test = refl

-- A backslash before a backslash does not escape it, so no text can put one in front of a variable.
backslash_test : interpolate store (codes "\\\\${fixture.x}") ≡ ok (codes "\\${fixture.x}")
unfolding interpolate interpolate_from
backslash_test = refl

unclosed_test : interpolate store (codes "${x") ≡ ok (codes "${x")
unfolding interpolate interpolate_from expression_of to_brace
unclosed_test = refl
