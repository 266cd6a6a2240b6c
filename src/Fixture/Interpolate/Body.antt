-- ===== src/Fixture/Interpolate/Body.antt =====
-- The bodies of "${fn:...}": text, groups in parentheses, and strings in quotes, which may hold any
-- byte; a quote or a backslash in a string has a backslash in front.
use scrutineer.Prelude.{ℕ, ◌≡◌, Bool, false, ◌||◌, [], ◌∷◌, ◌++◌, Str, ◌==◌, if◌then◌else◌}

pub data Body : Type 0 where
  empty : Body
  char : ℕ → Body → Body
  group : Body → Body → Body
  single double : Str → Body → Body

-- A string up to its closing quote.
unfoldable pub quoted : ℕ → Str → Str
quoted q [] = q ∷ []
quoted q (c ∷ s) = if (c == q) || (c == b'\\') then b'\\' ∷ c ∷ quoted q s else c ∷ quoted q s

unfoldable pub body_text : Body → Str
body_text empty = []
body_text (char c b) = c ∷ body_text b
body_text (group b b') = b'(' ∷ (body_text b ++ b')' ∷ body_text b')
body_text (single s b) = b'\'' ∷ (quoted b'\'' s ++ body_text b)
body_text (double s b) = b'"' ∷ (quoted b'"' s ++ body_text b)

abbrev pub is_special : ℕ → Bool
is_special c = (c == b'\'') || ((c == b'"') || ((c == b'(') || ((c == b')') || (c == b'}'))))

abbrev pub ValidBody : Body → Type 0
ValidBody empty = Unit
ValidBody (char c b) = (is_special c ≡ false) × ValidBody b
ValidBody (group b b') = ValidBody b × ValidBody b'
ValidBody (single s b) = ValidBody b
ValidBody (double s b) = ValidBody b
