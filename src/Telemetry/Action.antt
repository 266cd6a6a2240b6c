-- ===== src/Telemetry/Action.antt =====
-- Calls that may fail and that change a stream. What was read or written before an error stays
-- read or written, so the stream comes back beside the error too.
use scrutineer.Prelude.{Str}
use scrutineer.Telemetry.Types.{Error, wrapped}

pub data Result {ℓ} (A : Type ℓ) : Type ℓ where
  ok : A → Result A
  err : Error → Result A

-- `if err != nil { return h(err) }`
abbrev pub on_error : {A : Type 0} → (Error → Error) → Result A → Result A
on_error h (ok a) = ok a
on_error h (err e) = err (h e)

abbrev pub Act : Type 0 → Type 0 → Type 0
Act S A = S → Result A × S

module _ {S A : Type 0} where
  abbrev pub pure : A → Act S A
  pure a s = (ok a, s)

  abbrev pub raise : Error → Act S A
  raise e s = (err e, s)

  abbrev pub failing_as : (Error → Error) → Act S A → Act S A
  failing_as h m s = let (r, s') = m s in (on_error h r, s')

  abbrev pub wrap : Str → Act S A → Act S A
  wrap msg m = failing_as (wrapped msg) m

module _ {S A B : Type 0} where
  abbrev pub continue : Result A → (A → Act S B) → Act S B
  continue (ok a) f s = f a s
  continue (err e) f s = (err e, s)

  infixl 10 ◌>>=◌ ◌>>◌
  abbrev pub ◌>>=◌ : Act S A → (A → Act S B) → Act S B
  ◌>>=◌ m f s = let (r, s') = m s in continue r f s'

  abbrev pub ◌>>◌ : Act S A → Act S B → Act S B
  m >> n = m >>= λ _. n
