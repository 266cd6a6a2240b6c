-- ===== src/Telemetry/Wire.antt =====
-- encoding/binary in little-endian order over an io.Reader and an io.Writer.
use scrutineer.Prelude.{
  ℕ, zero, suc, ◌+◌, ◌*◌, ◌/◌, ◌%◌, ◌^◌, ◌<◌, ◌≡◌, refl, ap, [], ◌∷◌, ◌++◌, Bytes, length, take,
  drop, leb, Option, none, some, if◌then◌else◌, arith, take-length_append, drop-length_append,
  length-append, All,
}
use scrutineer.Telemetry.Types.{Error, eof, unexpected_eof, io}
use scrutineer.Telemetry.Action.{ok, err, Act, pure, ◌>>=◌}

-- The `width` bytes of `v`, lowest first; the bits above them are cut off.
unfoldable pub le : ℕ → ℕ → Bytes
le zero v = []
le (suc width) v = (v % 256) ∷ le width (v / 256)

unfoldable pub un_le : Bytes → ℕ
un_le [] = 0
un_le (b ∷ bs) = b + 256 * un_le bs

-- A reader: the bytes still to come, and the error that follows them, `none` for io.EOF.
pub record Source : Type 0 where
  pub bytes : Bytes
  pub fail : Option ℕ

-- The error of io.ReadFull after `got` of the wanted bytes.
unfoldable pub short_error : Option ℕ → ℕ → Error
short_error (some e) got = io e
short_error none zero = eof
short_error none (suc got) = unexpected_eof

-- io.ReadFull(r, buf) with len(buf) = n.
unfoldable pub read_full : ℕ → Act Source Bytes
read_full n s =
    if leb n (length s.bytes)
    then (ok (take n s.bytes), record s { bytes = drop n s.bytes })
    else (err (short_error s.fail (length s.bytes)), record s { bytes = [] })

-- binary.Read of an unsigned integer of `width` bytes.
unfoldable pub read_uint : ℕ → Act Source ℕ
unfolding read_full
read_uint width = read_full width >>= λ bs. pure (un_le bs)

-- A writer that takes every byte, as bytes.Buffer does.
abbrev pub buffer : Bytes → Act Bytes (Unit {0})
buffer bs out = (ok tt, out ++ bs)

pub length-le : (width v : ℕ) → length (le width v) ≡ width
unfolding le
length-le zero v = refl
length-le (suc width) v = ap suc (length-le width (v / 256))

pub un_le-le : (width v : ℕ) → v < 256 ^ width → un_le (le width v) ≡ v
unfolding le un_le
un_le-le zero v h = omega arith
un_le-le (suc width) v h = omega (arith, un_le-le width (v / 256) (omega arith))

pub le_bytes : (width v : ℕ) → All (λ b. b < 256) (le width v)
unfolding le
le_bytes zero v = tt
le_bytes (suc width) v = (omega arith, le_bytes width (v / 256))

-- Reading as many bytes as there are in front.
pub read_full-append :
    (n : ℕ) (xs rest : Bytes) (fail : Option ℕ)
    → length xs ≡ n
    → read_full n (record { bytes = xs ++ rest; fail = fail })
      ≡ (ok xs, record { bytes = rest; fail = fail })
unfolding read_full
read_full-append n xs rest fail h =
    ground (arith, length-append xs rest, take-length_append xs rest, drop-length_append xs rest)

pub read_uint-le :
    (width v : ℕ) (rest : Bytes) (fail : Option ℕ)
    → v < 256 ^ width
    → read_uint width (record { bytes = le width v ++ rest; fail = fail })
      ≡ (ok v, record { bytes = rest; fail = fail })
read_uint-le width v rest fail h =
    unfold read_uint in
    rw (read_full-append width (le width v) rest fail (length-le width v), un_le-le width v h)
