-- ===== src/Telemetry/Stream.antt =====
-- core/telemetry/writer.go and reader.go.
pub mod Replay
use scrutineer.Prelude.{
  ℕ, zero, suc, ◌+◌, ◌-◌, ◌*◌, ◌/◌, ◌%◌, ◌^◌, ◌≤◌, ◌<◌, ◌≡◌, refl, sym, ap, ◌∙◌, ◌≢◌, ◌↔◌, ◌⊎◌, inl,
  inr, Bool, true, false, ◌&&◌, ◌||◌, not, Option, none, some, List, [], ◌∷◌, ◌++◌, map,
  append_assoc, append-nil, arith, GoMap, lookup, insert, keys, lookup-insert, lookup-insert_self,
  Bytes, Str, codes, str_eq, str_le, str_eq_iff, str_eq_refl, range, sum, ltb, leb, ◌==◌,
  if◌then◌else◌, Bool-cases, Option-cases, length, get_elem?, get_or, set, take, drop, All,
  length-append, length-set, take-length_append, drop-length_append, length-map, ltb→lt, lt→ltb,
  ltb-false, le→ltb-false, leb→le, ==_iff,
}
use scrutineer.Telemetry.Types.{Error, eof, closed_pipe, Record, FileHeader}
use scrutineer.Telemetry.Action.{Result, ok, err, Act, raise, pure, ◌>>=◌, ◌>>◌, continue}
use scrutineer.Telemetry.Wire.{Source, buffer}
use scrutineer.Telemetry.Codec.{write_header, encode_record, read_header, decode_record}

pub record Writer (W : Type 0) : Type 0 where
  pub w : W
  pub header_done : Bool
  pub closed : Bool

-- NewWriter
unfoldable pub new_writer : {W : Type 0} → W → Writer W
new_writer w = record { w = w; header_done = false; closed = false }

-- A call on the stream inside.
abbrev pub on_w : {W A : Type 0} → Act W A → Act (Writer W) A
on_w m tw = let (r, w') = m tw.w in (r, record tw { w = w' })

abbrev pub mark_header : {W : Type 0} → Act (Writer W) (Unit {0})
mark_header tw = (ok tt, record tw { header_done = true })

module _ {W : Type 0} (write_bytes : Bytes → Act W (Unit {0})) where
  -- Writer.Write; `now` is the reading of the clock for the header.
  unfoldable pub write : ℕ → Record → Act (Writer W) (Unit {0})
  write now rec tw =
      if tw.closed
      then (err closed_pipe, tw)
      else if not tw.header_done
      then (on_w (write_header write_bytes now)
            >> mark_header
            >> on_w (encode_record write_bytes rec))
          tw
      else on_w (encode_record write_bytes rec) tw

-- Writer.Close and Reader.Close; `closer` is the Close of the stream, where it has one.
unfoldable pub close : {W : Type 0} → Option (Act W (Unit {0})) → Act (Writer W) (Unit {0})
close closer tw = if tw.closed then (ok tt, tw) else elim closer [
  | none ↦ (ok tt, record tw { closed = true })
  | some c ↦ on_w c (record tw { closed = true })
]

pub record Reader : Type 0 where
  pub r : Source
  pub header_done : Bool
  pub header : Option FileHeader
  pub closed : Bool

-- NewReader; `header` is `none` until it is read.
unfoldable pub new_reader : Source → Reader
new_reader r = record { r = r; header_done = false; header = none; closed = false }

abbrev pub on_r : {A : Type 0} → Act Source A → Act Reader A
on_r m tr = let (res, r') = m tr.r in (res, record tr { r = r' })

abbrev pub keep_header : FileHeader → Act Reader (Unit {0})
keep_header hdr tr = (ok tt, record tr { header = some hdr; header_done = true })

-- Reader.Next
unfoldable pub next : Act Reader Record
next tr =
    if tr.closed
    then (err closed_pipe, tr)
    else if not tr.header_done
    then (on_r read_header >>= λ hdr. keep_header hdr >> on_r decode_record) tr
    else on_r decode_record tr

-- Reader.Close
unfoldable pub close_reader : Option (Act Source (Unit {0})) → Act Reader (Unit {0})
close_reader closer tr = if tr.closed then (ok tt, tr) else elim closer [
  | none ↦ (ok tt, record tr { closed = true })
  | some c ↦ on_r c (record tr { closed = true })
]
