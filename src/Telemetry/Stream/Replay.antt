-- ===== src/Telemetry/Stream/Replay.antt =====
-- A log that a Writer wrote, read back by a Reader.
use scrutineer.Prelude.{
  ℕ, zero, suc, ◌^◌, ◌<◌, ◌≡◌, refl, ap, ◌∙◌, true, false, Option, none, some, List, [], ◌∷◌, ◌++◌,
  map, append_assoc, append-nil, arith, Bytes, length, All,
}
use mathlib.Core.Option
use scrutineer.Telemetry.Types.{
  Error, eof, closed_pipe, truncated_header, Record, FileHeader, magic_bytes, format_version,
}
use scrutineer.Telemetry.Action.{Result, ok, err}
use scrutineer.Telemetry.Wire.{buffer, read_full, read_uint, short_error}
use scrutineer.Telemetry.Tags.RoundTrip.{canonical}
use scrutineer.Telemetry.Codec.{read_header, decode_record}
use scrutineer.Telemetry.Codec.RoundTrip.{
  Fits, record_bytes, header_bytes, encode_record-buffer, write_header-buffer,
  decode_record-record_bytes, read_header-write_header,
}
use scrutineer.Telemetry.Stream.{
  Writer, new_writer, write, close, Reader, new_reader, next, close_reader,
}

-- The calls of a program that records events, each with the clock's reading; it looks at no error.
unfoldable pub write_all : List (ℕ × Record) → Writer Bytes → Writer Bytes
write_all [] tw = tw
write_all ((now, rec) ∷ events) tw = write_all events (write buffer now rec tw).1

-- Next until it fails, with the error at the end; `fuel` bounds the number of calls.
unfoldable pub read_all : ℕ → Reader → Option (List Record × Error)
read_all zero tr = none
read_all (suc fuel) tr =
    let rest = read_all fuel (next tr).1 in
    elim ((next tr).0) [
      | err e ↦ some ([], e)
      | ok rec ↦ Option.map (λ (p : List Record × Error). (rec ∷ p.0, p.1)) rest
    ]

-- The records as they are read back.
abbrev pub as_read : Record → Record
as_read rec = record rec { tags = canonical rec.tags }

abbrev log_bytes : List (ℕ × Record) → Bytes
log_bytes [] = []
log_bytes ((now, rec) ∷ events) = record_bytes rec ++ log_bytes events

write_all_open :
    (events : List (ℕ × Record)) (out : Bytes)
    → write_all events (record { w = out; header_done = true; closed = false })
      ≡ record { w = out ++ log_bytes events; header_done = true; closed = false }
unfolding write_all write
write_all_open [] out = rw append-nil
write_all_open ((now, rec) ∷ events) out =
    rw (encode_record-buffer rec out, ← append_assoc out (record_bytes rec) (log_bytes events))
      (write_all_open events (out ++ record_bytes rec))

write_first :
    (now : ℕ) (rec : Record) (out : Bytes)
    → write buffer now rec (new_writer out) ≡ (
      ok tt,
      record {
        w = (out ++ header_bytes now) ++ record_bytes rec;
        header_done = true;
        closed = false;
      },
    )
unfolding write new_writer
write_first now rec out =
    cc (write_header-buffer now out, encode_record-buffer rec (out ++ header_bytes now))

write_all-new_writer :
    (now : ℕ) (rec : Record) (events : List (ℕ × Record))
    → (write_all ((now, rec) ∷ events) (new_writer [])).w
      ≡ header_bytes now ++ log_bytes ((now, rec) ∷ events)
unfolding write_all
write_all-new_writer now rec events =
    ap (λ (r : Result (Unit {0}) × Writer Bytes). (write_all events r.1).w) (write_first now rec [])
    ∙ ap (λ (tw : Writer Bytes). tw.w)
        (write_all_open events (header_bytes now ++ record_bytes rec))
    ∙ append_assoc (header_bytes now) (record_bytes rec) (log_bytes events)

read_all_ok :
    (fuel : ℕ) (tr tr' : Reader) (rec : Record)
    → next tr ≡ (ok rec, tr')
    → read_all (suc fuel) tr
      ≡ Option.map (λ (p : List Record × Error). (rec ∷ p.0, p.1)) (read_all fuel tr')
unfolding read_all
read_all_ok fuel tr tr' rec e = rw (e, read_all) (rw e)

read_all_err :
    (fuel : ℕ) (tr tr' : Reader) (e : Error)
    → next tr ≡ (err e, tr')
    → read_all (suc fuel) tr ≡ some ([], e)
unfolding read_all
read_all_err fuel tr tr' e h = rw (h, read_all)

-- A reader behind the header, in front of `bytes`.
abbrev reading : FileHeader → Bytes → Reader
reading hdr bytes = record {
  r = record { bytes = bytes; fail = none };
  header_done = true;
  header = some hdr;
  closed = false;
}

abbrev header_at : ℕ → FileHeader
header_at now = record {
  magic = magic_bytes;
  version = format_version;
  flags = 0;
  created_at = now;
}

next-reading :
    (hdr : FileHeader) (rec : Record) (rest : Bytes)
    → Fits rec
    → next (reading hdr (record_bytes rec ++ rest)) ≡ (ok (as_read rec), reading hdr rest)
unfolding next
next-reading hdr rec rest h = rw (decode_record-record_bytes rec rest none h)

next_first :
    (now : ℕ) (rec : Record) (rest : Bytes)
    → now < 2 ^ 64
    → Fits rec
    → next (
        new_reader (record { bytes = header_bytes now ++ (record_bytes rec ++ rest); fail = none }))
      ≡ (ok (as_read rec), reading (header_at now) rest)
unfolding next new_reader
next_first now rec rest hn h = cc (
  read_header-write_header now (record_bytes rec ++ rest) none hn,
  decode_record-record_bytes rec rest none h,
)

decode_record-nil :
    decode_record (record { bytes = []; fail = none })
    ≡ (err eof, record { bytes = []; fail = none })
unfolding decode_record read_uint short_error
decode_record-nil = refl

next-nil : (hdr : FileHeader) → next (reading hdr []) ≡ (err eof, reading hdr [])
unfolding next
next-nil hdr = rw decode_record-nil

read_all_open :
    (events : List (ℕ × Record)) (hdr : FileHeader) (fuel : ℕ)
    → All (λ e. Fits e.1) events
    → length events < fuel
    → read_all fuel (reading hdr (log_bytes events)) ≡ some (map (λ e. as_read e.1) events, eof)
read_all_open events hdr zero h f = absurd (omega arith)
read_all_open [] hdr (suc fuel) h f = read_all_err fuel _ _ eof (next-nil hdr)
read_all_open ((now, rec) ∷ events) hdr (suc fuel) (hr, h) f =
    read_all_ok fuel _ _ _ (next-reading hdr rec (log_bytes events) hr)
    ∙ rw (read_all_open events hdr fuel h (omega arith))

-- The log of `events`, written by a new Writer into an empty buffer.
unfoldable pub log_of : List (ℕ × Record) → Bytes
log_of events = (write_all events (new_writer [])).w

-- A log of one or more records, each of which fits the format, is read back record for record, in
-- order, with the tags in their canonical form, and Next then answers io.EOF. One call of Next for
-- each record and one more are enough.
pub read_all-log_of :
    (now : ℕ) (rec : Record) (events : List (ℕ × Record)) (fuel : ℕ)
    → now < 2 ^ 64
    → All (λ e. Fits e.1) ((now, rec) ∷ events)
    → suc (length events) < fuel
    → read_all fuel (new_reader (record { bytes = log_of ((now, rec) ∷ events); fail = none }))
      ≡ some (map (λ e. as_read e.1) ((now, rec) ∷ events), eof)
unfolding log_of
read_all-log_of now rec events zero hn h f = absurd (omega arith)
read_all-log_of now rec events (suc fuel) hn (hr, h) f = rw (write_all-new_writer now rec events) (
    read_all_ok fuel _ _ _ (next_first now rec (log_bytes events) hn hr)
    ∙ rw (read_all_open events (header_at now) fuel h (omega arith)))

-- A log that was closed before its first record is empty, and its reader answers with an error of
-- the header instead of io.EOF.
pub next_of_empty_log :
    (next (new_reader (record { bytes = log_of []; fail = none }))).0 ≡ err truncated_header
unfolding next log_of new_reader new_writer write_all read_header read_full short_error
next_of_empty_log = refl

-- A closed writer writes nothing and answers io.ErrClosedPipe; a closed reader reads nothing and
-- answers the same; closing twice changes nothing more.
pub closed_stays_closed :
    (tw : Writer Bytes) (tr : Reader) (now : ℕ) (rec : Record)
    → (let tw' = (close none tw).1 in
        (write buffer now rec tw' ≡ (err closed_pipe, tw')) × ((close none tw').1 ≡ tw'))
      × (let tr' = (close_reader none tr).1 in
          (next tr' ≡ (err closed_pipe, tr')) × ((close_reader none tr').1 ≡ tr'))
unfolding close close_reader write next
closed_stays_closed tw tr now rec = ground arith
