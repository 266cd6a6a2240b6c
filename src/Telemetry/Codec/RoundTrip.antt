-- ===== src/Telemetry/Codec/RoundTrip.antt =====
-- DecodeRecord reads back what EncodeRecord wrote, and ReadHeader what WriteHeader wrote.
use scrutineer.Prelude.{
  ℕ, suc, ◌%◌, ◌^◌, ◌<◌, ◌≡◌, refl, inl, inr, Option, [], ◌∷◌, ◌++◌, append_assoc, append-nil,
  arith, GoMap, lookup, Bytes, Str, str_eq, ltb, Bool-cases, length, All, lt→ltb, ltb-false,
}
use scrutineer.Telemetry.Types.{Record, magic_bytes, format_version}
use scrutineer.Telemetry.Action.{ok}
use scrutineer.Telemetry.Wire.{le, un_le, un_le-le, buffer, read_full-append, read_uint-le}
use scrutineer.Telemetry.Tags.{encode_tags}
use scrutineer.Telemetry.Tags.RoundTrip.{
  EntryFits, length-encode_tags, canonical, lookup-canonical, decode_tags-encode_tags,
}
use scrutineer.Telemetry.Codec.{
  write_header, encode_record, decode_record, read_header, write_if_any, read_tags, read_detail,
}

-- The bytes of a record.
unfoldable pub record_bytes : Record → Bytes
record_bytes rec =
    le 8 rec.timestamp
    ++ (le 2 rec.event_type
        ++ (le 2 (encode_tags rec.tags).1
            ++ (le 4 (length (encode_tags rec.tags).0 % 2 ^ 32)
                ++ (le 4 (length rec.detail % 2 ^ 32)
                    ++ ((encode_tags rec.tags).0 ++ rec.detail)))))

write_if_any-buffer : (bs out : Bytes) → write_if_any buffer bs out ≡ (ok tt, out ++ bs)
unfolding write_if_any
write_if_any-buffer [] out = rw append-nil
write_if_any-buffer (b ∷ bs) out = rw (lt→ltb 0 (suc (length bs)) (omega arith))

-- Into a buffer EncodeRecord appends the bytes, with no error.
pub encode_record-buffer :
    (rec : Record) (out : Bytes) → encode_record buffer rec out ≡ (ok tt, out ++ record_bytes rec)
unfolding encode_record record_bytes
encode_record-buffer rec out =
    rw (write_if_any-buffer, write_if_any-buffer rec.detail) (simp append_assoc)

-- What the fixed-width fields of the format can hold.
pub record Fits (rec : Record) : Type 0 where
  pub timestamp_fits : rec.timestamp < 2 ^ 64
  pub event_type_fits : rec.event_type < 2 ^ 16
  pub entries_fit : All EntryFits rec.tags
  pub count_fits : length rec.tags < 2 ^ 16
  pub tags_fit : length (encode_tags rec.tags).0 < 2 ^ 32
  pub detail_fits : length rec.detail < 2 ^ 32

read_tags-none :
    (m : GoMap Str) (rest : Bytes) (fail : Option ℕ)
    → length (encode_tags m).0 ≡ 0
    → read_tags 0 (encode_tags m).1 (record { bytes = (encode_tags m).0 ++ rest; fail = fail })
      ≡ (ok (canonical m), record { bytes = rest; fail = fail })
unfolding read_tags encode_tags canonical
read_tags-none [] rest fail h = refl
read_tags-none (e ∷ m) rest fail h = absurd (omega (arith, length-encode_tags (e ∷ m)))

read_tags-encode_tags :
    (m : GoMap Str) (rest : Bytes) (fail : Option ℕ)
    → All EntryFits m
    → length m < 2 ^ 16
    → read_tags
        (length (encode_tags m).0)
        (encode_tags m).1
        (record { bytes = (encode_tags m).0 ++ rest; fail = fail })
      ≡ (ok (canonical m), record { bytes = rest; fail = fail })
read_tags-encode_tags m rest fail h hn = elim (Bool-cases (ltb 0 (length (encode_tags m).0))) [
  | inl e ↦
      unfold read_tags in
      rw
        (
          e,
          read_full-append (length (encode_tags m).0) (encode_tags m).0 rest fail refl,
          ← append-nil (encode_tags m).0,
        )
        (rw (decode_tags-encode_tags m [] h hn))
  | inr e ↦
      let z : length (encode_tags m).0 ≡ 0 = omega (arith, ltb-false _ _ e) in
      rw z (read_tags-none m rest fail z)
]

encode_tags_count : (m : GoMap Str) → (encode_tags m).1 < 2 ^ 16
unfolding encode_tags
encode_tags_count m = omega arith

read_detail-append :
    (detail rest : Bytes) (fail : Option ℕ)
    → read_detail (length detail) (record { bytes = detail ++ rest; fail = fail })
      ≡ (ok detail, record { bytes = rest; fail = fail })
unfolding read_detail
read_detail-append [] rest fail = refl
read_detail-append (b ∷ bs) rest fail = rw (
  lt→ltb 0 (suc (length bs)) (omega arith),
  read_full-append (suc (length bs)) (b ∷ bs) rest fail refl,
)

-- DecodeRecord on the bytes of a record that fits the format, with anything behind them.
pub decode_record-record_bytes :
    (rec : Record) (rest : Bytes) (fail : Option ℕ)
    → Fits rec
    → decode_record (record { bytes = record_bytes rec ++ rest; fail = fail })
      ≡ (ok (record rec { tags = canonical rec.tags }), record { bytes = rest; fail = fail })
unfolding decode_record record_bytes
decode_record-record_bytes rec rest fail f =
    let c : (encode_tags rec.tags).1 < 2 ^ 16 = omega (arith, encode_tags_count rec.tags) in
    let t : length (encode_tags rec.tags).0 % 2 ^ 32 ≡ length (encode_tags rec.tags).0 =
      omega (arith, f.tags_fit) in
    let d : length rec.detail % 2 ^ 32 ≡ length rec.detail = omega (arith, f.detail_fits) in
    simp append_assoc (
      rw (
        t,
        d,
        read_uint-le 8 rec.timestamp _ fail f.timestamp_fits,
        read_uint-le 2 rec.event_type _ fail f.event_type_fits,
        read_uint-le 2 (encode_tags rec.tags).1 _ fail c,
        read_uint-le 4 (length (encode_tags rec.tags).0) _ fail f.tags_fit,
        read_uint-le 4 (length rec.detail) _ fail f.detail_fits,
        read_tags-encode_tags rec.tags (rec.detail ++ rest) fail f.entries_fit f.count_fits,
        read_detail-append rec.detail rest fail,
      ))

-- A record that fits the format, written by EncodeRecord into a buffer and read by DecodeRecord
-- with anything behind it, comes back with its timestamp, event type and detail, and with a map of
-- tags that gives the same answer for every key; the reader stops behind the record.
pub decode_record-encode_record :
    (rec : Record) (rest : Bytes) (fail : Option ℕ)
    → Fits rec
    → (back : Record) × (decode_record
          (record { bytes = (encode_record buffer rec []).1 ++ rest; fail = fail })
        ≡ (ok back, record { bytes = rest; fail = fail }))
      × (back.timestamp ≡ rec.timestamp)
      × (back.event_type ≡ rec.event_type)
      × (back.detail ≡ rec.detail)
      × ((key : Str) → lookup key back.tags ≡ lookup key rec.tags)
decode_record-encode_record rec rest fail f = (
  record rec { tags = canonical rec.tags },
  rw (encode_record-buffer rec []) (decode_record-record_bytes rec rest fail f),
  refl,
  refl,
  refl,
  lookup-canonical rec.tags,
)

-- What WriteHeader writes into a buffer.
unfoldable pub header_bytes : ℕ → Bytes
header_bytes created_at = (write_header buffer created_at []).1

pub write_header-buffer :
    (now : ℕ) (out : Bytes) → write_header buffer now out ≡ (ok tt, out ++ header_bytes now)
unfolding write_header header_bytes
write_header-buffer now out = refl

-- ReadHeader accepts what WriteHeader wrote, with the time of creation, and reads 16 bytes of it.
pub read_header-write_header :
    (created_at : ℕ) (rest : Bytes) (fail : Option ℕ)
    → created_at < 2 ^ 64
    → read_header (record { bytes = header_bytes created_at ++ rest; fail = fail }) ≡ (
      ok (record {
        magic = magic_bytes;
        version = format_version;
        flags = 0;
        created_at = created_at;
      }),
      record { bytes = rest; fail = fail },
    )
unfolding read_header header_bytes write_header le un_le str_eq
read_header-write_header created_at rest fail h =
    rw (read_full-append 16 (header_bytes created_at) rest fail refl, un_le-le 8 created_at h)
