-- ===== src/Telemetry/Codec.antt =====
-- The header and the records of core/telemetry/tlv.go. A function that returns a value with an
-- error returns the error alone here: no caller in the package looks at the value then.
pub mod RoundTrip
use scrutineer.Prelude.{
  ℕ, zero, suc, ◌+◌, ◌-◌, ◌*◌, ◌/◌, ◌%◌, ◌^◌, ◌≤◌, ◌<◌, ◌≡◌, refl, sym, ap, ◌∙◌, ◌≢◌, ◌↔◌, ◌⊎◌, inl,
  inr, Bool, true, false, ◌&&◌, ◌||◌, not, Option, none, some, List, [], ◌∷◌, ◌++◌, map,
  append_assoc, append-nil, arith, GoMap, lookup, insert, keys, lookup-insert, lookup-insert_self,
  Bytes, Str, codes, str_eq, str_le, str_eq_iff, str_eq_refl, range, sum, ltb, leb, ◌==◌,
  if◌then◌else◌, Bool-cases, Option-cases, length, get_elem?, get_or, set, take, drop, All,
  length-append, length-set, take-length_append, drop-length_append, length-map, ltb→lt, lt→ltb,
  ltb-false, le→ltb-false, leb→le, ==_iff,
}
use scrutineer.Telemetry.Types.{
  Error, eof, unexpected_eof, invalid_magic, unsupported_version, truncated_header,
  truncated_record, wrapped, Record, FileHeader, magic_bytes, format_version,
}
use scrutineer.Telemetry.Action.{
  Result, ok, err, Act, pure, raise, on_error, failing_as, wrap, continue, ◌>>=◌, ◌>>◌,
}
use scrutineer.Telemetry.Wire.{le, Source, read_full, read_uint, un_le}
use scrutineer.Telemetry.Tags.{encode_tags, decode_tags}

module _ {W : Type 0} (write : Bytes → Act W (Unit {0})) where
  -- WriteHeader: binary.Write of the struct is one call of Write.
  unfoldable pub write_header : ℕ → Act W (Unit {0})
  write_header created_at =
      write (magic_bytes ++ (le 2 format_version ++ (le 2 0 ++ le 8 created_at)))

  -- `if len(bs) > 0 { w.Write(bs) }`
  write_if_any : Bytes → Act W (Unit {0})
  write_if_any bs = if ltb 0 (length bs) then write bs else pure tt

  -- EncodeRecord
  unfoldable pub encode_record : Record → Act W (Unit {0})
  unfolding write_if_any
  encode_record rec = do
    let tags_bytes = (encode_tags rec.tags).0
    let tag_count = (encode_tags rec.tags).1
    wrap (codes "telemetry: writing timestamp") (write (le 8 rec.timestamp))
    wrap (codes "telemetry: writing event type") (write (le 2 rec.event_type))
    wrap (codes "telemetry: writing tag count") (write (le 2 tag_count))
    wrap (codes "telemetry: writing tags length") (write (le 4 (length tags_bytes % 2 ^ 32)))
    wrap (codes "telemetry: writing detail length") (write (le 4 (length rec.detail % 2 ^ 32)))
    wrap (codes "telemetry: writing tags") (write_if_any tags_bytes)
    wrap (codes "telemetry: writing detail") (write_if_any rec.detail)

-- The two end-of-file errors inside a header, and any other.
header_error : Error → Error
header_error eof = truncated_header
header_error unexpected_eof = truncated_header
header_error e = wrapped (codes "telemetry: reading header") e

validate_header : FileHeader → Result FileHeader
validate_header hdr =
    if not (str_eq hdr.magic magic_bytes)
    then err invalid_magic
    else if not (hdr.version == format_version)
    then err unsupported_version
    else ok hdr

-- ReadHeader: binary.Read of the struct reads its 16 bytes at once.
unfoldable pub read_header : Act Source FileHeader
unfolding header_error validate_header
read_header = do
  bs ← failing_as header_error (read_full 16)
  λ s. (
    validate_header (record {
      magic = take 4 bs;
      version = un_le (take 2 (drop 4 bs));
      flags = un_le (take 2 (drop 6 bs));
      created_at = un_le (drop 8 bs);
    }),
    s,
  )

-- The first field: the end of the stream before it is no error of the format.
start_error : Error → Error
start_error eof = eof
start_error unexpected_eof = truncated_record
start_error e = wrapped (codes "telemetry: reading timestamp") e

-- The fields behind the first.
field_error : Str → Error → Error
field_error msg eof = truncated_record
field_error msg unexpected_eof = truncated_record
field_error msg e = wrapped msg e

-- The tags of a record, read if there is a byte of them.
unfoldable pub read_tags : ℕ → ℕ → Act Source (GoMap Str)
unfolding field_error
read_tags tags_len tag_count =
    if ltb 0 tags_len
    then (do
      bs ← failing_as (field_error (codes "telemetry: reading tags data")) (read_full tags_len)
      λ s. (decode_tags bs tag_count, s))
    else pure []

unfoldable pub read_detail : ℕ → Act Source Bytes
unfolding field_error
read_detail detail_len =
    if ltb 0 detail_len
    then failing_as (field_error (codes "telemetry: reading detail data")) (read_full detail_len)
    else pure []

-- DecodeRecord
unfoldable pub decode_record : Act Source Record
unfolding start_error field_error
decode_record = do
  timestamp ← failing_as start_error (read_uint 8)
  event_type ← failing_as (field_error (codes "telemetry: reading event type")) (read_uint 2)
  tag_count ← failing_as (field_error (codes "telemetry: reading tag count")) (read_uint 2)
  tags_len ← failing_as (field_error (codes "telemetry: reading tags length")) (read_uint 4)
  detail_len ← failing_as (field_error (codes "telemetry: reading detail length")) (read_uint 4)
  tags ← read_tags tags_len tag_count
  detail ← read_detail detail_len
  pure (record { timestamp = timestamp; event_type = event_type; tags = tags; detail = detail })
