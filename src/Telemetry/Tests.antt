-- ===== src/Telemetry/Tests.antt =====
-- Runs of core/telemetry on concrete records, and its theorems at concrete inputs.
use scrutineer.Prelude.{
  ◌≡◌, refl, none, some, [], ◌∷◌, ◌++◌, arith, GoMap, lookup, keys, Str, codes, str_eq, str_le,
  str_eq_iff,
}
use mathlib.Core.List.Perm
use scrutineer.Telemetry.Types.{
  eof, closed_pipe, truncated_record, Record, magic_bytes, format_version,
}
use scrutineer.Telemetry.Action.{ok, err}
use scrutineer.Telemetry.Wire.{buffer, le, un_le}
use scrutineer.Telemetry.Tags.{encode_tags, decode_tags}
use scrutineer.Telemetry.Tags.Order.{SameMap, encode_tags-SameMap}
use scrutineer.Telemetry.Codec.{encode_record, decode_record, read_header}
use scrutineer.Telemetry.Codec.RoundTrip.{
  Fits, decode_record-encode_record, read_header-write_header, header_bytes,
}
use scrutineer.Telemetry.Stream.{new_reader, new_writer, write, close, next, close_reader}
use scrutineer.Telemetry.Stream.Replay.{
  log_of, read_all, as_read, read_all-log_of, closed_stays_closed,
}

abbrev two_tags : GoMap Str
two_tags = (codes "test", codes "login") ∷ (codes "suite", codes "auth") ∷ []

abbrev two_tags_again : GoMap Str
two_tags_again = (codes "suite", codes "auth") ∷ (codes "test", codes "login") ∷ []

abbrev sample : Record
sample = record { timestamp = 1000; event_type = 3; tags = two_tags; detail = codes "ok" }

encode_tags-sample : encode_tags two_tags ≡ (
  5 ∷ 0 ∷ codes "suite" ++ 4 ∷ 0 ∷ codes "auth" ++ 4 ∷ 0 ∷ codes "test" ++ 5 ∷ 0 ∷ codes "login",
  2,
)
unfolding encode_tags keys str_le lookup str_eq le
encode_tags-sample = refl

decode_tags_cut : decode_tags (5 ∷ 0 ∷ codes "sui") 1 ≡ err truncated_record
unfolding decode_tags un_le
decode_tags_cut = refl

sample-Fits : Fits sample
unfolding encode_tags keys str_le lookup str_eq le
sample-Fits = record {
  timestamp_fits = omega arith;
  event_type_fits = omega arith;
  entries_fit = omega arith;
  count_fits = omega arith;
  tags_fit = omega arith;
  detail_fits = omega arith;
}

two_tags-SameMap : SameMap two_tags two_tags_again
unfolding keys lookup
two_tags-SameMap = (
  Perm.swap _ _ _,
  λ k. ground (arith, str_eq_iff (codes "test") k, str_eq_iff (codes "suite") k),
)

encode_tags-SameMap_example : encode_tags two_tags ≡ encode_tags two_tags_again
encode_tags-SameMap_example = encode_tags-SameMap two_tags two_tags_again two_tags-SameMap

decode_record-encode_record_example :
    (back : Record) × (decode_record
        (record { bytes = (encode_record buffer sample []).1 ++ (7 ∷ []); fail = none })
      ≡ (ok back, record { bytes = 7 ∷ []; fail = none }))
    × (back.timestamp ≡ 1000)
    × (back.event_type ≡ 3)
    × (back.detail ≡ codes "ok")
    × ((key : Str) → lookup key back.tags ≡ lookup key two_tags)
decode_record-encode_record_example = decode_record-encode_record sample (7 ∷ []) none sample-Fits

read_header-write_header_example :
    read_header (record { bytes = header_bytes 77 ++ (1 ∷ []); fail = none }) ≡ (
      ok (record { magic = magic_bytes; version = format_version; flags = 0; created_at = 77 }),
      record { bytes = 1 ∷ []; fail = none },
    )
read_header-write_header_example = read_header-write_header 77 (1 ∷ []) none (omega arith)

read_all-log_of_example :
    read_all 3
      (new_reader (record { bytes = log_of ((5, sample) ∷ (6, sample) ∷ []); fail = none }))
    ≡ some (as_read sample ∷ as_read sample ∷ [], eof)
read_all-log_of_example =
    read_all-log_of 5 sample ((6, sample) ∷ []) 3 (omega arith) (sample-Fits, (sample-Fits, tt))
      (omega arith)

closed_stays_closed_example :
    (let tw' = (close none (new_writer [])).1 in
      (write buffer 9 sample tw' ≡ (err closed_pipe, tw')) × ((close none tw').1 ≡ tw'))
    × (let tr' = (close_reader none (new_reader (record { bytes = 1 ∷ []; fail = none }))).1 in
        (next tr' ≡ (err closed_pipe, tr')) × ((close_reader none tr').1 ≡ tr'))
closed_stays_closed_example =
    closed_stays_closed (new_writer []) (new_reader (record { bytes = 1 ∷ []; fail = none })) 9
      sample
