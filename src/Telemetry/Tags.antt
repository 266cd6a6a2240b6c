-- ===== src/Telemetry/Tags.antt =====
-- encodeTags and decodeTags of core/telemetry/tlv.go.
pub mod Order
pub mod RoundTrip
use scrutineer.Prelude.{
  ℕ, zero, suc, ◌%◌, ◌^◌, List, [], ◌∷◌, ◌++◌, Bytes, Str, GoMap, lookup, insert, keys, length,
  take, drop, ltb, Option, none, some, if◌then◌else◌, str_le,
}
use scrutineer.Telemetry.Types.{truncated_record}
use scrutineer.Telemetry.Action.{Result, ok, err}
use scrutineer.Telemetry.Wire.{le, un_le}

-- sort.Strings, by insertion.
pub insert_sorted : Str → List Str → List Str
insert_sorted k [] = k ∷ []
insert_sorted k (j ∷ js) = if str_le k j then k ∷ j ∷ js else j ∷ insert_sorted k js

pub sort_strings : List Str → List Str
sort_strings [] = []
sort_strings (k ∷ ks) = insert_sorted k (sort_strings ks)

-- The zero value of a missing key.
abbrev pub tag_value : GoMap Str → Str → Str
tag_value tags k = elim (lookup k tags) [ none ↦ [] | some v ↦ v ]

-- A length in two bytes, cut off at 16 bits, and the text.
pub encode_text : Str → Bytes
encode_text s = le 2 (length s % 2 ^ 16) ++ s

pub encode_entries : GoMap Str → List Str → Bytes
encode_entries tags [] = []
encode_entries tags (k ∷ ks) =
    encode_text k ++ (encode_text (tag_value tags k) ++ encode_entries tags ks)

-- The data, and the uint16 count.
unfoldable pub encode_tags : GoMap Str → Bytes × ℕ
unfolding insert_sorted sort_strings encode_text encode_entries
encode_tags tags =
    let sorted = sort_strings (keys tags) in (encode_entries tags sorted, length sorted % 2 ^ 16)

-- A length in two bytes and a text of that length, with what follows.
pub decode_text : Bytes → Result (Str × Bytes)
decode_text rest =
    let size = un_le (take 2 rest) in
    let body = drop 2 rest in
    if ltb (length rest) 2
    then err truncated_record
    else if ltb (length body) size
    then err truncated_record
    else ok (take size body, drop size body)

infixl 10 ◌>>=◌
abbrev ◌>>=◌ {ℓ κ} : {A : Type ℓ} {B : Type κ} → Result A → (A → Result B) → Result B
ok a >>= f = f a
err e >>= f = err e

-- The loop of decodeTags: the entries still to read, the data from `offset` on, and the map so far.
pub decode_entries : ℕ → Bytes → GoMap Str → Result (GoMap Str)
decode_entries zero rest tags = ok tags
decode_entries (suc n) rest tags = do
  (key, rest1) ← decode_text rest
  (val, rest2) ← decode_text rest1
  decode_entries n rest2 (insert key val tags)

unfoldable pub decode_tags : Bytes → ℕ → Result (GoMap Str)
unfolding decode_text decode_entries
decode_tags bytes count = decode_entries count bytes []
