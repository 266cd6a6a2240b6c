-- ===== src/Telemetry/Tags/RoundTrip.antt =====
-- decodeTags reads back what encodeTags wrote.
use scrutineer.Prelude.{
  ℕ, suc, ◌+◌, ◌*◌, ◌/◌, ◌%◌, ◌^◌, ◌≤◌, ◌<◌, ◌≡◌, refl, ap, ◌∙◌, inl, inr, Bool, true, false, none,
  some, List, [], ◌∷◌, ◌++◌, append_assoc, arith, GoMap, lookup, insert, keys, lookup-insert, Bytes,
  Str, str_eq, str_le, str_eq_iff, ltb, if◌then◌else◌, Bool-cases, length, take, drop, All,
  length-append, take-length_append, drop-length_append,
}
use scrutineer.Telemetry.Types.{truncated_record}
use scrutineer.Telemetry.Action.{ok, err}
use scrutineer.Telemetry.Wire.{le, un_le}
use scrutineer.Telemetry.Tags.{
  insert_sorted, sort_strings, tag_value, encode_text, encode_entries, encode_tags, decode_text,
  decode_entries, decode_tags,
}

-- A length below 65536 and what follows it.
decode_text-le :
    (n : ℕ) (body : Bytes)
    → n < 2 ^ 16
    → decode_text (le 2 n ++ body)
      ≡ (if ltb (length body) n then err truncated_record else ok (take n body, drop n body))
unfolding decode_text le un_le
decode_text-le n body h =
    let e : n % 256 + 256 * (n / 256 % 256 + 256 * 0) ≡ n = omega arith in ground (arith, e)

pub decode_text-encode_text :
    (s rest : Bytes) → length s < 2 ^ 16 → decode_text (encode_text s ++ rest) ≡ ok (s, rest)
unfolding encode_text
decode_text-encode_text s rest h =
    let e : length s % 2 ^ 16 ≡ length s = omega arith in
    rw (e, append_assoc, decode_text-le (length s) (s ++ rest) h)
      (ground (arith, length-append s rest, take-length_append s rest, drop-length_append s rest))

-- The lengths of a key and of its value fit 16 bits.
abbrev pub EntryFits : Str × Str → Type 0
EntryFits (k, v) = (length k < 2 ^ 16) × (length v < 2 ^ 16)

tag_value_fits : (m : GoMap Str) (k : Str) → All EntryFits m → length (tag_value m k) < 2 ^ 16
unfolding lookup
tag_value_fits [] k h = omega arith
tag_value_fits ((j, v) ∷ m) k (hj, hm) = ground (arith, tag_value_fits m k hm)

keys_fit : (m : GoMap Str) → All EntryFits m → All (λ (k : Str). length k < 2 ^ 16) (keys m)
unfolding keys
keys_fit [] h = tt
keys_fit ((k, v) ∷ m) (hk, hm) = (hk.0, keys_fit m hm)

All-insert_sorted :
    (P : Str → Type 0) (k : Str) (ks : List Str) → P k → All P ks → All P (insert_sorted k ks)
unfolding insert_sorted
All-insert_sorted P k [] hk h = (hk, tt)
All-insert_sorted P k (j ∷ js) hk h = elim (Bool-cases (str_le k j)) [
  | inl e ↦ rw e (hk, h)
  | inr e ↦ rw e (h.0, All-insert_sorted P k js hk h.1)
]

All-sort_strings : (P : Str → Type 0) (ks : List Str) → All P ks → All P (sort_strings ks)
unfolding sort_strings
All-sort_strings P [] h = tt
All-sort_strings P (k ∷ ks) h =
    All-insert_sorted P k (sort_strings ks) h.0 (All-sort_strings P ks h.1)

-- The map that decodeTags builds from the entries of `m` at `ks`.
unfoldable pub insert_all : GoMap Str → List Str → GoMap Str → GoMap Str
insert_all m [] acc = acc
insert_all m (k ∷ ks) acc = insert_all m ks (insert k (tag_value m k) acc)

decode_entries-encode_entries :
    (m : GoMap Str) (ks : List Str) (rest : Bytes) (acc : GoMap Str)
    → ((k : Str) → length (tag_value m k) < 2 ^ 16)
    → All (λ (k : Str). length k < 2 ^ 16) ks
    → decode_entries (length ks) (encode_entries m ks ++ rest) acc ≡ ok (insert_all m ks acc)
unfolding decode_entries encode_entries insert_all
decode_entries-encode_entries m [] rest acc hv h = refl
decode_entries-encode_entries m (k ∷ ks) rest acc hv (hk, hks) =
    rw (append_assoc, decode_text-encode_text k _ hk)
      (rw (append_assoc, decode_text-encode_text (tag_value m k) _ (hv k))
        (decode_entries-encode_entries m ks rest _ hv hks))

has : Str → List Str → Bool
has j [] = false
has j (k ∷ ks) = if str_eq k j then true else has j ks

has-insert_sorted : (j k : Str) (ks : List Str) → has j (insert_sorted k ks) ≡ has j (k ∷ ks)
unfolding has insert_sorted
has-insert_sorted j k [] = refl
has-insert_sorted j k (i ∷ is) = ground (arith, has-insert_sorted j k is)

has-cons : (j k : Str) (xs ys : List Str) → has j xs ≡ has j ys → has j (k ∷ xs) ≡ has j (k ∷ ys)
unfolding has
has-cons j k xs ys e = rw e

has-sort_strings : (j : Str) (ks : List Str) → has j (sort_strings ks) ≡ has j ks
unfolding sort_strings
has-sort_strings j [] = refl
has-sort_strings j (k ∷ ks) =
    has-insert_sorted j k (sort_strings ks) ∙ has-cons j k _ _ (has-sort_strings j ks)

lookup-insert_all :
    (m : GoMap Str) (ks : List Str) (acc : GoMap Str) (j : Str)
    → lookup j (insert_all m ks acc) ≡ (if has j ks then some (tag_value m j) else lookup j acc)
unfolding insert_all has
lookup-insert_all m [] acc j = refl
lookup-insert_all m (k ∷ ks) acc j = ground (
  arith,
  lookup-insert_all m ks (insert k (tag_value m k) acc) j,
  lookup-insert k j (tag_value m k) acc,
  str_eq_iff k j,
)

lookup-has :
    (m : GoMap Str) (j : Str) → (if has j (keys m) then some (tag_value m j) else none) ≡ lookup j m
unfolding has keys lookup
lookup-has [] j = refl
lookup-has ((k, v) ∷ m) j = ground (arith, lookup-has m j)

-- The map that is read back from the encoding of `m`.
unfoldable pub canonical : GoMap Str → GoMap Str
unfolding insert_all sort_strings insert_sorted keys
canonical m = insert_all m (sort_strings (keys m)) []

pub lookup-canonical : (m : GoMap Str) (j : Str) → lookup j (canonical m) ≡ lookup j m
unfolding canonical
lookup-canonical m j =
    lookup-insert_all m (sort_strings (keys m)) [] j
    ∙ rw has-sort_strings (unfold lookup in lookup-has m j)

length-insert_sorted : (k : Str) (ks : List Str) → length (insert_sorted k ks) ≡ suc (length ks)
unfolding insert_sorted
length-insert_sorted k [] = refl
length-insert_sorted k (j ∷ js) = ground (arith, length-insert_sorted k js)

pub length-sort_strings : (m : GoMap Str) → length (sort_strings (keys m)) ≡ length m
unfolding sort_strings keys
length-sort_strings [] = refl
length-sort_strings ((k, v) ∷ m) =
    length-insert_sorted k (sort_strings (keys m)) ∙ ap suc (length-sort_strings m)

pub decode_tags-encode_tags :
    (m : GoMap Str) (rest : Bytes)
    → All EntryFits m
    → length m < 2 ^ 16
    → decode_tags ((encode_tags m).0 ++ rest) (encode_tags m).1 ≡ ok (canonical m)
unfolding decode_tags encode_tags canonical
decode_tags-encode_tags m rest h hn =
    let e : length (sort_strings (keys m)) % 2 ^ 16 ≡ length (sort_strings (keys m)) =
      omega (arith, length-sort_strings m) in
    rw e (
      decode_entries-encode_entries m (sort_strings (keys m)) rest [] (λ k. tag_value_fits m k h)
        (All-sort_strings _ (keys m) (keys_fit m h)))

length-encode_entries :
    (m : GoMap Str) (ks : List Str) → 4 * length ks ≤ length (encode_entries m ks)
unfolding encode_entries encode_text le
length-encode_entries m [] = omega arith
length-encode_entries m (k ∷ ks) = omega (
  arith,
  length-encode_entries m ks,
  length-append k (encode_text (tag_value m k) ++ encode_entries m ks),
  length-append (tag_value m k) (encode_entries m ks),
)

-- Each entry takes four bytes at least.
pub length-encode_tags : (m : GoMap Str) → 4 * length m ≤ length (encode_tags m).0
unfolding encode_tags
length-encode_tags m =
    omega (arith, length-encode_entries m (sort_strings (keys m)), length-sort_strings m)
