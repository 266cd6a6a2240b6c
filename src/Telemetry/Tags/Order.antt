-- ===== src/Telemetry/Tags/Order.antt =====
-- The encoding does not depend on the order in which Go iterates over the map.
use scrutineer.Prelude.{◌≡◌, refl, ◌∙◌, List, [], ◌∷◌, Str, GoMap, lookup, keys, arith}
use mathlib.Core.List.{Perm, Permᴰ}
use mathlib.Core.Logic.{∥∥₁_elim}
use mathlib.Core.Path.{ap₂}
use scrutineer.Prelude.Strings.{str_le_total, str_le_antisymm, str_le_trans}
use scrutineer.Telemetry.Tags.{insert_sorted, sort_strings, encode_entries, encode_tags}

-- Two insertions commute.
insert_sorted_comm :
    (a b : Str) (l : List Str)
    → insert_sorted a (insert_sorted b l) ≡ insert_sorted b (insert_sorted a l)
unfolding insert_sorted
insert_sorted_comm a b [] = ground (arith, str_le_total a b, str_le_antisymm a b)
insert_sorted_comm a b (c ∷ l) = ground (
  arith,
  insert_sorted_comm a b l,
  str_le_total a b,
  str_le_antisymm a b,
  str_le_trans a b c,
  str_le_trans b a c,
)

sort_strings-Permᴰ : {xs ys : List Str} → Permᴰ xs ys → sort_strings xs ≡ sort_strings ys
unfolding sort_strings
sort_strings-Permᴰ Permᴰ.nil = refl
sort_strings-Permᴰ (Permᴰ.cons {b = b} e p) = ap₂ insert_sorted e (sort_strings-Permᴰ p)
sort_strings-Permᴰ (Permᴰ.swap {a = a} {b = b} {l = l} e f) =
    insert_sorted_comm a b (sort_strings l) ∙ rw (e, f)
sort_strings-Permᴰ (Permᴰ.trans p q) = sort_strings-Permᴰ p ∙ sort_strings-Permᴰ q

strings_set : IsSet (List Str)
strings_set = hlevel

-- Sorting forgets the order of its input.
pub sort_strings-perm : {xs ys : List Str} → Perm xs ys → sort_strings xs ≡ sort_strings ys
sort_strings-perm p = ∥∥₁_elim p (strings_set _ _) sort_strings-Permᴰ

encode_entries_ext :
    (m m' : GoMap Str) (ks : List Str)
    → ((k : Str) → lookup k m ≡ lookup k m')
    → encode_entries m ks ≡ encode_entries m' ks
unfolding encode_entries
encode_entries_ext m m' [] h = refl
encode_entries_ext m m' (k ∷ ks) h = cc (h k, encode_entries_ext m m' ks h)

-- Two iterations over one map: the same keys in any order, and the same value for each.
abbrev pub SameMap : GoMap Str → GoMap Str → Type 0
SameMap m m' = Perm (keys m) (keys m') × ((k : Str) → lookup k m ≡ lookup k m')

-- encodeTags gives the same bytes and count whatever order the map is iterated in.
pub encode_tags-SameMap : (m m' : GoMap Str) → SameMap m m' → encode_tags m ≡ encode_tags m'
unfolding encode_tags
encode_tags-SameMap m m' (p, h) =
    rw (sort_strings-perm p, encode_entries_ext m m' (sort_strings (keys m')) h)
