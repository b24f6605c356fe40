-- ===== src/Tests/Ondisk.antt =====
-- Witnesses for the on-disk files. A time t is written as t + 1 times `x`, and a content type's as
-- that many `y` behind it.
use Prim.Native.Char.{Char, code}
use swiftacular.Base.{
  ℕ, zero, suc, ◌+◌, ◌≡◌, refl, Bool, true, false, Option, none, some, List, [], ◌∷◌, String, ok,
  arith, ◌==◌, if◌then◌else◌, ap, lookup, insert,
}
use swiftacular.Ondisk.Names.{NameFormat, all_dots, parse_on_disk_filename, make_on_disk_filename}
use swiftacular.Ondisk.{
  Results, get_ondisk_files, verify_ondisk_files, parse_files, sort_desc, split_gt_timestamp,
}
use swiftacular.Ondisk.Choice.{Chosen, get_ondisk_files-total}

abbrev pub repeat : Char → ℕ → String → String
repeat c zero s = s
repeat c (suc n) s = String.◌∷◌ c (repeat c n s)

abbrev pub count : ℕ → String → ℕ
count k String.[] = 0
count k (String.◌∷◌ c s) = if code c == k then suc (count k s) else count k s

abbrev pub pred? : ℕ → Option ℕ
pred? zero = none
pred? (suc n) = some n

abbrev pub decode_counts : ℕ → ℕ → Option (ℕ × Option ℕ)
decode_counts zero ys = none
decode_counts (suc xs) ys = some (xs, pred? ys)

pub count-repeat_x : (n : ℕ) (s : String) → count b'x' (repeat "x" n s) ≡ n + count b'x' s
count-repeat_x zero s = omega arith
count-repeat_x (suc n) s = omega (arith, count-repeat_x n s)

pub count_y-repeat_x : (n : ℕ) (s : String) → count b'y' (repeat "x" n s) ≡ count b'y' s
count_y-repeat_x zero s = refl
count_y-repeat_x (suc n) s = count_y-repeat_x n s

pub count_y-repeat_y : (n : ℕ) → count b'y' (repeat "y" n String.[]) ≡ n
count_y-repeat_y zero = refl
count_y-repeat_y (suc n) = ap suc (count_y-repeat_y n)

pub count_x-repeat_y : (n : ℕ) → count b'x' (repeat "y" n String.[]) ≡ 0
count_x-repeat_y zero = refl
count_x-repeat_y (suc n) = count_x-repeat_y n

abbrev pub internal : ℕ → String
internal t = repeat "x" (suc t) String.[]

abbrev pub encode : ℕ → ℕ → String
encode t c = repeat "x" (suc t) (repeat "y" (suc c) String.[])

abbrev pub decode : String → Option (ℕ × Option ℕ)
decode s = decode_counts (count b'x' s) (count b'y' s)

pub parse-internal : (t : ℕ) → pred? (count b'x' (internal t)) ≡ some t
parse-internal t = ground (arith, count-repeat_x t String.[])

pub decode-internal : (t : ℕ) → decode (internal t) ≡ some (t, none)
decode-internal t = ground (arith, count-repeat_x t String.[], count_y-repeat_x t String.[])

pub decode-encode : (t c : ℕ) → decode (encode t c) ≡ some (t, some c)
decode-encode t c = ground (
  arith,
  count-repeat_x t (repeat "y" (suc c) String.[]),
  count_y-repeat_x t (repeat "y" (suc c) String.[]),
  count_y-repeat_y (suc c),
  count_x-repeat_y (suc c),
)

pub internal-all_dots : (t : ℕ) → all_dots (internal t) ≡ false
unfolding all_dots
internal-all_dots t = refl

pub encode-all_dots : (t c : ℕ) → all_dots (encode t c) ≡ false
unfolding all_dots
encode-all_dots t c = refl

abbrev pub letters_format : NameFormat
letters_format = record {
  parse = λ s. pred? (count b'x' s);
  decode = decode;
  internal = internal;
  encode = encode;
  without_offset = λ c. c;
  parse-internal = parse-internal;
  decode-internal = decode-internal;
  internal-all_dots = internal-all_dots;
  encode-all_dots = encode-all_dots;
  decode-encode = decode-encode;
}

abbrev pub listing : List String
listing = "xxxxx.data" ∷ "xxx.ts" ∷ "xxxxxxy.meta" ∷ "xx.data" ∷ "README" ∷ []

get_ondisk_files-total_example :
    (r : Results) × (get_ondisk_files letters_format true listing ≡ ok r)
    × (verify_ondisk_files r ≡ true)
    × Chosen (parse_files letters_format listing).0 r
get_ondisk_files-total_example = get_ondisk_files-total letters_format true listing

-- The newest data file wins over the tombstone, with the meta file behind it.
data_and_meta :
    (r : Results) × (get_ondisk_files letters_format true listing ≡ ok r)
    × (r.data_info
        ≡ some (record {
          timestamp = 4;
          ext = ".data";
          ctype_timestamp = none;
          filename = "xxxxx.data";
        }))
    × (r.meta_info
        ≡ some (record {
          timestamp = 5;
          ext = ".meta";
          ctype_timestamp = some 0;
          filename = "xxxxxxy.meta";
        }))
unfolding get_ondisk_files lookup parse_on_disk_filename insert sort_desc split_gt_timestamp
data_and_meta = (_, refl, refl, refl)

abbrev is_positive : ℕ → Bool
is_positive zero = false
is_positive (suc n) = true

made_name :
    make_on_disk_filename letters_format is_positive 3 (some ".meta") (some 2) ≡ "xxxxyyy.meta"
unfolding make_on_disk_filename
made_name = refl
