-- ===== src/Ondisk/Names.antt =====
-- The names of on-disk files: a timestamp, for a `.meta` file perhaps with that of the content type,
-- and an extension.
pub mod Parsing
use Prim.Native.Char.{Char, code}
use Prim.Native.String.{◌++◌ as cat}
use swiftacular.Base.{
  ℕ, ◌≡◌, Bool, true, false, ◌&&◌, Option, none, some, String, str_eq, Result, ok, disk_file_error,
  ◌>>=◌, expect, ◌==◌, if◌then◌else◌,
}

pub record FileInfo : Type 0 where
  pub timestamp : ℕ
  pub ext : String
  pub ctype_timestamp : Option ℕ
  pub filename : String

abbrev is_dot : Char → Bool
is_dot c = code c == b'.'

abbrev pub at_dot : Char → String → Option (String × String) → Option (String × String)
at_dot c s (some (stem, ext)) = some (String.◌∷◌ c stem, ext)
at_dot c s none = if is_dot c then some (String.[], String.◌∷◌ c s) else none

-- At the last dot.
unfoldable pub split_dot : String → Option (String × String)
split_dot String.[] = none
split_dot (String.◌∷◌ c s) = at_dot c s (split_dot s)

unfoldable pub all_dots : String → Bool
all_dots String.[] = true
all_dots (String.◌∷◌ c s) = is_dot c && all_dots s

-- `os.path.splitext` of a name with no slash: leading dots begin no extension.
abbrev pub without_dots : String → Option (String × String) → String × String
without_dots name none = (name, "")
without_dots name (some (stem, ext)) = if all_dots stem then (name, "") else (stem, ext)

unfoldable pub splitext : String → String × String
unfolding split_dot all_dots
splitext name = without_dots name (split_dot name)

-- Swift's text forms: `Timestamp(text)`, `decode_timestamps(text, explicit=True)[:2]`,
-- `t.internal` and `encode_timestamps(t, c, explicit=True)`; `none` is a ValueError.
-- No such text is made of dots alone. The second time is written as its difference to the first, which
-- leaves out its offset: `without_offset` is the time of the same date with no offset.
pub record NameFormat : Type 0 where
  pub parse : String → Option ℕ
  pub decode : String → Option (ℕ × Option ℕ)
  pub internal : ℕ → String
  pub encode : ℕ → ℕ → String
  pub without_offset : ℕ → ℕ
  pub parse-internal : (t : ℕ) → parse (internal t) ≡ some t
  pub decode-internal : (t : ℕ) → decode (internal t) ≡ some (t, none)
  pub internal-all_dots : (t : ℕ) → all_dots (internal t) ≡ false
  pub encode-all_dots : (t c : ℕ) → all_dots (encode t c) ≡ false
  pub decode-encode : (t c : ℕ) → decode (encode t c) ≡ some (t, some (without_offset c))

module _ (f : NameFormat) where
  open f use {parse, decode, internal, encode}

  unfoldable pub parse_parts : String → String × String → Result FileInfo
  parse_parts filename (fname, ext) =
      if str_eq ext ".meta"
      then (do
        (timestamp, ctype) ← expect disk_file_error (decode fname)
        ok (record {
          timestamp = timestamp;
          ext = ext;
          ctype_timestamp = ctype;
          filename = filename;
        }))
      else (do
        timestamp ← expect disk_file_error (parse fname)
        ok (record {
          timestamp = timestamp;
          ext = ext;
          ctype_timestamp = none;
          filename = filename;
        }))

  unfoldable pub parse_on_disk_filename : String → Result FileInfo
  unfolding splitext parse_parts
  parse_on_disk_filename filename = parse_parts filename (splitext filename)

  -- Whether a Timestamp counts as true is given.
  module _ (counts : ℕ → Bool) where
    abbrev pub kept_ctype : Option ℕ → Option ℕ
    kept_ctype none = none
    kept_ctype (some c) = if counts c then some c else none

    abbrev stem_of : ℕ → Bool → Option ℕ → String
    stem_of timestamp false ctype = internal timestamp
    stem_of timestamp true none = internal timestamp
    stem_of timestamp true (some c) = encode timestamp c

    abbrev with_ext : String → Option String → String
    with_ext stem none = stem
    with_ext stem (some ext) = if str_eq ext "" then stem else cat stem ext

    abbrev is_meta : Option String → Bool
    is_meta none = false
    is_meta (some ext) = str_eq ext ".meta"

    unfoldable pub make_on_disk_filename : ℕ → Option String → Option ℕ → String
    make_on_disk_filename timestamp ext ctype =
        with_ext (stem_of timestamp (is_meta ext) (kept_ctype ctype)) ext
