-- ===== src/Ondisk/Suffixes.antt =====
-- swift_patches/obj/bs_diskfile.py: the hashes of a partition's suffix directories. `hashes.pkl` holds
-- a dictionary, and `hashes.invalid` a line for each suffix whose hash is out of date. The lock of the
-- partition makes each function here one step; the time of the clock is a number.
pub mod Invalid
pub mod Rehash
pub mod Directory
use Prim.Native.Char.{Char, code}
use Prim.Native.String.{◌++◌ as cat}
use swiftacular.Base.{
  ℕ, Bool, true, false, ◌&&◌, ◌||◌, List, [], ◌∷◌, ◌++◌, String, str_eq, leb, if◌then◌else◌,
  is_some, Result, ok, raise, os_error, ◌>>=◌, Dict, lookup, insert, strip,
}

-- What the dictionary has under a key: a flag, a time, -1, `None` or a digest.
pub data Entry : Type 0 where
  flag : Bool → Entry
  time : ℕ → Entry
  forever_old : Entry
  stale : Entry
  digest : String → Entry

abbrev pub Hashes : Type 0
Hashes = Dict Entry

-- `hashes.pkl`: no file that can be read, one that does not unpickle, or a dictionary.
pub data Pickled : Type 0 where
  unreadable : Pickled
  corrupt : Pickled
  holds : Hashes → Pickled

-- `hashes.invalid`: no file, one that cannot be opened, or its lines, each with its end.
pub data Invalidations : Type 0 where
  absent : Invalidations
  refused : Invalidations
  lines : List String → Invalidations

pub record Partition : Type 0 where
  pub pickled : Pickled
  pub invalidations : Invalidations

abbrev pub is_hex : Char → Bool
is_hex c = (leb 48 (code c) && leb (code c) 57) || (leb 97 (code c) && leb (code c) 102)

unfoldable pub valid_suffix : String → Bool
valid_suffix String.[] = false
valid_suffix (String.◌∷◌ a String.[]) = false
valid_suffix (String.◌∷◌ a (String.◌∷◌ b String.[])) = false
valid_suffix (String.◌∷◌ a (String.◌∷◌ b (String.◌∷◌ c String.[]))) =
    is_hex a && is_hex b && is_hex c
valid_suffix (String.◌∷◌ a (String.◌∷◌ b (String.◌∷◌ c (String.◌∷◌ d s)))) = false

-- `hashes.setdefault(key, entry)`
unfoldable pub setdefault : String → Entry → Hashes → Hashes
unfolding lookup insert
setdefault key entry hashes =
    if is_some (lookup key hashes) then hashes else insert key entry hashes

abbrev pub unpickled : Pickled → Hashes
unpickled unreadable = ("valid", flag false) ∷ []
unpickled corrupt = ("valid", flag false) ∷ []
unpickled (holds hashes) = hashes

-- Keys that do not break a listing.
unfoldable pub are_known : Hashes → Bool
unfolding valid_suffix
are_known [] = true
are_known ((key, _) ∷ hashes) =
    (valid_suffix key || str_eq "valid" key || str_eq "updated" key) && are_known hashes

unfoldable pub read_hashes : Pickled → Hashes
unfolding are_known setdefault
read_hashes pickled =
    if are_known (unpickled pickled)
    then setdefault "updated" forever_old (setdefault "valid" (flag true) (unpickled pickled))
    else ("valid", flag false) ∷ []

-- The dictionary is changed in place, so this is what the caller has after it, too.
unfoldable pub write_hashes : ℕ → Hashes → Hashes
unfolding insert setdefault
write_hashes now hashes = insert "updated" (time now) (setdefault "valid" (flag false) hashes)

-- The lines of `hashes.invalid`, and whether one was valid.
unfoldable pub invalidated : List String → Hashes × Bool → Hashes × Bool
unfolding strip valid_suffix insert
invalidated [] found = found
invalidated (line ∷ rest) found =
    invalidated rest
      (if valid_suffix (strip line) then (insert (strip line) stale found.0, true) else found)

abbrev pub written : ℕ → Partition → Hashes × Bool → Hashes × Partition
written now p (hashes, false) = (hashes, record p { invalidations = lines [] })
written now p (hashes, true) = (
  write_hashes now hashes,
  record { pickled = holds (write_hashes now hashes); invalidations = lines [] },
)

-- With what opening `hashes.invalid` gives.
abbrev pub consolidated : ℕ → Partition → Invalidations → Result (Hashes × Partition)
consolidated now p absent = ok (read_hashes p.pickled, p)
consolidated now p refused = raise os_error
consolidated now p (lines ls) = ok (written now p (invalidated ls (read_hashes p.pickled, false)))

unfoldable pub consolidate_hashes : ℕ → Partition → Result (Hashes × Partition)
unfolding read_hashes invalidated write_hashes
consolidate_hashes now p = consolidated now p p.invalidations

-- Opened to append.
abbrev pub append_line : String → Invalidations → Result Invalidations
append_line suffix absent = ok (lines (cat suffix "\n" ∷ []))
append_line suffix refused = raise os_error
append_line suffix (lines ls) = ok (lines (ls ++ (cat suffix "\n" ∷ [])))

unfoldable pub invalidate_hash : String → Partition → Result Partition
invalidate_hash suffix p = do
  opened ← append_line suffix p.invalidations
  ok (record p { invalidations = opened })
