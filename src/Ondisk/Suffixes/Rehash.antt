-- ===== src/Ondisk/Suffixes/Rehash.antt =====
-- The hashes of a partition, computed where they are out of date (`__get_hashes`). What the other
-- processes do to the partition in between, what the directories hold and what `_hash_suffix` finds in
-- one is given for each attempt; without an attempt left there is no answer. An entry of `hashes` is a
-- digest, as replicated policies have it, and a lock that is not granted in time is not modelled.
pub mod Loops
pub mod Fresh
use swiftacular.Base.{
  ℕ, suc, Bool, true, false, not, ◌&&◌, ◌||◌, Option, none, some, List, [], ◌∷◌, String, str_eq,
  ◌==◌, if◌then◌else◌, Result, ok, raise, os_error, Dict, lookup, insert, pop,
}
use swiftacular.Ondisk.Suffixes.{
  Entry, flag, time, forever_old, stale, digest, Hashes, Pickled, holds, Partition, setdefault,
  read_hashes, write_hashes, consolidate_hashes,
}

-- What `_hash_suffix` gives: the digest, PathNotDir or an OSError.
pub data Hashed : Type 0 where
  hashed : String → Hashed
  path_not_dir : Hashed
  failed : Hashed

pub record Attempt : Type 0 where
  pub consolidated_at : ℕ
  -- what others do before `consolidate_hashes`, before the second reading, and before the lock
  pub before : Partition → Partition
  pub before_reading : Partition → Partition
  pub before_writing : Partition → Partition
  -- `os.listdir`, which may raise an OSError
  pub listing : Option (List String)
  pub hash_suffix : String → Hashed
  pub written_at : ℕ

-- `not hash_`
abbrev pub is_false : Entry → Bool
is_false (flag b) = not b
is_false (time t) = t == 0
is_false forever_old = false
is_false stale = true
is_false (digest d) = str_eq d ""

abbrev pub entry_eq : Entry → Entry → Bool
entry_eq (flag true) (flag b) = b
entry_eq (flag false) (flag b) = not b
entry_eq (time t) (time u) = t == u
entry_eq forever_old forever_old = true
entry_eq stale stale = true
entry_eq (digest d) (digest e) = str_eq d e
entry_eq _ _ = false

abbrev pub at_both : Option Entry → Option Entry → Bool
at_both none none = true
at_both (some a) (some b) = entry_eq a b
at_both _ _ = false

-- `a == b`: at each key of either, both have the same.
unfoldable pub agree : Hashes → Hashes → Hashes → Bool
unfolding lookup
agree a b [] = true
agree a b ((key, _) ∷ keys) = at_both (lookup key a) (lookup key b) && agree a b keys

unfoldable pub hashes_eq : Hashes → Hashes → Bool
unfolding agree
hashes_eq a b = agree a b a && agree a b b

-- The directories of the listing, by their length alone.
abbrev pub has_three : String → Bool
has_three (String.◌∷◌ a (String.◌∷◌ b (String.◌∷◌ c String.[]))) = true
has_three _ = false

unfoldable pub add_listed : List String → Hashes → Hashes
unfolding setdefault
add_listed [] hashes = hashes
add_listed (suff ∷ rest) hashes =
    add_listed rest (if has_three suff then setdefault suff stale hashes else hashes)

-- `hashes.update((suffix, None) for suffix in recalculate)`
unfoldable pub mark_stale : List String → Hashes → Hashes
unfolding insert
mark_stale [] hashes = hashes
mark_stale (suffix ∷ rest) hashes = mark_stale rest (insert suffix stale hashes)

pub record Rehashed : Type 0 where
  pub count : ℕ
  pub hashes : Hashes
  pub modified : Bool

unfoldable pub rehash : String → Hashed → Rehashed → Rehashed
unfolding insert pop
rehash suffix (hashed d) r = record {
  count = suc r.count;
  hashes = insert suffix (digest d) r.hashes;
  modified = true;
}
rehash suffix path_not_dir r = record r { hashes = pop suffix r.hashes; modified = true }
rehash suffix failed r = record r { modified = true }

abbrev pub is_reserved : String → Bool
is_reserved suffix = str_eq "valid" suffix || str_eq "updated" suffix

-- `for suffix, hash_ in list(hashes.items())`
unfoldable pub rehash_all : (String → Hashed) → Hashes → Rehashed → Rehashed
unfolding rehash
rehash_all hash_suffix [] r = r
rehash_all hash_suffix ((suffix, hash_) ∷ items) r =
    rehash_all hash_suffix items (
      if not (is_reserved suffix) && is_false hash_
      then rehash suffix (hash_suffix suffix) r
      else r)

-- What an attempt begins with: what it read, what it is to return, and the partition.
pub record Start : Type 0 where
  pub orig_hashes : Hashes
  pub hashes : Hashes
  pub do_listdir : Bool
  pub partition : Partition

-- `orig_hashes['valid']`, which `read_hashes` always sets, as a test.
abbrev pub is_valid : Option Entry → Bool
is_valid none = false
is_valid (some entry) = not (is_false entry)

-- Any exception of `consolidate_hashes` is logged.
abbrev pub or_invalid : Partition → Result (Hashes × Partition) → Hashes × Partition
or_invalid p (ok (hashes, q)) = (hashes, q)
or_invalid p (raise e) = (("valid", flag false) ∷ [], p)

unfoldable pub start : Attempt → Bool → Hashes × Partition → Start
unfolding lookup read_hashes
start a do_listdir (orig, p) =
    if is_valid (lookup "valid" orig)
    then record { orig_hashes = orig; hashes = orig; do_listdir = do_listdir; partition = p }
    else record {
      orig_hashes = read_hashes (a.before_reading p).pickled;
      hashes = ("valid", flag true) ∷ [];
      do_listdir = true;
      partition = a.before_reading p;
    }

-- With what `os.listdir` gives.
abbrev pub with_listing : Option (List String) → Hashes → Result Rehashed
with_listing none hashes = raise os_error
with_listing (some names) hashes =
    ok (record { count = 0; hashes = add_listed names hashes; modified = true })

abbrev pub listed : Attempt → Start → Result Rehashed
listed a s =
    if s.do_listdir
    then with_listing a.listing s.hashes
    else ok (record { count = 0; hashes = s.hashes; modified = false })

abbrev pub recalculated : Attempt → List String → Rehashed → Rehashed
recalculated a recalculate r =
    let hashes = mark_stale recalculate r.hashes in
    rehash_all a.hash_suffix hashes (record r { hashes = hashes })

-- The hashes are written unless the file has changed since; `none` asks for another attempt.
unfoldable pub finish : Attempt → Start → Rehashed → Option (ℕ × Hashes) × Partition
unfolding hashes_eq write_hashes read_hashes
finish a s r =
    let p = a.before_writing s.partition in
    let hashes = write_hashes a.written_at r.hashes in
    if r.modified
    then (if hashes_eq (read_hashes p.pickled) s.orig_hashes
        then (some (r.count, hashes), record p { pickled = holds hashes })
        else (none, p))
    else (some (r.count, r.hashes), s.partition)

abbrev pub started : Attempt → Bool → Partition → Start
started a do_listdir p =
    start a do_listdir (or_invalid (a.before p) (consolidate_hashes a.consolidated_at (a.before p)))

abbrev pub after_attempt :
    (Partition → Option (Result (ℕ × Hashes × Partition)))
    → Option (ℕ × Hashes) × Partition
    → Option (Result (ℕ × Hashes × Partition))
after_attempt again (none, p) = again p
after_attempt again (some (count, hashes), p) = some (ok (count, hashes, p))

abbrev pub after_listing :
    (Rehashed → Option (Result (ℕ × Hashes × Partition)))
    → Result Rehashed
    → Option (Result (ℕ × Hashes × Partition))
after_listing next (raise e) = some (raise e)
after_listing next (ok r) = next r

-- `__get_hashes`
unfoldable pub get_hashes_and_times :
    List Attempt → List String → Bool → Partition → Option (Result (ℕ × Hashes × Partition))
unfolding start finish consolidate_hashes add_listed mark_stale rehash_all
get_hashes_and_times [] recalculate do_listdir p = none
get_hashes_and_times (a ∷ attempts) recalculate do_listdir p =
    let s = started a do_listdir p in
    after_listing
      (λ r.
        after_attempt (get_hashes_and_times attempts recalculate s.do_listdir)
          (finish a s (recalculated a recalculate r)))
      (listed a s)

abbrev pub without_times :
    Option (Result (ℕ × Hashes × Partition)) → Option (Result (ℕ × Hashes × Partition))
without_times (some (ok (count, hashes, p))) =
    some (ok (count, pop "valid" (pop "updated" hashes), p))
without_times other = other

-- `_get_hashes`
unfoldable pub get_hashes :
    List Attempt → List String → Bool → Partition → Option (Result (ℕ × Hashes × Partition))
unfolding get_hashes_and_times pop
get_hashes attempts recalculate do_listdir p =
    without_times (get_hashes_and_times attempts recalculate do_listdir p)
