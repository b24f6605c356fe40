-- ===== src/Ondisk/Cleanup.antt =====
-- swift_patches/obj/bs_diskfile.py: `cleanup_ondisk_files` of replicated policies, which removes the
-- obsolete files of a hash directory. Whether a time is past the reclaim age is a test that is given.
pub mod Removal
pub mod Keeps
pub mod Ctypes
use swiftacular.Base.{
  ℕ, ◌≡◌, Bool, true, false, ◌&&◌, Option, none, some, List, [], ◌∷◌, ◌++◌, String, str_eq, Error,
  Result, ok, raise, value_error, os_error, ◌>>=◌, ltb, ◌==◌, if◌then◌else◌, is_nil,
}
use Prim.Native.Char.{Char, code}
use swiftacular.Ondisk.Names.{FileInfo, NameFormat}
use swiftacular.Ondisk.{Results, get_ondisk_files}

-- What `os.listdir` gives: the names, ENOENT or another error.
pub data Listing : Type 0 where
  listed : List String → Listing
  no_entry refused : Listing

-- `a <= b` of texts
unfoldable pub text_le : String → String → Bool
text_le String.[] b = true
text_le (String.◌∷◌ c a) String.[] = false
text_le (String.◌∷◌ c a) (String.◌∷◌ d b) =
    let rest = text_le a b in if code c == code d then rest else ltb (code c) (code d)

unfoldable pub insert_name : String → List String → List String
insert_name x [] = x ∷ []
insert_name x (y ∷ ys) = let rest = insert_name x ys in if text_le y x then x ∷ y ∷ ys else y ∷ rest

-- `files.sort(reverse=True)`
unfoldable pub sort_names : List String → List String
unfolding insert_name
sort_names [] = []
sort_names (x ∷ xs) = insert_name x (sort_names xs)

-- `files.remove(name)`
unfoldable pub remove : String → List String → Result (List String)
remove name [] = raise value_error
remove name (x ∷ xs) =
    let rest = remove name xs in if str_eq name x then ok xs else (do ys ← rest; ok (x ∷ ys))

-- The files that are left and those that were removed, in order.
pub record Cleaned : Type 0 where
  pub results : Results
  pub files : List String
  pub removed : List String

unfoldable pub remove_file : Cleaned → FileInfo → Result Cleaned
unfolding remove
remove_file c info = do
  files ← remove info.filename c.files
  ok (record c { files = files; removed = c.removed ++ info.filename ∷ [] })

unfoldable pub remove_files : Cleaned → List FileInfo → Result Cleaned
unfolding remove_file
remove_files c [] = ok c
remove_files c (info ∷ infos) = do c' ← remove_file c info; remove_files c' infos

module _ (is_reclaimable : ℕ → Bool) where
  unfoldable pub reclaim_ts : Cleaned → Option FileInfo → Result Cleaned
  unfolding remove_file
  reclaim_ts c none = ok c
  reclaim_ts c (some t) =
      if is_reclaimable t.timestamp
      then (do
        c' ← remove_file c t
        ok (record c' { results = record c'.results { ts_info = none } }))
      else ok c

  -- Replicated files have no `durable`, which then counts as true.
  unfoldable pub reclaimed : List FileInfo → List FileInfo
  reclaimed [] = []
  reclaimed (info ∷ infos) =
      let rest = reclaimed infos in if is_reclaimable info.timestamp then info ∷ rest else rest

  unfoldable pub with_reclaimed : Results → Results
  unfolding reclaimed
  with_reclaimed r = record r { obsolete = r.obsolete ++ reclaimed r.possible_reclaim }

  unfoldable pub clean : List String → Results → Result Cleaned
  unfolding reclaim_ts with_reclaimed remove_files
  clean files r = do
    c ← reclaim_ts (record { results = r; files = files; removed = [] }) r.ts_info
    let r' = with_reclaimed c.results
    remove_files (record c { results = r' }) r'.obsolete

  -- The directory is removed too once no file is left in it: `is_nil` of `files` says so.
  unfoldable pub cleanup_ondisk_files : NameFormat → Listing → Result Cleaned
  unfolding clean sort_names
  cleanup_ondisk_files f refused = raise os_error
  cleanup_ondisk_files f no_entry = do
    r ← get_ondisk_files f false []
    ok (record { results = r; files = []; removed = [] })
  cleanup_ondisk_files f (listed names) = do
    let files = sort_names names
    r ← get_ondisk_files f false files
    clean files r
