-- ===== src/Ondisk/Suffixes/Directory.antt =====
-- The hash of one suffix directory (`_hash_suffix_dir` and `_hash_suffix` of replicated policies): the
-- digest of what the files of its hash directories decide. What the file system answers is given. What
-- is removed and quarantined on the way is kept whether the function ends with a digest or not.
pub mod Total
use Prim.Native.String.{◌++◌ as cat}
use swiftacular.Base.{
  ℕ, Bool, true, false, Option, none, some, List, [], ◌∷◌, ◌++◌, String, Error, os_error,
  attribute_error, path_not_dir_error, Result, ok, raise, is_nil, if◌then◌else◌,
}
use swiftacular.Ondisk.{Results}
use swiftacular.Ondisk.Names.{FileInfo, NameFormat}
use swiftacular.Ondisk.Cleanup.{Listing, Cleaned, cleanup_ondisk_files, text_le}
use swiftacular.Ondisk.Opens.{
  Errno, not_directory, no_data, no_entry, other_errno, Listed, listed, unlisted,
}

-- A hash directory, or the whole suffix, that `quarantine_renamer` moves away.
pub data Moved : Type 0 where
  hash_dir : String → Moved
  suffix_dir : Moved

pub record Directory : Type 0 where
  pub contents : Listed
  -- what listing a hash directory gives, and with which errno when it is refused
  pub listing : String → Listing
  pub errno : String → Errno
  -- whether the renaming works; otherwise it raises an OSError
  pub quarantines : Moved → Bool
  -- what `os.rmdir` of the suffix fails with
  pub rmdir : Option Errno

pub record Hashing : Type 0 where
  pub texts : List String
  pub removed : List String
  pub quarantined : List Moved

-- `sorted(names)`
unfoldable pub insert_up : String → List String → List String
unfolding text_le
insert_up x [] = x ∷ []
insert_up x (y ∷ ys) = let rest = insert_up x ys in if text_le x y then x ∷ y ∷ ys else y ∷ rest

unfoldable pub sorted : List String → List String
unfolding insert_up
sorted [] = []
sorted (x ∷ xs) = insert_up x (sorted xs)

-- `info['timestamp'].internal + info['ext']`, when there is one.
abbrev pub text_for : NameFormat → Option FileInfo → List String
text_for f none = []
text_for f (some info) = cat (f.internal info.timestamp) info.ext ∷ []

abbrev pub time_text : NameFormat → Option ℕ → Result (List String)
time_text f none = raise attribute_error
time_text f (some t) = ok (cat (f.internal t) "_ctype" ∷ [])

abbrev pub ctype_text : NameFormat → Option FileInfo → Result (List String)
ctype_text f none = ok []
ctype_text f (some info) = time_text f info.ctype_timestamp

abbrev pub with_texts : List String → Hashing → Hashing
with_texts texts h = record h { texts = h.texts ++ texts }

abbrev pub after_ctype : Result (List String) → Hashing → Hashing × Option Error
after_ctype (ok texts) h = (with_texts texts h, none)
after_ctype (raise e) h = (h, some e)

-- The files that decide the state of the object: meta, tombstone, data and content type.
unfoldable pub update_hashes : NameFormat → Results → Hashing → Hashing × Option Error
update_hashes f r h =
    after_ctype (ctype_text f r.ctype_info)
      (with_texts (text_for f r.meta_info ++ text_for f r.ts_info ++ text_for f r.data_info) h)

abbrev pub quarantine :
    Directory → Moved → (Hashing → Hashing × Option Error) → Hashing → Hashing × Option Error
quarantine d moved otherwise h =
    if d.quarantines moved
    then (record h { quarantined = h.quarantined ++ moved ∷ [] }, none)
    else otherwise h

-- The listing of a hash directory has raised an OSError.
abbrev pub after_refusal : Directory → Errno → String → Hashing → Hashing × Option Error
after_refusal d not_directory hsh h = quarantine d (hash_dir hsh) (λ h'. (h', some os_error)) h
after_refusal d no_data hsh h =
    quarantine d (hash_dir hsh) (quarantine d suffix_dir (λ h'. (h', some os_error))) h
after_refusal d no_entry hsh h = (h, some os_error)
after_refusal d other_errno hsh h = (h, some os_error)

abbrev pub after_cleanup :
    NameFormat → Directory → String → Result Cleaned → Hashing → Hashing × Option Error
after_cleanup f d hsh (raise os_error) h = after_refusal d (d.errno hsh) hsh h
after_cleanup f d hsh (raise e) h = (h, some e)
after_cleanup f d hsh (ok c) h =
    let h' = record h { removed = h.removed ++ c.removed } in
    if is_nil c.files then (h', none) else update_hashes f c.results h'

abbrev pub unless_raised :
    (Hashing → Hashing × Option Error) → Hashing × Option Error → Hashing × Option Error
unless_raised next (h, none) = next h
unless_raised next (h, some e) = (h, some e)

-- The directory is gone in the end, or was not there: PathNotDir.
abbrev pub after_rmdir : Option Errno → Hashing × Option Error → Hashing × Option Error
after_rmdir none (h, none) = (h, some path_not_dir_error)
after_rmdir (some no_entry) (h, none) = (h, some path_not_dir_error)
after_rmdir _ (h, raised) = (h, raised)

module _ (is_reclaimable : ℕ → Bool) (f : NameFormat) (d : Directory) where
  unfoldable pub hash_each : List String → Hashing → Hashing × Option Error
  unfolding cleanup_ondisk_files update_hashes
  hash_each [] h = (h, none)
  hash_each (hsh ∷ rest) h =
      unless_raised (hash_each rest)
        (after_cleanup f d hsh (cleanup_ondisk_files is_reclaimable f (d.listing hsh)) h)

  abbrev pub nothing_yet : Hashing
  nothing_yet = record { texts = []; removed = []; quarantined = [] }

  unfoldable pub with_contents : Listed → Hashing × Option Error
  unfolding hash_each sorted
  with_contents (listed path_contents) =
      after_rmdir d.rmdir (hash_each (sorted path_contents) nothing_yet)
  with_contents (unlisted not_directory) = (nothing_yet, some path_not_dir_error)
  with_contents (unlisted no_entry) = (nothing_yet, some path_not_dir_error)
  with_contents (unlisted other) = (nothing_yet, some os_error)

  unfoldable pub hash_suffix_dir : Hashing × Option Error
  unfolding with_contents
  hash_suffix_dir = with_contents d.contents

  abbrev pub joined : List String → String
  joined [] = ""
  joined (text ∷ texts) = cat text (joined texts)

  abbrev pub hexdigest : (String → String) → Hashing × Option Error → Result String
  hexdigest md5 (h, none) = ok (md5 (joined h.texts))
  hexdigest md5 (h, some e) = raise e

  -- With the digest of the concatenated texts.
  unfoldable pub hash_suffix : (String → String) → Result String
  unfolding hash_suffix_dir
  hash_suffix md5 = hexdigest md5 hash_suffix_dir
