-- ===== src/Tests/Directories.antt =====
-- Witness for the hash of a suffix directory: of its two hash directories one holds an object that was
-- posted to, beside an older data file, and the listing of the other fails for bad sectors.
use Prim.Native.String.{◌++◌ as cat}
use swiftacular.Base.{
  lookup, insert, ◌≡◌, refl, true, false, none, some, [], ◌∷◌, String, str_eq, ok, if◌then◌else◌,
}
use swiftacular.Ondisk.{get_ondisk_files, sort_desc, split_gt_timestamp, split_gte_timestamp}
use swiftacular.Ondisk.Names.{parse_on_disk_filename}
use swiftacular.Ondisk.Cleanup.{listed, refused}
use swiftacular.Ondisk.Opens.{no_data, other_errno}
use swiftacular.Ondisk.Opens
use swiftacular.Ondisk.Suffixes.Rehash.{Hashed}
use swiftacular.Ondisk.Suffixes.Directory.{hash_dir, Directory, hash_suffix_dir, hash_suffix}
use swiftacular.Ondisk.Suffixes.Directory.Total.{result_of, hash_suffix-result_of}
use swiftacular.Tests.Ondisk.{letters_format}

abbrev directory : Directory
directory = record {
  contents = Opens.listed ("h2" ∷ "h1" ∷ []);
  listing = λ hsh.
      if str_eq hsh "h1" then listed ("xx.data" ∷ "xxxxx.meta" ∷ "xxxx.data" ∷ []) else refused;
  errno = λ hsh. no_data;
  quarantines = λ moved. true;
  rmdir = some other_errno;
}

abbrev digest : String → String
digest text = cat "md5 of " text

hash_suffix-result_of_example :
    (h : Hashed) × (hash_suffix (λ t. false) letters_format directory digest ≡ result_of h)
hash_suffix-result_of_example = hash_suffix-result_of (λ t. false) letters_format directory digest

-- The older data file goes, and the directory that cannot be listed is moved away.
hashed_files : hash_suffix_dir (λ t. false) letters_format directory ≡ (
  record {
    texts = "xxxxx.meta" ∷ "xxxx.data" ∷ [];
    removed = "xx.data" ∷ [];
    quarantined = hash_dir "h2" ∷ [];
  },
  none,
)
unfolding hash_suffix_dir get_ondisk_files lookup parse_on_disk_filename insert sort_desc
    split_gt_timestamp split_gte_timestamp
hashed_files = refl

hashed_text :
    hash_suffix (λ t. false) letters_format directory digest ≡ ok "md5 of xxxxx.metaxxxx.data"
unfolding hash_suffix get_ondisk_files lookup parse_on_disk_filename insert sort_desc
    split_gt_timestamp split_gte_timestamp
hashed_text = refl
