-- ===== src/Tests/Opens.antt =====
-- Witnesses for the open of an object through its files: a data file of time 3 and a POST of time 4.
use swiftacular.Base.{
  ◌≡◌, refl, true, false, none, some, [], ◌∷◌, String, str_eq, Result, ok, raise,
  disk_file_not_exist, if◌then◌else◌, Dict, lookup, insert, update, pop, arith,
}
use swiftacular.Metadata.{merge, fixed}
use swiftacular.Ondisk.Names.{FileInfo, parse_on_disk_filename}
use swiftacular.Ondisk.{
  Results, get_ondisk_files, sort_desc, split_gt_timestamp, split_gte_timestamp,
}
use swiftacular.Ondisk.Opens.{Files, listed, Opener, DiskFile, done, combined}
use swiftacular.Ondisk.Opens.Data.{open_disk_file}
use swiftacular.Ondisk.Opens.Merges.{combined-merge}
use swiftacular.Ondisk.Opens.Verified.{IsVerified, open_disk_file-IsVerified}
use swiftacular.Ondisk.Opens.Healthy.{overlaid, open_disk_file-healthy}
use swiftacular.Tests.Instance.{swift, parse_size, size}
use swiftacular.Tests.Ondisk.{letters_format}

abbrev put_metadata : Dict String
put_metadata =
    ("name", "/a/c/o")
    ∷ ("X-Timestamp", "xxxx")
    ∷ ("Content-Length", "xxx")
    ∷ ("Content-Type", "text/plain")
    ∷ ("X-Object-Meta-Colour", "red")
    ∷ []

abbrev post_metadata : Dict String
post_metadata =
    ("name", "/a/c/o") ∷ ("X-Timestamp", "xxxxx") ∷ ("X-Object-Meta-Colour", "blue") ∷ []

abbrev read : String → Result (Dict String)
read file =
    if str_eq file "xxxx.data"
    then ok put_metadata
    else if str_eq file "xxxxx.meta"
    then ok post_metadata
    else raise disk_file_not_exist

abbrev files : Files
files = record {
  listing = listed ("xxxxx.meta" ∷ "xxxx.data" ∷ []);
  open_file = λ file. none;
  read = read;
  size = λ file. some 2;
  can_quarantine = λ file. true;
  is_hash_of = λ name. true;
}

abbrev opener : Opener
opener = record {
  swift = swift;
  format = letters_format;
  int = λ text. parse_size (size text);
  text_lt = λ a b. false;
  open_expired = false;
  current_time = 7;
  files = files;
}

abbrev self : DiskFile
self = record {
  name = some "/a/c/o";
  metadata = none;
  datafile_metadata = none;
  metafile_metadata = none;
  content_length = none;
  data_file = none;
  quarantined = [];
}

abbrev data_info : FileInfo
data_info = record { timestamp = 3; ext = ".data"; ctype_timestamp = none; filename = "xxxx.data" }

abbrev results : Results
results = record {
  unexpected = [];
  obsolete = [];
  possible_reclaim = [];
  data_info = some data_info;
  meta_info =
      some
        (record { timestamp = 4; ext = ".meta"; ctype_timestamp = none; filename = "xxxxx.meta" });
  ts_info = none;
  ctype_info = none;
}

found : get_ondisk_files letters_format true ("xxxxx.meta" ∷ "xxxx.data" ∷ []) ≡ ok results
unfolding get_ondisk_files lookup parse_on_disk_filename insert sort_desc split_gt_timestamp
    split_gte_timestamp
found = refl

-- The POST's colour, and the PUT's size and type.
abbrev together : Dict String
together =
    ("name", "/a/c/o")
    ∷ ("X-Timestamp", "xxxxx")
    ∷ ("X-Object-Meta-Colour", "blue")
    ∷ ("Content-Length", "xxx")
    ∷ ("Content-Type", "text/plain")
    ∷ []

merged : overlaid opener results.meta_info put_metadata ≡ ok together
unfolding combined fixed update insert pop lookup
merged = refl

combined-merge_example :
    combined opener put_metadata post_metadata ≡ merge swift put_metadata post_metadata
unfolding lookup
combined-merge_example =
    combined-merge opener put_metadata post_metadata "xxxx" 3 (λ a. refl) refl refl (omega arith)

opened : (s : DiskFile) × (open_disk_file opener self ≡ (done true, s))
unfolding lookup
opened =
    let (s, e, metadata, length) =
      open_disk_file-healthy opener self ("xxxxx.meta" ∷ "xxxx.data" ∷ []) results data_info
        put_metadata together "/a/c/o" "xxx" 2 refl found refl refl refl refl merged refl refl refl
        refl refl refl in
    (s, e)

open_disk_file-IsVerified_example : IsVerified opener opened.0
open_disk_file-IsVerified_example = open_disk_file-IsVerified opener self opened.0 opened.1
