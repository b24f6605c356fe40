-- ===== src/Ondisk/Opens/Data.antt =====
-- _verify_data_file, _construct_from_data_file and open: from the chosen files to an open object.
use swiftacular.Base.{
  ℕ, Bool, true, false, not, ◌&&◌, Option, none, some, List, [], String, str_eq, Error, key_error,
  disk_file_error, disk_file_not_exist, disk_file_quarantined, disk_file_collision,
  disk_file_expired, disk_file_deleted, leb, ◌==◌, if◌then◌else◌, or_else, Dict, lookup, pop,
}
use swiftacular.Ondisk.Names.{FileInfo}
use swiftacular.Ondisk.{Results, get_ondisk_files}
use swiftacular.Ondisk.Opens.{
  Errno, not_directory, no_data, no_entry, other_errno, Listed, listed, unlisted, Opener, DiskFile,
  Outcome, done, os_failed, raised, Action, pure, from_result, sets, ◌>>=◌, ◌>>◌, quarantine,
  failsafe_read_metadata, merged_ctype, combined,
}

abbrev pub with_name : String → DiskFile → DiskFile
with_name name self = record self { name = some name }

abbrev pub with_length : ℕ → DiskFile → DiskFile
with_length n self = record self { content_length = some n }

abbrev pub with_datafile : Dict String → DiskFile → DiskFile
with_datafile metadata self = record self { datafile_metadata = some metadata; metadata = some [] }

abbrev pub with_metafile : Dict String → DiskFile → DiskFile
with_metafile metadata self = record self { metafile_metadata = some metadata }

abbrev pub with_metadata : Dict String → DiskFile → DiskFile
with_metadata metadata self = record self { metadata = some metadata }

abbrev pub with_data_file : String → DiskFile → DiskFile
with_data_file name self = record self { data_file = some name }

abbrev pub is_name : Option String → String → Bool
is_name none mname = false
is_name (some name) mname = str_eq mname name

module _ (o : Opener) where
  -- The name in the metadata is the name of the object.
  abbrev pub checked_name : String → Option String → Action (Unit {0})
  checked_name data_file none self = quarantine o data_file self
  checked_name data_file (some mname) self =
      if is_name self.name mname then (done tt, self) else (raised disk_file_collision, self)

  unfoldable pub verify_name : String → Dict String → Action (Unit {0})
  unfolding lookup quarantine
  verify_name data_file metadata = checked_name data_file (lookup "name" metadata)

  abbrev pub checked_time : String → Dict String → Option ℕ → Action (Unit {0})
  checked_time data_file metadata none self = quarantine o data_file self
  checked_time data_file metadata (some x_delete_at) self =
      if leb x_delete_at o.current_time && not o.open_expired
      then (raised (disk_file_expired metadata), self)
      else (done tt, self)

  abbrev pub checked_delete_at : String → Dict String → Option String → Action (Unit {0})
  checked_delete_at data_file metadata none self = (done tt, self)
  checked_delete_at data_file metadata (some text) self =
      checked_time data_file metadata (o.int text) self

  unfoldable pub verify_delete_at : String → Dict String → Action (Unit {0})
  unfolding lookup quarantine
  verify_delete_at data_file metadata =
      checked_delete_at data_file metadata (lookup "X-Delete-At" metadata)

  abbrev pub same_size : String → Option ℕ → Option ℕ → Action ℕ
  same_size data_file none size self = quarantine o data_file self
  same_size data_file (some metadata_size) none self = quarantine o data_file self
  same_size data_file (some metadata_size) (some obj_size) self =
      if obj_size == metadata_size then (done obj_size, self) else quarantine o data_file self

  abbrev pub checked_size : String → Option String → Action ℕ
  checked_size data_file none self = quarantine o data_file self
  checked_size data_file (some text) self =
      same_size data_file (o.int text) (o.files.size data_file) self

  unfoldable pub verify_size : String → Dict String → Action ℕ
  unfolding lookup quarantine
  verify_size data_file metadata = checked_size data_file (lookup "Content-Length" metadata)

  unfoldable pub verify_data_file : String → Dict String → Action (Unit {0})
  unfolding verify_name verify_delete_at verify_size
  verify_data_file data_file metadata = do
    verify_name data_file metadata
    verify_delete_at data_file metadata
    obj_size ← verify_size data_file metadata
    sets (with_length obj_size)

  -- The metadata of the POST, with the content type of another one.
  abbrev pub other_ctype : String → Dict String → Dict String → Action (Dict String)
  other_ctype ctype_file datafile metafile = do
    ctypefile ← failsafe_read_metadata o ctype_file
    from_result (merged_ctype o datafile metafile ctypefile)

  abbrev pub with_other : String → Option String → Dict String → Dict String → Action (Dict String)
  with_other meta_file none datafile metafile self = (done metafile, self)
  with_other meta_file (some ctype_file) datafile metafile self =
      if str_eq ctype_file meta_file
      then (done metafile, self)
      else other_ctype ctype_file datafile metafile self

  unfoldable pub read_all : Option String → Option String → Dict String → Action (Dict String)
  unfolding failsafe_read_metadata merged_ctype combined pop
  read_all none ctype_file datafile = pure datafile
  read_all (some meta_file) ctype_file datafile = do
    first ← failsafe_read_metadata o meta_file
    sets (with_metafile first)
    metafile ← with_other meta_file ctype_file datafile first
    sets (with_metafile (pop "name" metafile))
    from_result (combined o datafile metafile)

  -- An object that was found by its directory gets its name here.
  abbrev pub named_by : String → Option String → Action (Unit {0})
  named_by data_file none self = (raised key_error, self)
  named_by data_file (some name) self =
      if o.files.is_hash_of name
      then (done tt, with_name name self)
      else quarantine o data_file (with_name name self)

  abbrev pub named_from : String → Option String → Option String → Action (Unit {0})
  named_from data_file (some name) mname self = (done tt, self)
  named_from data_file none mname self = named_by data_file mname self

  unfoldable pub named : String → Dict String → Action (Unit {0})
  unfolding lookup quarantine
  named data_file metadata self = named_from data_file self.name (lookup "name" metadata) self

  abbrev pub after_open : Option Errno → Action (Unit {0})
  after_open none self = (done tt, self)
  after_open (some no_entry) self = (raised disk_file_not_exist, self)
  after_open (some errno) self = (os_failed errno, self)

  abbrev pub opened_file : String → Action (Unit {0})
  opened_file data_file = after_open (o.files.open_file data_file)

  unfoldable pub construct_from_data_file :
      String → Option String → Option String → Action (Unit {0})
  unfolding failsafe_read_metadata read_all named verify_data_file
  construct_from_data_file data_file meta_file ctype_file = do
    opened_file data_file
    datafile ← failsafe_read_metadata o data_file
    sets (with_datafile datafile)
    metadata ← read_all meta_file ctype_file datafile
    sets (with_metadata metadata)
    named data_file metadata
    verify_data_file data_file metadata

  abbrev unless_quarantined : Error → Error
  unless_quarantined disk_file_quarantined = disk_file_not_exist
  unless_quarantined e = e

  -- The exception of an object without a data file.
  abbrev pub deleted_or_missing : Outcome (Dict String) × DiskFile → Outcome Bool × DiskFile
  deleted_or_missing (done metadata, self) = (raised (disk_file_deleted metadata), self)
  deleted_or_missing (os_failed errno, self) = (os_failed errno, self)
  deleted_or_missing (raised e, self) = (raised (unless_quarantined e), self)

  unfoldable pub construct_exception_from_ts_file : Option String → Action Bool
  unfolding failsafe_read_metadata
  construct_exception_from_ts_file none self = (raised disk_file_not_exist, self)
  construct_exception_from_ts_file (some ts_file) self =
      deleted_or_missing (failsafe_read_metadata o ts_file self)

  -- What open does with an OSError of the construction; whether there is an open file then.
  abbrev pub caught : String → Outcome (Unit {0}) × DiskFile → Outcome Bool × DiskFile
  caught data_file (done x, self) = (done true, self)
  caught data_file (os_failed no_data, self) = quarantine o data_file self
  caught data_file (os_failed errno, self) =
      (done false, with_metadata (or_else [] self.metadata) self)
  caught data_file (raised e, self) = (raised e, self)

  abbrev unlistable : String
  unlistable = "made-up-filename"

  abbrev pub after_listing : Listed → Action (List String)
  after_listing (listed names) self = (done names, self)
  after_listing (unlisted not_directory) self = quarantine o unlistable self
  after_listing (unlisted no_data) self =
      if o.files.can_quarantine unlistable
      then quarantine o unlistable self
      else quarantine o "" self
  after_listing (unlisted no_entry) self = (done [], self)
  after_listing (unlisted other_errno) self = (raised disk_file_error, self)

  unfoldable pub list_files : Action (List String)
  unfolding quarantine
  list_files = after_listing o.files.listing

  abbrev pub name_of : Option FileInfo → Option String
  name_of none = none
  name_of (some info) = some info.filename

  abbrev pub open_data : Option FileInfo → Results → Action Bool
  open_data none results self = construct_exception_from_ts_file (name_of results.ts_info) self
  open_data (some info) results self = caught info.filename (
      construct_from_data_file info.filename (name_of results.meta_info)
        (name_of results.ctype_info) (with_data_file info.filename self))

  abbrev pub open_chosen : Results → Action Bool
  open_chosen results = open_data results.data_info results

  unfoldable pub open_disk_file : Action Bool
  unfolding list_files construct_from_data_file construct_exception_from_ts_file quarantine
      get_ondisk_files
  open_disk_file = do
    names ← list_files
    results ← from_result (get_ondisk_files o.format true names)
    open_chosen results
