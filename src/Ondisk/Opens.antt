-- ===== src/Ondisk/Opens.antt =====
-- swift_patches/obj/bs_diskfile.py: the open of an object through the files of its hash directory
-- (BaseDiskFile.open). An OSError has an errno, which the code looks at; another exception is an
-- `Error`. A file is its name in the directory; `made-up-filename` stands for the directory.
pub mod Data
pub mod Merges
pub mod Checks
pub mod Kept
pub mod Verified
pub mod Healthy
use swiftacular.Base.{
  ℕ, Bool, true, false, not, ◌&&◌, Option, none, some, List, [], ◌∷◌, ◌++◌, String, str_eq, Error,
  Result, ok, raise, key_error, type_error, value_error, disk_file_error, disk_file_not_exist,
  disk_file_quarantined, disk_file_collision, disk_file_xattr_not_supported, disk_file_expired,
  disk_file_deleted, ltb, leb, ◌==◌, if◌then◌else◌, or_else, is_some, Dict, lookup, insert, update,
  pop,
}
use swiftacular.Swift.{Swift}
use swiftacular.Metadata.{fixed}
use swiftacular.Ondisk.Names.{FileInfo, NameFormat}
use swiftacular.Ondisk.{Results, get_ondisk_files}

-- `no_data` is ENODATA or EUCLEAN.
pub data Errno : Type 0 where
  not_directory no_data no_entry other_errno : Errno

pub data Listed : Type 0 where
  listed : List String → Listed
  unlisted : Errno → Listed

-- What the file system answers; `read` is read_metadata.
pub record Files : Type 0 where
  pub listing : Listed
  pub open_file : String → Option Errno
  pub read : String → Result (Dict String)
  pub size : String → Option ℕ
  pub can_quarantine : String → Bool
  -- the hash of a name is the name of the directory
  pub is_hash_of : String → Bool

-- What the object is opened with; `_name` is None for an object that is found by its directory.
pub record Opener : Type 0 where
  pub swift : Swift
  pub format : NameFormat
  pub int : String → Option ℕ
  pub text_lt : String → String → Bool
  pub open_expired : Bool
  pub current_time : ℕ
  pub files : Files

-- The fields of the disk file.
pub record DiskFile : Type 0 where
  pub name : Option String
  pub metadata : Option (Dict String)
  pub datafile_metadata : Option (Dict String)
  pub metafile_metadata : Option (Dict String)
  pub content_length : Option ℕ
  pub data_file : Option String
  pub quarantined : List String

pub data Outcome (A : Type 0) : Type 0 where
  done : A → Outcome A
  os_failed : Errno → Outcome A
  raised : Error → Outcome A

abbrev pub Action : Type 0 → Type 0
Action A = DiskFile → Outcome A × DiskFile

module _ {A : Type 0} where
  abbrev pub pure : A → Action A
  pure x self = (done x, self)

  abbrev pub throw : Error → Action A
  throw e self = (raised e, self)

  abbrev pub from_result : Result A → Action A
  from_result (raise e) self = (raised e, self)
  from_result (ok x) self = (done x, self)

  abbrev pub demand : Error → Option A → Action A
  demand e none self = (raised e, self)
  demand e (some x) self = (done x, self)

  abbrev pub gets : (DiskFile → A) → Action A
  gets f self = (done (f self), self)

abbrev pub sets : (DiskFile → DiskFile) → Action (Unit {0})
sets f self = (done tt, f self)

abbrev pub continue : {A B : Type 0} → (A → Action B) → Outcome A × DiskFile → Outcome B × DiskFile
continue k (done x, self) = k x self
continue k (os_failed e, self) = (os_failed e, self)
continue k (raised e, self) = (raised e, self)

infixl 5 ◌>>=◌ ◌>>◌
abbrev pub ◌>>=◌ : {A B : Type 0} → Action A → (A → Action B) → Action B
◌>>=◌ m k self = continue k (m self)

abbrev pub ◌>>◌ : {B : Type 0} → Action (Unit {0}) → Action B → Action B
m >> k = m >>= λ _. k

infixl 5 ◌then_result◌
abbrev ◌then_result◌ : {A B : Type 0} → Result A → (A → Result B) → Result B
m then_result k = swiftacular.Base.◌>>=◌ m k

module _ (o : Opener) where
  abbrev pub with_quarantined : String → DiskFile → DiskFile
  with_quarantined file self = record self { quarantined = self.quarantined ++ file ∷ [] }

  -- `raise self._quarantine(file, msg)`; the rename may fail.
  unfoldable pub quarantine : {A : Type 0} → String → Action A
  quarantine file self =
      if o.files.can_quarantine file
      then (raised disk_file_quarantined, with_quarantined file self)
      else (os_failed other_errno, self)

  abbrev pub passes : Error → Bool
  passes disk_file_xattr_not_supported = true
  passes disk_file_not_exist = true
  passes _ = false

  abbrev pub kept_or_quarantined : String → Result (Dict String) → Action (Dict String)
  kept_or_quarantined file (ok metadata) self = (done metadata, self)
  kept_or_quarantined file (raise e) self =
      if passes e then (raised e, self) else quarantine file self

  unfoldable pub failsafe_read_metadata : String → Action (Dict String)
  unfolding quarantine
  failsafe_read_metadata file = kept_or_quarantined file (o.files.read file)

  -- `self.data_timestamp`
  abbrev pub time_in : Dict String → Result ℕ
  time_in metadata = elim (lookup "X-Timestamp" metadata) [
    | none ↦ raise type_error
    | some text ↦ elim (o.swift.parse text) [ none ↦ raise value_error | some t ↦ ok t ]
  ]

  -- Whether a time is newer than that of a text.
  abbrev pub is_after : ℕ → Option String → Result Bool
  is_after t none = o.swift.newer (some t) none
  is_after t (some text) = elim (o.swift.parse text) [
    | none ↦ raise value_error
    | some c ↦ o.swift.newer (some t) (some c)
  ]

  -- Whether a text is newer than a time.
  abbrev is_before : ℕ → String → Result Bool
  is_before t text = elim (o.swift.parse text) [
    | none ↦ raise value_error
    | some c ↦ o.swift.newer (some c) (some t)
  ]

  abbrev with_ctype : Dict String → String → Option String → Dict String
  with_ctype metafile ctype none = insert "Content-Type" ctype metafile
  with_ctype metafile ctype (some time) =
      insert "Content-Type-Timestamp" time (insert "Content-Type" ctype metafile)

  -- The content type of another POST, where it is the newest.
  unfoldable pub merged_ctype : Dict String → Dict String → Dict String → Result (Dict String)
  unfolding lookup insert
  merged_ctype datafile metafile ctypefile = elim (lookup "Content-Type" ctypefile) [
    | none ↦ ok metafile
    | some ctype ↦
        let time = or_else "" (lookup "Content-Type-Timestamp" ctypefile) in
        if o.text_lt (or_else "" (lookup "Content-Type-Timestamp" metafile)) time
        then (time_in datafile then_result λ t. is_before t time then_result λ newer. ok (
            if newer
            then with_ctype metafile ctype (lookup "Content-Type-Timestamp" ctypefile)
            else metafile))
        else ok metafile
  ]

  -- What a POST leaves of the metadata of a data file.
  unfoldable pub combined : Dict String → Dict String → Result (Dict String)
  unfolding lookup insert update pop fixed
  combined datafile metafile =
      let metadata = update (fixed o.swift) metafile datafile in
      elim (lookup "Content-Type" datafile) [
        | none ↦ ok metadata
        | some ctype ↦ elim (time_in datafile) [
          | raise e ↦ raise e
          | ok t ↦ elim (is_after t (lookup "Content-Type-Timestamp" metafile)) [
            | raise e ↦ raise e
            | ok newer ↦ ok (
                if newer
                then pop "Content-Type-Timestamp" (insert "Content-Type" ctype metadata)
                else metadata)
          ]
        ]
      ]
