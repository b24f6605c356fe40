-- ===== src/Device/DiskFile.antt =====
-- bluestore/src/bluestore/diskfile.py: what the object server opens, reads, writes and deletes one
-- name through. A `Timestamp` argument stands as its place in the order of timestamps.
pub mod Opens
use swiftacular.Base.{
  ℕ, ◌≡◌, refl, sym, Bool, true, false, Option, none, some, List, [], ◌∷◌, String, Error, Result,
  ok, raise, disk_file_not_exist, disk_file_not_open, disk_file_quarantined, disk_file_deleted,
  ◌>>=◌, expect, if◌then◌else◌, lookup, or_else,
}
use swiftacular.Swift.{Swift}
use swiftacular.Metadata
use swiftacular.Metadata.{Headers, Entry, x_timestamp, content_type}
use swiftacular.Engine.{Object}
use swiftacular.Device.{Device, is_missing, open_object}
use swiftacular.Device

pub record DiskFile : Type 0 where
  pub object : Object
  pub metadata : Option Entry

-- `DiskFileManager.get_diskfile`, on a name that is already joined
unfoldable pub diskfile : Device → String → DiskFile
diskfile dev name = record { object = open_object dev name; metadata = none }

-- `except (ValueError, KeyError)`
abbrev pub quarantined : Result Entry → Result Entry
quarantined (raise Error.value_error) = raise disk_file_quarantined
quarantined (raise Error.key_error) = raise disk_file_quarantined
quarantined r = r

module _ (s : Swift) where
  open s use {raw, internal}

  unfoldable pub open_file : DiskFile → Result DiskFile
  open_file df =
      if is_missing df.object.state
      then raise disk_file_not_exist
      else quarantined (Metadata.get s df.object.header) >>= λ metadata.
          if df.object.deleted
          then raise (disk_file_deleted metadata.data_section)
          else ok (record df { metadata = some metadata })

  unfoldable pub write_metadata : Device → DiskFile → Headers → Result Device
  unfolding open_file
  write_metadata dev df p = do df' ← open_file df; Device.write_metadata_of s dev df'.object.name p

  -- `now` is what the engine's clock gives the tombstone until it is put.
  unfoldable pub delete : Device → DiskFile → ℕ → ℕ → Result Device
  delete dev df now t =
      Device.delete s dev df.object.name now (raw t) (some ((x_timestamp, internal t) ∷ []))

-- `when_open`
unfoldable pub when_open {ℓ} : {A : Type ℓ} → (Entry → A) → DiskFile → Result A
when_open f df = do metadata ← expect disk_file_not_open df.metadata; ok (f metadata)

unfoldable pub get_metadata : DiskFile → Result Headers
unfolding when_open
get_metadata = when_open (λ e. e.merged)

unfoldable pub get_datafile_metadata : DiskFile → Result Headers
unfolding when_open
get_datafile_metadata = when_open (λ e. e.data_section)

unfoldable pub get_metafile_metadata : DiskFile → Result (Option Headers)
unfolding when_open
get_metafile_metadata = when_open (λ e. e.meta_section)

unfoldable pub timestamp : DiskFile → Result (Option ℕ)
unfolding when_open
timestamp = when_open (λ e. e.meta_ts)

unfoldable pub data_timestamp : DiskFile → Result (Option ℕ)
unfolding when_open
data_timestamp = when_open (λ e. e.data_ts)

unfoldable pub content_type_timestamp_of : DiskFile → Result ℕ
unfolding when_open
content_type_timestamp_of = when_open (λ e. e.type_ts)

unfoldable pub content_type_of : DiskFile → Result (Option String)
unfolding when_open
content_type_of = when_open (λ e. lookup content_type e.merged)

-- `with self.open(): return self.get_metadata()`
unfoldable pub read_metadata : Swift → DiskFile → Result Headers
unfolding open_file get_metadata
read_metadata s df = do df' ← open_file s df; get_metadata df'
