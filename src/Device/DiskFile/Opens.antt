-- ===== src/Device/DiskFile/Opens.antt =====
-- How the open of a DiskFile ends.
use swiftacular.Base.{
  ℕ, ◌≡◌, ◌<◌, refl, ap, ◌∙◌, true, false, Option, none, some, [], ◌∷◌, String, eq_refl, Bool-cases,
  inl, inr, Result, ok, raise, disk_file_not_exist, disk_file_deleted, arith, if◌then◌else◌, lookup,
  insert, lookup-insert,
}
use swiftacular.Swift.{Swift}
use swiftacular.Metadata
use swiftacular.Metadata.{Headers, Entry, Blob, x_timestamp, content_type_timestamp, fixed}
use swiftacular.Metadata.Stamps.{untyped}
use swiftacular.Metadata.RoundTrip.{get_sections}
use swiftacular.Engine.{Object, active}
use swiftacular.Device.{Device, open_object, is_missing}
use swiftacular.Device
use swiftacular.Device.Readable.{
  IsReadable, gone, held, IsSound, Settles, loses, wins, delete-Settles,
}
use swiftacular.Device.DiskFile.{DiskFile, diskfile, open_file, get_datafile_metadata}
use swiftacular.Device.DiskFile

module _ (s : Swift) (stamp_free : fixed s x_timestamp ≡ false)
    (type_free : fixed s content_type_timestamp ≡ false) where
  open s use {raw, internal}

  -- How an open ends on an Object that can be read: as missing, as deleted, or opened.
  pub data Opens (df : DiskFile) : Type 0 where
    not_exist :
        is_missing df.object.state ≡ true → open_file s df ≡ raise disk_file_not_exist → Opens df
    deleted :
        (d : Headers)
        → df.object.deleted ≡ true
        → open_file s df ≡ raise (disk_file_deleted d)
        → Opens df
    opened :
        (df' : DiskFile) (d : Headers)
        → df.object.deleted ≡ false
        → open_file s df ≡ ok df'
        → get_datafile_metadata df' ≡ ok d
        → Opens df

  open_held :
      (o : Object) (m : Option Entry) (e : Entry)
      → is_missing o.state ≡ false
      → Metadata.get s o.header ≡ ok e
      → open_file s (record { object = o; metadata = m }) ≡ (
          if o.deleted
          then raise (disk_file_deleted e.data_section)
          else ok (record { object = o; metadata = some e }))
  unfolding open_file
  open_held o m e h g = ground arith

  open_sections :
      (o : Object) (m : Option Entry) (e : Entry)
      → is_missing o.state ≡ false
      → Metadata.get s o.header ≡ ok e
      → Opens (record { object = o; metadata = m })
  open_sections o m e h g = elim (Bool-cases o.deleted) [
    | inl gone_now ↦ deleted e.data_section gone_now (open_held o m e h g ∙ rw gone_now)
    | inr alive ↦
        opened (record { object = o; metadata = some e }) e.data_section alive
          (open_held o m e h g ∙ rw alive) (unfold get_datafile_metadata in refl)
  ]

  -- An Object that can be read is never quarantined: the open says that it is missing, or deleted,
  -- or gives what was stored.
  pub open-IsReadable :
      (o : Object) (m : Option Entry) → IsReadable s o → Opens (record { object = o; metadata = m })
  open-IsReadable o m (gone st z) = not_exist (rw st) (unfold open_file in rw st)
  open-IsReadable o m (held d meta t u c k st h hd ht hk hm) =
      let (e, g, ed, em, et) = get_sections s d meta t u c k stamp_free type_free hd ht hk hm in
      open_sections o m e (rw st) (rw h g)

  readable_data :
      (o : Object) (d : Headers) (m : Option Headers)
      → o.state ≡ active
      → o.header ≡ Blob.sections (some d) m
      → IsReadable s o
      → (e : Entry) × (Metadata.get s o.header ≡ ok e) × (e.data_section ≡ d)
  readable_data o d m st h (gone st' z) = absurd (ground arith)
  readable_data o d m st h (held d' m' t u c k st' h' hd ht hk hm) =
      let (e, g, ed, em, et) = get_sections s d' m' t u c k stamp_free type_free hd ht hk hm in
      (e, rw h' g, ed ∙ ground arith)

  open_tomb :
      (o : Object) (d : Headers) (m : Option Headers)
      → o.state ≡ active
      → o.deleted ≡ true
      → o.header ≡ Blob.sections (some d) m
      → IsReadable s o
      → open_file s (record { object = o; metadata = none }) ≡ raise (disk_file_deleted d)
  open_tomb o d m st hd h hr =
      let (e, g, ed) = readable_data o d m st h hr in
      open_held o none e (rw st) g ∙ rw hd (ap (λ x. raise (disk_file_deleted x)) ed)

  open_settled :
      (dev : Device) (name : String) (ts : ℕ) (d : Headers) (r : Result Device)
      → (open_object dev name).ts < ts
      → Settles s stamp_free type_free dev name ts [] true d r
      → (dev' : Device) × (r ≡ ok dev')
        × (open_file s (diskfile dev' name) ≡ raise (disk_file_deleted d))
  unfolding diskfile open_object
  open_settled dev name ts d r lt (loses h e) = absurd (ground arith)
  open_settled dev name ts d r lt (wins next new e hn ht hb hd m hh hs hr) =
      (insert name next dev, e, rw lookup-insert (rw eq_refl (open_tomb next d m hs hd hh hr)))

  -- After a delete that is the newest write of its name, an open of the name says that it is
  -- deleted, with the time of the delete.
  pub open_file-delete :
      (dev : Device) (name : String) (now t : ℕ)
      → IsSound s dev name
      → (open_object dev name).ts < raw t
      → (dev' : Device) × (DiskFile.delete s dev (diskfile dev name) now t ≡ ok dev')
        × (open_file s (diskfile dev' name)
            ≡ raise (disk_file_deleted ((x_timestamp, internal t) ∷ [])))
  unfolding DiskFile.delete diskfile
  open_file-delete dev name now t v lt =
      let d : Headers = (x_timestamp, internal t) ∷ [] in
      rw (v.named) (
        open_settled dev name (raw t) d (Device.delete s dev name now (raw t) (some d)) lt (
          delete-Settles s stamp_free type_free dev name now (raw t) t 0 d v
            (unfold lookup in (refl, tt)) (unfold lookup in refl)
            (untyped (unfold lookup in refl) refl)))
