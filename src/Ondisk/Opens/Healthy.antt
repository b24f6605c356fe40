-- ===== src/Ondisk/Opens/Healthy.antt =====
-- An object whose files are right is opened.
use swiftacular.Base.{
  ℕ, ◌≡◌, refl, ap, ◌∙◌, inl, inr, true, Option, none, some, List, String, eq_refl, Result, ok,
  raise, ◌==◌, Dict, lookup, pop, arith, ◌⊎◌, Error,
}
use swiftacular.Ondisk.Names.{FileInfo}
use swiftacular.Ondisk.{Results, get_ondisk_files}
use swiftacular.Ondisk.Opens.{
  listed, Opener, DiskFile, done, continue, failsafe_read_metadata, combined,
}
use swiftacular.Ondisk.Opens.Data.{
  with_length, with_metadata, with_data_file, with_datafile, with_metafile, verify_name,
  verify_delete_at, verify_size, verify_data_file, named, named_from, read_all,
  construct_from_data_file, caught, list_files, name_of, open_disk_file,
}

Result-cases : {A : Type 0} (r : Result A) → ((x : A) × (r ≡ ok x)) ⊎ ((e : Error) × (r ≡ raise e))
Result-cases (ok x) = inl (x, refl)
Result-cases (raise e) = inr (e, refl)

ok_injective : {A : Type 0} {a b : A} → ok a ≡ ok b → a ≡ b
ok_injective {a = a} e = ap (λ r. elim r [ ok x ↦ x | raise e' ↦ a ]) e

equal : (n : ℕ) → (n == n) ≡ true
equal n = ground arith

module _ (o : Opener) where
  -- What the data file and the POST, where there is one, say together.
  abbrev pub overlaid : Option FileInfo → Dict String → Result (Dict String)
  overlaid none datafile = ok datafile
  overlaid (some meta) datafile = elim (o.files.read meta.filename) [
    | raise e ↦ raise e
    | ok metafile ↦ combined o datafile metafile
  ]

  abbrev pub after_read : Option FileInfo → DiskFile → DiskFile
  after_read none self = self
  after_read (some meta) self = elim (o.files.read meta.filename) [
    | raise e ↦ self
    | ok metafile ↦ with_metafile (pop "name" metafile) self
  ]

  read_all-overlaid :
      (meta : Option FileInfo) (datafile metadata : Dict String) (self : DiskFile)
      → overlaid meta datafile ≡ ok metadata
      → read_all o (name_of o meta) none datafile self ≡ (done metadata, after_read meta self)
  unfolding read_all failsafe_read_metadata
  read_all-overlaid none datafile metadata self h = ap (λ m. (done m, self)) (ok_injective h)
  read_all-overlaid (some meta) datafile metadata self h =
      elim (Result-cases (o.files.read meta.filename)) [
        | inr (e, failed) ↦ let h' = rw (overlaid, failed) at h in absurd (ground arith)
        | inl (metafile, got) ↦ let h' = rw (overlaid, got) at h in simp (after_read, got, h') refl
      ]

  name-after_read :
      (meta : Option FileInfo) (self : DiskFile) → (after_read meta self).name ≡ self.name
  name-after_read none self = refl
  name-after_read (some meta) self = elim (Result-cases (o.files.read meta.filename)) [
    | inr (e, failed) ↦ rw (after_read, failed) refl
    | inl (metafile, got) ↦ rw (after_read, got) refl
  ]

  module _ (self : DiskFile) (names : List String) (results : Results) (info : FileInfo)
      (datafile metadata : Dict String) (name length : String) (size : ℕ) where
    verify_data_file-passes :
        (s : DiskFile)
        → s.name ≡ some name
        → lookup "name" metadata ≡ some name
        → lookup "X-Delete-At" metadata ≡ none
        → lookup "Content-Length" metadata ≡ some length
        → o.int length ≡ some size
        → o.files.size info.filename ≡ some size
        → verify_data_file o info.filename metadata s ≡ (done tt, with_length size s)
    unfolding verify_data_file verify_name verify_delete_at verify_size
    verify_data_file-passes s own n x l i f =
        simp (n, x, l, i, f, own, eq_refl name, equal size) refl

    named-own :
        (s : DiskFile) → s.name ≡ some name → named o info.filename metadata s ≡ (done tt, s)
    unfolding named
    named-own s own = ap (λ m. named_from o info.filename m (lookup "name" metadata) s) own

    -- An object without a content type of its own time, whose files can be read, whose POST, where there
    -- is one, merges with its data file, and whose metadata has the name that the disk file has, no time
    -- of deletion and the size of the data file as Content-Length, is opened, and has this metadata.
    pub open_disk_file-healthy :
        o.files.listing ≡ listed names
        → get_ondisk_files o.format true names ≡ ok results
        → results.data_info ≡ some info
        → results.ctype_info ≡ none
        → o.files.open_file info.filename ≡ none
        → o.files.read info.filename ≡ ok datafile
        → overlaid results.meta_info datafile ≡ ok metadata
        → self.name ≡ some name
        → lookup "name" metadata ≡ some name
        → lookup "X-Delete-At" metadata ≡ none
        → lookup "Content-Length" metadata ≡ some length
        → o.int length ≡ some size
        → o.files.size info.filename ≡ some size
        → (s : DiskFile) × (open_disk_file o self ≡ (done true, s))
          × (s.metadata ≡ some metadata)
          × (s.content_length ≡ some size)
    unfolding open_disk_file list_files construct_from_data_file failsafe_read_metadata named
    open_disk_file-healthy is_listed found chosen ctype can_open can_read merged own n x l i f =
        let s =
          after_read results.meta_info
            (with_datafile datafile (with_data_file info.filename self)) in
        let s_name : s.name ≡ some name =
          name-after_read results.meta_info
            (with_datafile datafile (with_data_file info.filename self))
          ∙ own in
        (
          with_length size (with_metadata metadata s),
          simp
              (
                is_listed,
                found,
                chosen,
                ctype,
                can_open,
                can_read,
                read_all-overlaid results.meta_info datafile metadata
                    (with_datafile datafile (with_data_file info.filename self)) merged,
              )
              (ap (caught o info.filename) (
                ap (continue (λ done_. verify_data_file o info.filename metadata))
                  (named-own (with_metadata metadata s) s_name)
                ∙ verify_data_file-passes (with_metadata metadata s) s_name n x l i f)),
          refl,
          refl,
        )
