-- ===== src/Ondisk/Opens/Verified.antt =====
-- An object that is open has been verified.
use swiftacular.Base.{
  ℕ, ◌≡◌, refl, ap, ◌∙◌, inl, inr, Bool, true, Option, none, some, String, ok, Dict, lookup,
  Bool-cases, arith, subst,
}
use swiftacular.Ondisk.Names.{FileInfo}
use swiftacular.Ondisk.{Results, get_ondisk_files}
use swiftacular.Ondisk.Opens.{
  not_directory, no_data, no_entry, other_errno, Listed, listed, unlisted, Opener, DiskFile,
  Outcome, done, os_failed, raised, failsafe_read_metadata,
}
use swiftacular.Ondisk.Opens.Data.{
  with_metadata, with_data_file, with_datafile, verify_data_file, named, construct_from_data_file,
  construct_exception_from_ts_file, caught, deleted_or_missing, list_files, name_of, open_data,
  after_listing, open_disk_file,
}
use swiftacular.Ondisk.Opens.Checks.{
  Ensures, Ensures-continue, Ensures-continue-Same, Ensures-weaker, Same, Ensures-quarantine, Lives,
  Passed, Ensures-verify_data_file,
}
use swiftacular.Ondisk.Opens.Kept.{
  Keeps, KeepsMetadata, Ensures-failsafe_read_metadata, Ensures-from_result, Ensures-read_all,
  Ensures-named_from, Ensures-after_open,
}

module _ (o : Opener) where
  pub record IsVerified (self : DiskFile) : Type 0 where
    pub metadata : Dict String
    pub has_metadata : self.metadata ≡ some metadata
    pub name : String
    pub has_name : lookup "name" metadata ≡ some name
    pub is_name : self.name ≡ some name
    pub data_file : String
    pub has_data_file : self.data_file ≡ some data_file
    pub size : ℕ
    pub has_size : o.files.size data_file ≡ some size
    pub length : self.content_length ≡ some size
    pub text : String
    pub has_length : lookup "Content-Length" metadata ≡ some text
    pub is_length : o.int text ≡ some size
    pub lives : Lives o metadata

  Passed→IsVerified :
      (data_file : String) (metadata : Dict String) (self s : DiskFile)
      → Passed o data_file metadata self s
      → self.metadata ≡ some metadata
      → self.data_file ≡ some data_file
      → IsVerified s
  Passed→IsVerified data_file metadata self s passed m d =
      let (name, in_metadata, is_own) = passed.is_named in
      let (text, there, is, has) = passed.sized in
      record {
        metadata = metadata;
        has_metadata = ap (λ t. t.metadata) passed.measured ∙ m;
        name = name;
        has_name = in_metadata;
        is_name = ap (λ t. t.name) passed.measured ∙ is_own;
        data_file = data_file;
        has_data_file = ap (λ t. t.data_file) passed.measured ∙ d;
        size = passed.size;
        has_size = has;
        length = ap (λ t. t.content_length) passed.measured;
        text = text;
        has_length = there;
        is_length = is;
        lives = passed.lives;
      }

  -- What is read of the object, up to its checks.
  Ensures-construct_from_data_file :
      (data_file : String) (meta_file ctype_file : Option String) (self : DiskFile)
      → self.data_file ≡ some data_file
      → Ensures
          (λ x s. IsVerified s)
          (construct_from_data_file o data_file meta_file ctype_file self)
  unfolding construct_from_data_file named
  Ensures-construct_from_data_file data_file meta_file ctype_file self d =
      Ensures-continue-Same (λ x. Unit {0}) (λ x s. IsVerified s) _ self _
        (Ensures-after_open o (o.files.open_file data_file) self)
        (λ x h.
          Ensures-continue-Same (λ m. o.files.read data_file ≡ ok m) (λ x s. IsVerified s) _ self _
            (Ensures-failsafe_read_metadata o data_file self)
            (λ datafile h'.
              Ensures-continue (Keeps o (with_datafile datafile self)) (λ x s. IsVerified s) _ _
                (Ensures-read_all o meta_file ctype_file datafile (with_datafile datafile self))
                (λ metadata s kept.
                  Ensures-continue (KeepsMetadata o (with_metadata metadata s))
                    (λ x s. IsVerified s) _ _
                    (Ensures-named_from o data_file s.name (lookup "name" metadata)
                      (with_metadata metadata s))
                    (λ y t (same_file, same_metadata).
                      Ensures-weaker (λ z u. Passed o data_file metadata t u) (λ z u. IsVerified u)
                        (verify_data_file o data_file metadata t)
                        (λ z u passed.
                          Passed→IsVerified data_file metadata t u passed same_metadata
                            (same_file ∙ kept ∙ d))
                        (Ensures-verify_data_file o data_file metadata t)))))

  -- Where there is an open file.
  abbrev IsSafe : Bool → DiskFile → Type 0
  IsSafe has_file s = has_file ≡ true → IsVerified s

  Ensures-caught :
      (data_file : String) (out : Outcome (Unit {0}) × DiskFile)
      → Ensures (λ x s. IsVerified s) out
      → Ensures IsSafe (caught o data_file out)
  Ensures-caught data_file (done x, s) h = λ e. h
  Ensures-caught data_file (os_failed no_data, s) h = Ensures-quarantine o IsSafe data_file s
  Ensures-caught data_file (os_failed not_directory, s) h = λ e. absurd (ground arith)
  Ensures-caught data_file (os_failed no_entry, s) h = λ e. absurd (ground arith)
  Ensures-caught data_file (os_failed other_errno, s) h = λ e. absurd (ground arith)
  Ensures-caught data_file (raised e, s) h = tt

  Ensures-deleted_or_missing :
      (out : Outcome (Dict String) × DiskFile) → Ensures IsSafe (deleted_or_missing o out)
  Ensures-deleted_or_missing (done metadata, s) = tt
  Ensures-deleted_or_missing (os_failed errno, s) = tt
  Ensures-deleted_or_missing (raised e, s) = tt

  Ensures-ts_file :
      (ts_file : Option String) (self : DiskFile)
      → Ensures IsSafe (construct_exception_from_ts_file o ts_file self)
  unfolding construct_exception_from_ts_file
  Ensures-ts_file none self = tt
  Ensures-ts_file (some ts_file) self =
      Ensures-deleted_or_missing (failsafe_read_metadata o ts_file self)

  Ensures-open_data :
      (chosen : Option FileInfo) (results : Results) (self : DiskFile)
      → Ensures IsSafe (open_data o chosen results self)
  Ensures-open_data none results self = Ensures-ts_file (name_of o results.ts_info) self
  Ensures-open_data (some info) results self =
      Ensures-caught info.filename
        (construct_from_data_file o info.filename (name_of o results.meta_info)
          (name_of o results.ctype_info) (with_data_file info.filename self))
        (Ensures-construct_from_data_file info.filename (name_of o results.meta_info)
          (name_of o results.ctype_info) (with_data_file info.filename self) refl)

  Ensures-after_listing :
      (found : Listed) (self : DiskFile)
      → Ensures (Same (λ x. Unit {0}) self) (after_listing o found self)
  Ensures-after_listing (listed names) self = (refl, tt)
  Ensures-after_listing (unlisted not_directory) self =
      Ensures-quarantine o (Same (λ x. Unit {0}) self) "made-up-filename" self
  Ensures-after_listing (unlisted no_data) self =
      elim (Bool-cases (o.files.can_quarantine "made-up-filename")) [
        | inl can ↦
            rw can (Ensures-quarantine o (Same (λ x. Unit {0}) self) "made-up-filename" self)
        | inr cannot ↦ rw cannot (Ensures-quarantine o (Same (λ x. Unit {0}) self) "" self)
      ]
  Ensures-after_listing (unlisted no_entry) self = (refl, tt)
  Ensures-after_listing (unlisted other_errno) self = tt

  Ensures-open_disk_file : (self : DiskFile) → Ensures IsSafe (open_disk_file o self)
  unfolding open_disk_file list_files
  Ensures-open_disk_file self =
      Ensures-continue-Same (λ x. Unit {0}) IsSafe _ self _
        (Ensures-after_listing o.files.listing self)
        (λ names h.
          Ensures-continue-Same (λ x. Unit {0}) IsSafe _ self _
            (Ensures-from_result o (Same (λ x. Unit {0}) self)
              (get_ondisk_files o.format true names) self (λ x. (refl, tt)))
            (λ results h'. Ensures-open_data results.data_info results self))

  -- An open that returns with an open file, whatever the directory holds, has the metadata of an
  -- object of its own name, whose Content-Length is the size of the data file, and which has not
  -- expired, unless that does not count.
  pub open_disk_file-IsVerified :
      (self s : DiskFile) → open_disk_file o self ≡ (done true, s) → IsVerified s
  open_disk_file-IsVerified self s e = subst (Ensures IsSafe) e (Ensures-open_disk_file self) refl
