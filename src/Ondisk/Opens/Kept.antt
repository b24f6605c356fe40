-- ===== src/Ondisk/Opens/Kept.antt =====
-- What the reads of the open leave as it is.
use swiftacular.Base.{
  ◌≡◌, refl, inl, inr, Option, none, some, String, str_eq, Result, ok, raise, Dict, pop, Bool-cases,
}
use swiftacular.Ondisk.Opens.{
  Errno, not_directory, no_data, no_entry, other_errno, Opener, DiskFile, from_result, passes,
  kept_or_quarantined, failsafe_read_metadata, merged_ctype, combined,
}
use swiftacular.Ondisk.Opens.Data.{
  with_metafile, with_name, named_from, after_open, with_other, read_all,
}
use swiftacular.Ondisk.Opens.Checks.{Ensures, Ensures-continue-Same, Same, Ensures-quarantine}

module _ (o : Opener) where
  pub Ensures-kept_or_quarantined :
      (file : String) (r : Result (Dict String)) (self : DiskFile)
      → o.files.read file ≡ r
      → Ensures
          (Same (λ metadata. o.files.read file ≡ ok metadata) self)
          (kept_or_quarantined o file r self)
  Ensures-kept_or_quarantined file (ok metadata) self h = (refl, h)
  Ensures-kept_or_quarantined file (raise e) self h = elim (Bool-cases (passes o e)) [
    | inl known ↦ rw known tt
    | inr other ↦
        rw other
          (Ensures-quarantine o (Same (λ metadata. o.files.read file ≡ ok metadata) self) file self)
  ]

  pub Ensures-failsafe_read_metadata :
      (file : String) (self : DiskFile)
      → Ensures
          (Same (λ metadata. o.files.read file ≡ ok metadata) self)
          (failsafe_read_metadata o file self)
  unfolding failsafe_read_metadata
  Ensures-failsafe_read_metadata file self =
      Ensures-kept_or_quarantined file (o.files.read file) self refl

  -- Neither the data file nor the name is another one.
  abbrev pub Keeps : {A : Type 0} → DiskFile → A → DiskFile → Type 0
  Keeps self x s = s.data_file ≡ self.data_file

  pub Ensures-from_result :
      {A : Type 0} (Q : A → DiskFile → Type 0) (r : Result A) (self : DiskFile)
      → ((x : A) → Q x self)
      → Ensures Q (from_result r self)
  Ensures-from_result Q (ok x) self h = h x
  Ensures-from_result Q (raise e) self h = tt

  pub Ensures-with_other :
      (meta_file : String) (ctype_file : Option String) (datafile metafile : Dict String)
      (self : DiskFile)
      → Ensures
          (Same (λ x. Unit {0}) self)
          (with_other o meta_file ctype_file datafile metafile self)
  Ensures-with_other meta_file none datafile metafile self = (refl, tt)
  Ensures-with_other meta_file (some ctype_file) datafile metafile self =
      elim (Bool-cases (str_eq ctype_file meta_file)) [
        | inl same ↦ rw same (refl, tt)
        | inr other ↦ rw other (
            Ensures-continue-Same (λ ctypefile. o.files.read ctype_file ≡ ok ctypefile)
              (Same (λ x. Unit {0}) self) _ self _ (Ensures-failsafe_read_metadata ctype_file self)
              (λ ctypefile h.
                Ensures-from_result (Same (λ x. Unit {0}) self)
                  (merged_ctype o datafile metafile ctypefile) self (λ x. (refl, tt))))
      ]

  pub Ensures-read_all :
      (meta_file ctype_file : Option String) (datafile : Dict String) (self : DiskFile)
      → Ensures (Keeps self) (read_all o meta_file ctype_file datafile self)
  unfolding read_all
  Ensures-read_all none ctype_file datafile self = refl
  Ensures-read_all (some meta_file) ctype_file datafile self =
      Ensures-continue-Same (λ first. o.files.read meta_file ≡ ok first) (Keeps self) _ self _
        (Ensures-failsafe_read_metadata meta_file self)
        (λ first h.
          Ensures-continue-Same (λ x. Unit {0}) (Keeps self) _ (with_metafile first self) _
            (Ensures-with_other meta_file ctype_file datafile first (with_metafile first self))
            (λ metafile h'.
              Ensures-from_result (Keeps self) (combined o datafile metafile)
                (with_metafile (pop "name" metafile) (with_metafile first self)) (λ x. refl)))

  -- Nor is the metadata.
  abbrev pub KeepsMetadata : {A : Type 0} → DiskFile → A → DiskFile → Type 0
  KeepsMetadata self x s = (s.data_file ≡ self.data_file) × (s.metadata ≡ self.metadata)

  pub Ensures-named_from :
      (data_file : String) (own mname : Option String) (self : DiskFile)
      → Ensures (KeepsMetadata self) (named_from o data_file own mname self)
  Ensures-named_from data_file (some name) mname self = (refl, refl)
  Ensures-named_from data_file none none self = tt
  Ensures-named_from data_file none (some name) self = elim (Bool-cases (o.files.is_hash_of name)) [
    | inl right ↦ rw right (refl, refl)
    | inr wrong ↦
        rw wrong (Ensures-quarantine o (KeepsMetadata self) data_file (with_name name self))
  ]

  pub Ensures-after_open :
      (failure : Option Errno) (self : DiskFile)
      → Ensures (Same (λ x. Unit {0}) self) (after_open o failure self)
  Ensures-after_open none self = (refl, tt)
  Ensures-after_open (some not_directory) self = tt
  Ensures-after_open (some no_data) self = tt
  Ensures-after_open (some no_entry) self = tt
  Ensures-after_open (some other_errno) self = tt
