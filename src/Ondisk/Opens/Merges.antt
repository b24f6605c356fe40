-- ===== src/Ondisk/Opens/Merges.antt =====
-- The file backend and the BlueStore backend merge a POST into the metadata alike.
use swiftacular.Base.{
  ℕ, ◌≡◌, refl, inl, inr, true, none, some, String, ok, ltb, Option-cases, Dict, lookup, ◌<◌, arith,
}
use swiftacular.Metadata.{merge, settle_type, ctype_timestamp}
use swiftacular.Ondisk.Opens.{Opener, combined}

module _ (o : Opener) where
  -- The metadata that an open of the files combines from a data file and a POST is the merge of
  -- metadata.py, errors included, where the data file has a timestamp that is not the first. Any time
  -- is newer than none.
  pub combined-merge :
      (datafile metafile : Dict String) (stamp : String) (t : ℕ)
      → ((a : ℕ) → o.swift.newer (some a) none ≡ ok true)
      → lookup "X-Timestamp" datafile ≡ some stamp
      → o.swift.parse stamp ≡ some t
      → 0 < t
      → combined o datafile metafile ≡ merge o.swift datafile metafile
  unfolding combined merge settle_type ctype_timestamp
  combined-merge datafile metafile stamp t any at is positive =
      elim (Option-cases (lookup "Content-Type" datafile)) [
        | inl untyped ↦ rw (combined, untyped) refl
        | inr (ctype, typed) ↦ elim (Option-cases (lookup "Content-Type-Timestamp" metafile)) [
          | inl unstamped ↦
              let later : ltb 0 t ≡ true = ground arith in
              rw (combined, typed, at, is, unstamped, any t, later) refl
          | inr (text, stamped) ↦ elim (Option-cases (o.swift.parse text)) [
            | inl bad ↦ rw (combined, typed, at, is, stamped, bad) refl
            | inr (c, good) ↦
                rw (combined, typed, at, is, stamped, good, o.swift.newer-some t c) refl
          ]
        ]
      ]
