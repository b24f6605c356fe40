-- ===== src/Tests/Cleanup.antt =====
-- Witnesses for the cleanup of a hash directory: of a directory with a tombstone between two data
-- files, a meta file and a stray name, and of one whose tombstone is past the reclaim age.
use swiftacular.Base.{
  ℕ, ◌≡◌, refl, Bool, false, none, List, [], ◌∷◌, String, ok, ltb, lookup, insert,
}
use swiftacular.Ondisk.Names.{parse_on_disk_filename}
use swiftacular.Ondisk.{Results, get_ondisk_files, sort_desc, split_gt_timestamp}
use swiftacular.Ondisk.Cleanup.{Cleaned, listed, text_le, sort_names, cleanup_ondisk_files}
use swiftacular.Ondisk.Cleanup.Keeps.{Keeps, cleanup_ondisk_files-Keeps}
use swiftacular.Tests.Ondisk.{letters_format, listing}

abbrev before_3 : ℕ → Bool
before_3 t = ltb t 3

cleanup_ondisk_files-Keeps_example :
    (r : Results) × (get_ondisk_files letters_format false (sort_names listing) ≡ ok r)
    × ((c : Cleaned) × (cleanup_ondisk_files before_3 letters_format (listed listing) ≡ ok c)
        × Keeps listing r c)
cleanup_ondisk_files-Keeps_example = cleanup_ondisk_files-Keeps before_3 letters_format listing

abbrev old_tombstone : List String
old_tombstone = "xx.data" ∷ "xxx.ts" ∷ "README" ∷ []

-- A tombstone past the reclaim age goes too.
reclaimed_tombstone :
    (c : Cleaned) × (cleanup_ondisk_files before_3 letters_format (listed old_tombstone) ≡ ok c)
    × (c.files ≡ "README" ∷ [])
    × (c.removed ≡ "xxx.ts" ∷ "xx.data" ∷ [])
    × (c.results.ts_info ≡ none)
unfolding cleanup_ondisk_files get_ondisk_files lookup parse_on_disk_filename insert sort_desc
    split_gt_timestamp text_le
reclaimed_tombstone = (_, refl, refl, refl, refl)
