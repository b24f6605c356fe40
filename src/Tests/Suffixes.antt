-- ===== src/Tests/Suffixes.antt =====
-- Witness for the hashes of a partition: a suffix with an old digest is invalidated and hashed again.
use swiftacular.Base.{ℕ, ◌≡◌, refl, true, false, some, [], ◌∷◌, ok, lookup}
use swiftacular.Ondisk.Suffixes.{
  flag, time, digest, Hashes, holds, absent, lines, Partition, valid_suffix, invalidate_hash,
}
use swiftacular.Ondisk.Suffixes.Rehash.{hashed, Attempt, get_hashes}
use swiftacular.Ondisk.Suffixes.Rehash.Loops.{entry_of}
use swiftacular.Ondisk.Suffixes.Rehash.Fresh.{IsAlone, get_hashes-invalidate_hash}

abbrev old_hashes : Hashes
old_hashes =
    ("abc", digest "old") ∷ ("0f3", digest "kept") ∷ ("valid", flag true) ∷ ("updated", time 5) ∷ []

abbrev partition : Partition
partition = record { pickled = holds old_hashes; invalidations = absent }

abbrev invalid_partition : Partition
invalid_partition = record { pickled = holds old_hashes; invalidations = lines ("abc\n" ∷ []) }

abbrev attempt : Attempt
attempt = record {
  consolidated_at = 7;
  before = λ p. p;
  before_reading = λ p. p;
  before_writing = λ p. p;
  listing = some ("abc" ∷ "0f3" ∷ "hashes.pkl" ∷ []);
  hash_suffix = λ suffix. hashed "new";
  written_at = 8;
}

attempt-IsAlone : IsAlone attempt
attempt-IsAlone = (λ p. refl, λ p. refl, λ p. refl)

is_valid_suffix : valid_suffix "abc" ≡ true
unfolding valid_suffix
is_valid_suffix = refl

is_invalidated : invalidate_hash "abc" partition ≡ ok invalid_partition
unfolding invalidate_hash
is_invalidated = refl

get_hashes-invalidate_hash_example :
    (count : ℕ) × (hashes : Hashes) × (r : Partition) × (get_hashes
        (attempt ∷ [])
        []
        false
        invalid_partition
      ≡ some (ok (count, hashes, r)))
    × (lookup "abc" hashes ≡ entry_of (hashed "new"))
get_hashes-invalidate_hash_example =
    get_hashes-invalidate_hash attempt [] [] false "abc" ("abc" ∷ "0f3" ∷ "hashes.pkl" ∷ [])
      partition invalid_partition is_valid_suffix attempt-IsAlone refl refl is_invalidated

-- One suffix is hashed, and the other keeps its hash.
hashed_once :
    get_hashes (attempt ∷ []) [] false invalid_partition
    ≡ some (
        ok (
          1,
          ("abc", digest "new") ∷ ("0f3", digest "kept") ∷ [],
          record {
            pickled = holds (
                ("abc", digest "new")
                ∷ ("0f3", digest "kept")
                ∷ ("valid", flag true)
                ∷ ("updated", time 8)
                ∷ []);
            invalidations = lines [];
          },
        ))
unfolding get_hashes
hashed_once = refl
