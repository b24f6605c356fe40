-- ===== src/Ondisk/Suffixes/Rehash/Fresh.antt =====
-- The hash of a suffix that was invalidated is computed again.
use swiftacular.Base.{
  ℕ, ◌≡◌, refl, ◌∙◌, Bool, true, false, ◌⊎◌, Option, none, some, List, [], ◌∷◌, String, str_eq,
  eq_refl, arith, ok, any, lookup, pop, lookup-pop, Bool-cases, inl, inr,
}
use swiftacular.Ondisk.Suffixes.{
  holds, Entry, flag, time, forever_old, stale, digest, Hashes, Partition, valid_suffix,
  read_hashes, write_hashes, invalidate_hash,
}
use swiftacular.Ondisk.Suffixes.Invalid.{
  apart, lookup-write_hashes, consolidate_hashes-invalidate_hash,
}
use swiftacular.Ondisk.Suffixes.Rehash.{
  Attempt, entry_eq, at_both, agree, hashes_eq, add_listed, mark_stale, Rehashed, is_valid, Start,
  start, started, listed, recalculated, finish, get_hashes_and_times, get_hashes,
}
use swiftacular.Ondisk.Suffixes.Rehash.Loops.{
  entry_of, Pending, three, lookup-add_listed, lookup-mark_stale, rehash_all_stale,
}

entry_eq_refl : (e : Entry) → entry_eq e e ≡ true
entry_eq_refl (flag true) = refl
entry_eq_refl (flag false) = refl
entry_eq_refl (time t) = ground arith
entry_eq_refl forever_old = refl
entry_eq_refl stale = refl
entry_eq_refl (digest d) = eq_refl d

at_both_refl : (o : Option Entry) → at_both o o ≡ true
at_both_refl none = refl
at_both_refl (some e) = entry_eq_refl e

agree_refl : (a keys : Hashes) → agree a a keys ≡ true
unfolding agree
agree_refl a [] = refl
agree_refl a ((key, _) ∷ keys) = ground (arith, at_both_refl (lookup key a), agree_refl a keys)

hashes_eq_refl : (a : Hashes) → hashes_eq a a ≡ true
unfolding hashes_eq
hashes_eq_refl a = ground (arith, agree_refl a a)

-- Nobody else changes the partition during the attempt.
abbrev pub IsAlone : Attempt → Type 0
IsAlone a =
    ((p : Partition) → a.before p ≡ p)
    × ((p : Partition) → a.before_reading p ≡ p)
    × ((p : Partition) → a.before_writing p ≡ p)

-- What an attempt starts with is what the file holds, with the suffix pending.
IsStarted : String → List String → Start → Type 0
IsStarted suffix names s =
    (read_hashes s.partition.pickled ≡ s.orig_hashes)
    × ((lookup suffix s.hashes ≡ some stale)
        ⊎ ((s.do_listdir ≡ true) × Pending suffix names s.hashes))

start-IsStarted :
    (a : Attempt) (do_listdir : Bool) (suffix : String) (names : List String) (hashes : Hashes)
    (p : Partition)
    → valid_suffix suffix ≡ true
    → any (str_eq suffix) names ≡ true
    → read_hashes p.pickled ≡ hashes
    → lookup suffix hashes ≡ some stale
    → IsStarted suffix names (start a do_listdir (hashes, p))
unfolding start IsStarted valid_suffix lookup
start-IsStarted a do_listdir suffix names hashes p valid there same is =
    elim (Bool-cases (is_valid (lookup "valid" hashes))) [
      | inl known ↦ rw known (same, inl is)
      | inr other ↦
          rw other (refl, inr (refl, inr (rw (apart "valid" suffix refl valid) refl, there)))
    ]

started-same :
    (suffix : String) (names : List String) (s : Start)
    → IsStarted suffix names s
    → read_hashes s.partition.pickled ≡ s.orig_hashes
unfolding IsStarted
started-same suffix names s h = h.0

listed-stale :
    (a : Attempt) (s : Start) (suffix : String) (names : List String)
    → valid_suffix suffix ≡ true
    → a.listing ≡ some names
    → IsStarted suffix names s
    → (r : Rehashed) × (listed a s ≡ ok r) × (lookup suffix r.hashes ≡ some stale)
unfolding IsStarted
listed-stale a s suffix names valid there (same, pending) = elim (Bool-cases s.do_listdir) [
  | inl all ↦
      let out : Pending suffix names s.hashes = elim pending [ inl is ↦ inl is | inr (_, q) ↦ q ] in
      (
        record { count = 0; hashes = add_listed names s.hashes; modified = true },
        rw (all, there) refl,
        lookup-add_listed suffix names s.hashes (three suffix valid) out,
      )
  | inr kept ↦ (
    record { count = 0; hashes = s.hashes; modified = false },
    rw kept refl,
    elim pending [ inl is ↦ is | inr (all, _) ↦ absurd (ground (arith, all, kept)) ],
  )
]

-- The attempt ends with an answer when the file is as it was read.
finish-entry :
    (a : Attempt) (s : Start) (r : Rehashed) (suffix : String)
    → valid_suffix suffix ≡ true
    → a.before_writing s.partition ≡ s.partition
    → read_hashes s.partition.pickled ≡ s.orig_hashes
    → (count : ℕ) × (hashes : Hashes) × (p : Partition) × (finish a s r ≡ (some (count, hashes), p))
      × (lookup suffix hashes ≡ lookup suffix r.hashes)
unfolding finish
finish-entry a s r suffix valid alone same = elim (Bool-cases r.modified) [
  | inl changed ↦ (
    r.count,
    write_hashes a.written_at r.hashes,
    record (a.before_writing s.partition) { pickled = holds (write_hashes a.written_at r.hashes) },
    rw (changed, alone, same, hashes_eq_refl s.orig_hashes) refl,
    lookup-write_hashes suffix a.written_at r.hashes valid,
  )
  | inr kept ↦ (r.count, r.hashes, s.partition, rw kept refl, refl)
]

lookup-pops :
    (suffix : String) (hashes : Hashes)
    → valid_suffix suffix ≡ true
    → lookup suffix (pop "valid" (pop "updated" hashes)) ≡ lookup suffix hashes
unfolding valid_suffix
lookup-pops suffix hashes valid = ground (
  arith,
  apart "valid" suffix refl valid,
  apart "updated" suffix refl valid,
  lookup-pop "valid" suffix (pop "updated" hashes),
  lookup-pop "updated" suffix hashes,
)

-- When a valid suffix has been invalidated, its directory is in the listing and nobody else changes
-- the partition during the first attempt, then, whatever the files held before and whatever else is
-- asked for, get_hashes answers, and what it has for the suffix is what hashing gives now: the new
-- digest, no entry when the directory is gone, or None when hashing fails.
pub get_hashes-invalidate_hash :
    (a : Attempt) (attempts : List Attempt) (recalculate : List String) (do_listdir : Bool)
    (suffix : String) (names : List String) (p q : Partition)
    → valid_suffix suffix ≡ true
    → IsAlone a
    → a.listing ≡ some names
    → any (str_eq suffix) names ≡ true
    → invalidate_hash suffix p ≡ ok q
    → (count : ℕ) × (hashes : Hashes) × (r : Partition) × (get_hashes
          (a ∷ attempts)
          recalculate
          do_listdir
          q
        ≡ some (ok (count, hashes, r)))
      × (lookup suffix hashes ≡ entry_of (a.hash_suffix suffix))
unfolding get_hashes get_hashes_and_times valid_suffix
get_hashes-invalidate_hash a attempts recalculate do_listdir suffix names p q valid alone listing
      there h =
    let (orig, r, read, (is, same)) =
      consolidate_hashes-invalidate_hash suffix a.consolidated_at p q valid h in
    let s = start a do_listdir (orig, r) in
    let begun : started a do_listdir q ≡ s = rw (alone.0 q, read) refl in
    let is_started = start-IsStarted a do_listdir suffix names orig r valid there same is in
    let (found, found_is, old) = listed-stale a s suffix names valid listing is_started in
    let marked = mark_stale recalculate found.hashes in
    let marked_stale = lookup-mark_stale suffix recalculate found.hashes old in
    let done = recalculated a recalculate found in
    let fresh : lookup suffix done.hashes ≡ entry_of (a.hash_suffix suffix) =
      rehash_all_stale a.hash_suffix suffix marked (record found { hashes = marked })
        (ground (arith, apart "valid" suffix refl valid, apart "updated" suffix refl valid))
        marked_stale marked_stale in
    let (count, hashes, last, ended, kept) =
      finish-entry a s done suffix valid (alone.2 s.partition)
        (started-same suffix names s is_started) in
    (
      count,
      pop "valid" (pop "updated" hashes),
      last,
      rw (begun, found_is, ended) refl,
      lookup-pops suffix hashes valid ∙ kept ∙ fresh,
    )
