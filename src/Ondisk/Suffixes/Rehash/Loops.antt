-- ===== src/Ondisk/Suffixes/Rehash/Loops.antt =====
-- What the loops over listed and outdated suffixes leave under one suffix.
use swiftacular.Base.{
  ◌≡◌, refl, ap, ◌∙◌, true, false, not, ◌&&◌, ◌⊎◌, Option, none, some, List, [], ◌∷◌, String,
  str_eq, eq_iff, arith, any, lookup, insert, lookup-insert, lookup-pop, Bool-cases, inl, inr,
  if◌then◌else◌,
}
use swiftacular.Ondisk.Suffixes.{Entry, stale, digest, Hashes, valid_suffix, setdefault}
use swiftacular.Ondisk.Suffixes.Rehash.{
  Hashed, hashed, path_not_dir, failed, is_false, has_three, add_listed, mark_stale, Rehashed,
  rehash, is_reserved, is_valid, rehash_all,
}

-- What the dictionary is to have under a suffix.
abbrev pub entry_of : Hashed → Option Entry
entry_of (hashed d) = some (digest d)
entry_of path_not_dir = none
entry_of failed = some stale

-- A suffix that is out of date, or is not there but is listed.
abbrev pub Pending : String → List String → Hashes → Type 0
Pending suffix names hashes =
    (lookup suffix hashes ≡ some stale)
    ⊎ ((lookup suffix hashes ≡ none) × (any (str_eq suffix) names ≡ true))

pub three : (suffix : String) → valid_suffix suffix ≡ true → has_three suffix ≡ true
unfolding valid_suffix
three String.[] h = absurd (ground (arith, h))
three (String.◌∷◌ a String.[]) h = absurd (ground (arith, h))
three (String.◌∷◌ a (String.◌∷◌ b String.[])) h = absurd (ground (arith, h))
three (String.◌∷◌ a (String.◌∷◌ b (String.◌∷◌ c String.[]))) h = refl
three (String.◌∷◌ a (String.◌∷◌ b (String.◌∷◌ c (String.◌∷◌ d s)))) h = absurd (ground (arith, h))

add_one :
    (suffix name : String) (names : List String) (hashes : Hashes)
    → has_three suffix ≡ true
    → Pending suffix (name ∷ names) hashes
    → Pending suffix names (if has_three name then setdefault name stale hashes else hashes)
unfolding setdefault
add_one suffix name names hashes h (inl is) =
    inl (
      ground
        (arith, eq_iff suffix name, eq_iff name suffix, lookup-insert name suffix stale hashes))
add_one suffix name names hashes h (inr (missing, there)) = elim (Bool-cases (str_eq suffix name)) [
  | inl same ↦
      let e = (eq_iff suffix name).0 same in
      inl (
        ground (
          arith,
          missing,
          ap (λ t. has_three t) e,
          ap (λ t. lookup t hashes) e,
          h,
          same,
          eq_iff name suffix,
          lookup-insert name suffix stale hashes,
        ))
  | inr other ↦ inr (
    ground (arith, missing, other, eq_iff name suffix, lookup-insert name suffix stale hashes),
    ground (arith, there, other),
  )
]

pub lookup-add_listed :
    (suffix : String) (names : List String) (hashes : Hashes)
    → has_three suffix ≡ true
    → Pending suffix names hashes
    → lookup suffix (add_listed names hashes) ≡ some stale
unfolding add_listed
lookup-add_listed suffix [] hashes h (inl is) = is
lookup-add_listed suffix [] hashes h (inr (missing, there)) = absurd (ground (arith, there))
lookup-add_listed suffix (name ∷ names) hashes h pending =
    lookup-add_listed suffix names _ h (add_one suffix name names hashes h pending)

pub lookup-mark_stale :
    (suffix : String) (recalculate : List String) (hashes : Hashes)
    → lookup suffix hashes ≡ some stale
    → lookup suffix (mark_stale recalculate hashes) ≡ some stale
unfolding mark_stale
lookup-mark_stale suffix [] hashes is = is
lookup-mark_stale suffix (other ∷ rest) hashes is =
    lookup-mark_stale suffix rest (insert other stale hashes)
      (ground (arith, lookup-insert other suffix stale hashes, is))

abbrev entry_after : Hashed → Option Entry → Option Entry
entry_after (hashed d) before = some (digest d)
entry_after path_not_dir before = none
entry_after failed before = before

lookup-rehash :
    (suffix key : String) (h : Hashed) (r : Rehashed)
    → lookup suffix (rehash key h r).hashes ≡ (
        if str_eq key suffix
        then entry_after h (lookup suffix r.hashes)
        else lookup suffix r.hashes)
unfolding rehash
lookup-rehash suffix key (hashed d) r = lookup-insert key suffix (digest d) r.hashes
lookup-rehash suffix key path_not_dir r = lookup-pop key suffix r.hashes
lookup-rehash suffix key failed r = ground arith

entry_after-entry_of : (h : Hashed) → entry_after h (entry_of h) ≡ entry_of h
entry_after-entry_of (hashed d) = refl
entry_after-entry_of path_not_dir = refl
entry_after-entry_of failed = refl

entry_after-stale : (h : Hashed) → entry_after h (some stale) ≡ entry_of h
entry_after-stale (hashed d) = refl
entry_after-stale path_not_dir = refl
entry_after-stale failed = refl

module _ (hash_suffix : String → Hashed) (suffix : String) where
  -- A suffix that has been hashed keeps its hash.
  rehash_all_kept :
      (items : Hashes) (r : Rehashed)
      → lookup suffix r.hashes ≡ entry_of (hash_suffix suffix)
      → lookup suffix (rehash_all hash_suffix items r).hashes ≡ entry_of (hash_suffix suffix)
  unfolding rehash_all
  rehash_all_kept [] r is = is
  rehash_all_kept ((key, hash_) ∷ items) r is = rehash_all_kept items _ (
      ground (
        arith,
        is,
        lookup-rehash suffix key (hash_suffix key) r,
        eq_iff key suffix,
        entry_after-entry_of (hash_suffix suffix),
      ))

  pub rehash_all_stale :
      (items : Hashes) (r : Rehashed)
      → is_reserved suffix ≡ false
      → lookup suffix items ≡ some stale
      → lookup suffix r.hashes ≡ some stale
      → lookup suffix (rehash_all hash_suffix items r).hashes ≡ entry_of (hash_suffix suffix)
  unfolding rehash_all lookup
  rehash_all_stale [] r plain there is = absurd (ground (arith, there))
  rehash_all_stale ((key, hash_) ∷ items) r plain there is = elim (Bool-cases (str_eq key suffix)) [
    | inl same ↦
        let e = (eq_iff key suffix).0 same in
        let outdated : not (is_false hash_) ≡ false = ap is_valid (rw same at there) in
        let test : (not (is_reserved key) && is_false hash_) ≡ true =
          ground (arith, ap is_reserved e, plain, outdated) in
        rehash_all_kept items _ (
          rw test (
            lookup-rehash suffix key (hash_suffix key) r
            ∙ rw same (
                ap (entry_after (hash_suffix key)) is
                ∙ entry_after-stale (hash_suffix key)
                ∙ ap (λ t. entry_of (hash_suffix t)) e)))
    | inr other ↦
        rehash_all_stale items _ plain (rw other at there)
          (ground (arith, is, lookup-rehash suffix key (hash_suffix key) r, other))
  ]
