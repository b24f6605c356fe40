-- ===== src/Ondisk/Suffixes/Directory/Total.antt =====
-- What the hashing of a suffix directory ends with.
use swiftacular.Base.{
  ℕ, ◌≡◌, refl, ap, ◌∙◌, Bool, true, ◌⊎◌, Option, none, some, List, [], ◌∷◌, String, Error,
  os_error, path_not_dir_error, Result, ok, raise, is_nil, is_some, Bool-cases, inl, inr, arith,
}
use swiftacular.Ondisk.{Results}
use swiftacular.Ondisk.Names.{FileInfo, NameFormat}
use swiftacular.Ondisk.Cleanup.{Cleaned}
use swiftacular.Ondisk.Cleanup.Ctypes.{has_time, Cleans, cleanup-Cleans}
use swiftacular.Ondisk.Opens.{
  Errno, not_directory, no_data, no_entry, other_errno, Listed, listed, unlisted,
}
use swiftacular.Ondisk.Suffixes.Rehash.{Hashed, hashed, path_not_dir, failed}
use swiftacular.Ondisk.Suffixes.Directory.{
  hash_dir, suffix_dir, Directory, Hashing, sorted, time_text, ctype_text, update_hashes,
  after_refusal, after_cleanup, unless_raised, after_rmdir, hash_each, with_contents,
  hash_suffix_dir, hexdigest, hash_suffix,
}

-- What `__get_hashes` knows how to handle.
abbrev pub result_of : Hashed → Result String
result_of (hashed d) = ok d
result_of path_not_dir = raise path_not_dir_error
result_of failed = raise os_error

-- Without an exception, or with an OSError.
abbrev IsHandled : Hashing × Option Error → Type 0
IsHandled m = (m.1 ≡ none) ⊎ (m.1 ≡ some os_error)

time_text-ok :
    (f : NameFormat) (o : Option ℕ)
    → is_some o ≡ true
    → (texts : List String) × (time_text f o ≡ ok texts)
time_text-ok f none h = absurd (ground (arith, h))
time_text-ok f (some t) h = (_, refl)

ctype_text-ok :
    (f : NameFormat) (o : Option FileInfo)
    → has_time o ≡ true
    → (texts : List String) × (ctype_text f o ≡ ok texts)
ctype_text-ok f none h = ([], refl)
ctype_text-ok f (some info) h = time_text-ok f info.ctype_timestamp h

update_hashes-none :
    (f : NameFormat) (r : Results) (h : Hashing)
    → has_time r.ctype_info ≡ true
    → (update_hashes f r h).1 ≡ none
unfolding update_hashes
update_hashes-none f r h timed = let (texts, e) = ctype_text-ok f r.ctype_info timed in rw e refl

after_refusal-IsHandled :
    (d : Directory) (e : Errno) (hsh : String) (h : Hashing) → IsHandled (after_refusal d e hsh h)
after_refusal-IsHandled d not_directory hsh h = elim (Bool-cases (d.quarantines (hash_dir hsh))) [
  | inl works ↦ inl (rw works refl)
  | inr fails ↦ inr (rw fails refl)
]
after_refusal-IsHandled d no_data hsh h = elim (Bool-cases (d.quarantines (hash_dir hsh))) [
  | inl works ↦ inl (rw works refl)
  | inr fails ↦ elim (Bool-cases (d.quarantines suffix_dir)) [
    | inl works ↦ inl (rw (fails, works) refl)
    | inr fails' ↦ inr (rw (fails, fails') refl)
  ]
]
after_refusal-IsHandled d no_entry hsh h = inr refl
after_refusal-IsHandled d other_errno hsh h = inr refl

after_cleanup-IsHandled :
    (f : NameFormat) (d : Directory) (hsh : String) (m : Result Cleaned) (h : Hashing)
    → Cleans m
    → IsHandled (after_cleanup f d hsh m h)
unfolding Cleans
after_cleanup-IsHandled f d hsh m h (inl refused) =
    rw refused (after_refusal-IsHandled d (d.errno hsh) hsh h)
after_cleanup-IsHandled f d hsh m h (inr (c, done, timed)) = inl (
    rw done (elim (Bool-cases (is_nil c.files)) [
      | inl empty ↦ rw empty refl
      | inr full ↦ rw full (update_hashes-none f c.results _ timed)
    ]))

module _ (is_reclaimable : ℕ → Bool) (f : NameFormat) (d : Directory) where
  unless_raised-IsHandled :
      (m : Hashing × Option Error) (next : Hashing → Hashing × Option Error)
      → IsHandled m
      → ((h : Hashing) → IsHandled (next h))
      → IsHandled (unless_raised next m)
  unless_raised-IsHandled (h, none) next is go = go h
  unless_raised-IsHandled (h, some e) next is go = is

  hash_each-IsHandled :
      (names : List String) (h : Hashing) → IsHandled (hash_each is_reclaimable f d names h)
  unfolding hash_each
  hash_each-IsHandled [] h = inl refl
  hash_each-IsHandled (hsh ∷ rest) h =
      unless_raised-IsHandled _ (hash_each is_reclaimable f d rest)
        (after_cleanup-IsHandled f d hsh _ h (cleanup-Cleans is_reclaimable f (d.listing hsh)))
        (hash_each-IsHandled rest)

  Ends : Result String → Type 0
  Ends m = (h : Hashed) × (m ≡ result_of h)

  after_rmdir-raised :
      (rmdir : Option Errno) (h : Hashing) (e : Error) → after_rmdir rmdir (h, some e) ≡ (h, some e)
  after_rmdir-raised none h e = refl
  after_rmdir-raised (some not_directory) h e = refl
  after_rmdir-raised (some no_data) h e = refl
  after_rmdir-raised (some no_entry) h e = refl
  after_rmdir-raised (some other_errno) h e = refl

  after_rmdir-Ends :
      (md5 : String → String) (rmdir : Option Errno) (m : Hashing × Option Error)
      → IsHandled m
      → Ends (hexdigest is_reclaimable f d md5 (after_rmdir rmdir m))
  unfolding Ends
  after_rmdir-Ends md5 none (h, none) is = (path_not_dir, refl)
  after_rmdir-Ends md5 (some not_directory) (h, none) is = (hashed _, refl)
  after_rmdir-Ends md5 (some no_data) (h, none) is = (hashed _, refl)
  after_rmdir-Ends md5 (some no_entry) (h, none) is = (path_not_dir, refl)
  after_rmdir-Ends md5 (some other_errno) (h, none) is = (hashed _, refl)
  after_rmdir-Ends md5 rmdir (h, some e) (inl never) = absurd (ground (arith, never))
  after_rmdir-Ends md5 rmdir (h, some e) (inr is) = (
    failed,
    ap (hexdigest is_reclaimable f d md5) (after_rmdir-raised rmdir h e)
        ∙ ap (λ o. hexdigest is_reclaimable f d md5 (h, o)) is,
  )

  with_contents-Ends :
      (md5 : String → String) (contents : Listed)
      → Ends (hexdigest is_reclaimable f d md5 (with_contents is_reclaimable f d contents))
  unfolding with_contents Ends
  with_contents-Ends md5 (listed path_contents) =
      after_rmdir-Ends md5 d.rmdir _ (hash_each-IsHandled (sorted path_contents) _)
  with_contents-Ends md5 (unlisted not_directory) = (path_not_dir, refl)
  with_contents-Ends md5 (unlisted no_entry) = (path_not_dir, refl)
  with_contents-Ends md5 (unlisted no_data) = (failed, refl)
  with_contents-Ends md5 (unlisted other_errno) = (failed, refl)

-- Whatever the listings of a suffix and of its hash directories give, whatever may be reclaimed, and
-- whichever quarantine or removal fails, the hashing of the suffix ends with a digest, with PathNotDir
-- or with an OSError, which are what `__get_hashes` handles: the cleanup of a directory raises nothing
-- else, and a file that is reported for its content type has a time of it.
pub hash_suffix-result_of :
    (is_reclaimable : ℕ → Bool) (f : NameFormat) (d : Directory) (md5 : String → String)
    → (h : Hashed) × (hash_suffix is_reclaimable f d md5 ≡ result_of h)
unfolding hash_suffix hash_suffix_dir Ends
hash_suffix-result_of is_reclaimable f d md5 = with_contents-Ends is_reclaimable f d md5 d.contents
