-- ===== src/Ondisk/Suffixes/Invalid.antt =====
-- An invalidation is not lost: the consolidated hashes have the suffix as out of date, in the file too.
use Prim.Native.Char.{Char, code}
use Prim.Native.String.{◌++◌ as cat}
use Prim.Native.String.append
use swiftacular.Base.{
  ℕ, ◌≡◌, refl, sym, ap, ◌∙◌, Bool, true, false, ◌||◌, ◌&&◌, some, List, [], ◌∷◌, ◌++◌, String,
  str_eq, eq_iff, eq_refl, arith, ok, lookup, insert, lookup-insert, strip, lstrip, rstrip,
  Bool-cases, Result, raise, >>=-eq-ok, is_some, inl, inr, leb, ◌==◌,
}
use swiftacular.Ondisk.Suffixes.{
  Entry, written, consolidated, Invalidations, append_line, flag, time, forever_old, stale, Hashes,
  Pickled, holds, Partition, unpickled, absent, refused, lines, is_hex, valid_suffix, are_known,
  setdefault, read_hashes, write_hashes, invalidated, consolidate_hashes, invalidate_hash,
}

hex_space :
    (c : Char)
    → is_hex c ≡ true
    → (code c == 32 || (leb 9 (code c) && leb (code c) 13) || (leb 28 (code c) && leb (code c) 31))
      ≡ false
hex_space c h = ground arith

with_end :
    (a b c : Char)
    → cat (String.◌∷◌ a (String.◌∷◌ b (String.◌∷◌ c String.[]))) "\n"
      ≡ String.◌∷◌ a (String.◌∷◌ b (String.◌∷◌ c "\n"))
with_end a b c =
    append.cons a (String.◌∷◌ b (String.◌∷◌ c String.[])) "\n"
    ∙ ap (String.◌∷◌ a) (
        append.cons b (String.◌∷◌ c String.[]) "\n"
        ∙ ap (String.◌∷◌ b) (append.cons c String.[] "\n" ∙ ap (String.◌∷◌ c) (append.nil "\n")))

strip_line : (suffix : String) → valid_suffix suffix ≡ true → strip (cat suffix "\n") ≡ suffix
unfolding strip lstrip rstrip valid_suffix
strip_line String.[] h = absurd (ground arith)
strip_line (String.◌∷◌ a String.[]) h = absurd (ground arith)
strip_line (String.◌∷◌ a (String.◌∷◌ b String.[])) h = absurd (ground arith)
strip_line (String.◌∷◌ a (String.◌∷◌ b (String.◌∷◌ c String.[]))) h =
    ap strip (with_end a b c) ∙ rw (hex_space a (ground arith), hex_space c (ground arith)) refl
strip_line (String.◌∷◌ a (String.◌∷◌ b (String.◌∷◌ c (String.◌∷◌ d s)))) h = absurd (ground arith)

-- The lines so far do not matter to a suffix that comes last.
invalidated_last :
    (suffix : String) (ls : List String) (found : Hashes × Bool)
    → valid_suffix suffix ≡ true
    → (lookup suffix (invalidated (ls ++ (cat suffix "\n" ∷ [])) found).0 ≡ some stale)
      × ((invalidated (ls ++ (cat suffix "\n" ∷ [])) found).1 ≡ true)
unfolding invalidated
invalidated_last suffix [] found h =
    rw (strip_line suffix h, h)
      (lookup-insert suffix suffix stale found.0 ∙ rw (eq_refl suffix) refl, refl)
invalidated_last suffix (line ∷ ls) found h = invalidated_last suffix ls _ h

are_known-insert :
    (key : String) (entry : Entry) (hashes : Hashes)
    → (valid_suffix key || str_eq "valid" key || str_eq "updated" key) ≡ true
    → are_known hashes ≡ true
    → are_known (insert key entry hashes) ≡ true
unfolding are_known insert
are_known-insert key entry [] h known = rw h refl
are_known-insert key entry ((k, old) ∷ hashes) h known = elim (Bool-cases (str_eq k key)) [
  | inl same ↦ rw same (ground (arith, known))
  | inr other ↦ rw other (ground (arith, are_known-insert key entry hashes h, known))
]

are_known-setdefault :
    (key : String) (entry : Entry) (hashes : Hashes)
    → (valid_suffix key || str_eq "valid" key || str_eq "updated" key) ≡ true
    → are_known hashes ≡ true
    → are_known (setdefault key entry hashes) ≡ true
unfolding setdefault
are_known-setdefault key entry hashes h known =
    ground (arith, are_known-insert key entry hashes h known, known)

are_known-read_hashes : (pickled : Pickled) → are_known (read_hashes pickled) ≡ true
unfolding read_hashes
are_known-read_hashes pickled = elim (Bool-cases (are_known (unpickled pickled))) [
  | inl known ↦ rw known (
      are_known-setdefault "updated" forever_old
        (setdefault "valid" (flag true) (unpickled pickled)) refl
        (are_known-setdefault "valid" (flag true) (unpickled pickled) refl known))
  | inr other ↦ rw other refl
]

are_known-invalidated :
    (ls : List String) (found : Hashes × Bool)
    → are_known found.0 ≡ true
    → are_known (invalidated ls found).0 ≡ true
unfolding invalidated
are_known-invalidated [] found known = known
are_known-invalidated (line ∷ ls) found known =
    are_known-invalidated ls _ (elim (Bool-cases (valid_suffix (strip line))) [
      | inl valid ↦
          rw valid (are_known-insert (strip line) stale found.0 (ground (arith, valid)) known)
      | inr other ↦ rw other known
    ])

setdefault_there :
    (key : String) (entry : Entry) (hashes : Hashes)
    → is_some (lookup key hashes) ≡ true
    → setdefault key entry hashes ≡ hashes
unfolding setdefault
setdefault_there key entry hashes h = rw h refl

lookup-setdefault :
    (key : String) (entry : Entry) (hashes : Hashes)
    → is_some (lookup key (setdefault key entry hashes)) ≡ true
unfolding setdefault
lookup-setdefault key entry hashes = ground (arith, lookup-insert key key entry hashes, eq_refl key)

-- What is written is read back.
pub read_hashes-write_hashes :
    (now : ℕ) (hashes : Hashes)
    → are_known hashes ≡ true
    → read_hashes (holds (write_hashes now hashes)) ≡ write_hashes now hashes
unfolding read_hashes write_hashes
read_hashes-write_hashes now hashes known =
    let before = setdefault "valid" (flag false) hashes in
    let after = insert "updated" (time now) before in
    let valid : is_some (lookup "valid" after) ≡ true =
      ap is_some (lookup-insert "updated" "valid" (time now) before)
      ∙ lookup-setdefault "valid" (flag false) hashes in
    let updated : is_some (lookup "updated" after) ≡ true =
      ap is_some (lookup-insert "updated" "updated" (time now) before) in
    let all_known : are_known after ≡ true =
      are_known-insert "updated" (time now) before refl
        (are_known-setdefault "valid" (flag false) hashes refl known) in
    rw all_known (
      ap (setdefault "updated" forever_old) (setdefault_there "valid" (flag true) after valid)
      ∙ setdefault_there "updated" forever_old after updated)

append_line-lines :
    (suffix : String) (before after : Invalidations)
    → append_line suffix before ≡ ok after
    → (ls : List String) × (after ≡ lines (ls ++ (cat suffix "\n" ∷ [])))
append_line-lines suffix absent after h = ([], ground (arith, h))
append_line-lines suffix refused after h = absurd (ground (arith, h))
append_line-lines suffix (lines ls) after h = (ls, ground (arith, h))

abbrev lines_after : Invalidations → Result Partition → Invalidations
lines_after before (ok p) = p.invalidations
lines_after before (raise e) = before

pub apart :
    (key suffix : String)
    → valid_suffix key ≡ false
    → valid_suffix suffix ≡ true
    → str_eq key suffix ≡ false
apart key suffix other valid = ground (arith, eq_iff key suffix, other, valid)

pub lookup-write_hashes :
    (suffix : String) (now : ℕ) (hashes : Hashes)
    → valid_suffix suffix ≡ true
    → lookup suffix (write_hashes now hashes) ≡ lookup suffix hashes
unfolding write_hashes valid_suffix
lookup-write_hashes suffix now hashes valid = ground (
  arith,
  apart "updated" suffix refl valid,
  apart "valid" suffix refl valid,
  lookup-insert "updated" suffix (time now) (setdefault "valid" (flag false) hashes),
  lookup-insert "valid" suffix (flag false) hashes,
)

-- The hashes of a partition that `p` becomes, with a suffix out of date.
abbrev pub IsStale : String → Hashes → Partition → Type 0
IsStale suffix hashes p = (lookup suffix hashes ≡ some stale) × (read_hashes p.pickled ≡ hashes)

written-IsStale :
    (suffix : String) (now : ℕ) (p : Partition) (found : Hashes × Bool)
    → valid_suffix suffix ≡ true
    → are_known found.0 ≡ true
    → lookup suffix found.0 ≡ some stale
    → found.1 ≡ true
    → IsStale suffix (written now p found).0 (written now p found).1
written-IsStale suffix now p (hashes, false) valid known h updated =
    absurd (ground (arith, updated))
written-IsStale suffix now p (hashes, true) valid known h updated =
    (lookup-write_hashes suffix now hashes valid ∙ h, read_hashes-write_hashes now hashes known)

pub consolidate_hashes-invalidate_hash :
    (suffix : String) (now : ℕ) (p q : Partition)
    → valid_suffix suffix ≡ true
    → invalidate_hash suffix p ≡ ok q
    → (hashes : Hashes) × (r : Partition) × (consolidate_hashes now q ≡ ok (hashes, r))
      × IsStale suffix hashes r
unfolding invalidate_hash consolidate_hashes
consolidate_hashes-invalidate_hash suffix now p q valid h =
    let (opened, e, f) =
      >>=-eq-ok (append_line suffix p.invalidations) (λ i. ok (record p { invalidations = i })) h in
    let (ls, g) = append_line-lines suffix p.invalidations opened e in
    let is : q.invalidations ≡ lines (ls ++ (cat suffix "\n" ∷ [])) =
      sym (ap (lines_after opened) f) ∙ g in
    let found = invalidated (ls ++ (cat suffix "\n" ∷ [])) (read_hashes q.pickled, false) in
    let last = invalidated_last suffix ls (read_hashes q.pickled, false) valid in
    (
      (written now q found).0,
      (written now q found).1,
      ap (consolidated now q) is,
      written-IsStale suffix now q found valid
          (are_known-invalidated (ls ++ (cat suffix "\n" ∷ [])) (read_hashes q.pickled, false)
            (are_known-read_hashes q.pickled))
          last.0 last.1,
    )
