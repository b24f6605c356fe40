-- ===== src/Ondisk/Accounts.antt =====
-- Where each file ends up: kept under its extension, or obsolete, and never both. Said by counting,
-- for every test on files, how many pass it.
use swiftacular.Base.{
  ℕ, ◌+◌, ◌≤◌, ◌≡◌, refl, ◌∙◌, ap, Bool, false, List, [], ◌∷◌, ◌++◌, String, str_eq, eq_iff, arith,
  Bool-cases, inl, inr, lookup, insert, count, count-append, leb, ltb, ◌==◌,
}
use swiftacular.Ondisk.Names.{FileInfo}
use swiftacular.Ondisk.{
  Exts, files_of, add_file, group_files, map_files, collect_files, sort_files, sort_desc,
  insert_desc, by_time, bury, split_list, split_gt_timestamp, split_gte_timestamp, split_for,
  newer_than, not_newer_than, keep_ctype, retain_meta, buried_meta, discard_meta, ctype_or_0,
}
use swiftacular.Ondisk.Selection.{files_of-map, split_nil, settled_exts}

module _ (p : FileInfo → Bool) where
  -- Over all extensions.
  pub total : Exts → ℕ
  total [] = 0
  total ((ext, infos) ∷ exts) = count p infos + total exts

  total-insert :
      (k : String) (infos : List FileInfo) (exts : Exts)
      → total (insert k infos exts) + count p (files_of k exts) ≡ total exts + count p infos
  unfolding total insert lookup
  total-insert k infos [] = omega arith
  total-insert k infos ((j, old) ∷ exts) = elim (Bool-cases (str_eq j k)) [
    | inl same ↦ rw same (omega arith)
    | inr other ↦ rw other (omega (arith, total-insert k infos exts))
  ]

  -- Extensions share no file.
  pub total-ge :
      (k j i : String) (exts : Exts)
      → str_eq k j ≡ false
      → str_eq k i ≡ false
      → str_eq j i ≡ false
      → count p (files_of k exts) + count p (files_of j exts) + count p (files_of i exts)
        ≤ total exts
  unfolding total lookup
  total-ge k j i [] h1 h2 h3 = omega arith
  total-ge k j i ((e, infos) ∷ exts) h1 h2 h3 = ground (
    arith,
    eq_iff k j,
    eq_iff k i,
    eq_iff j i,
    eq_iff e k,
    eq_iff e j,
    eq_iff e i,
    total-ge k j i exts h1 h2 h3,
  )

  total-add :
      (exts : Exts) (info : FileInfo)
      → total (add_file exts info) ≡ total exts + count p (info ∷ [])
  unfolding add_file
  total-add exts info = omega (
    arith,
    total-insert info.ext (files_of info.ext exts ++ info ∷ []) exts,
    count-append p (files_of info.ext exts) (info ∷ []),
  )

  total-group :
      (exts : Exts) (infos : List FileInfo)
      → total (group_files exts infos) ≡ total exts + count p infos
  unfolding group_files
  total-group exts [] = omega arith
  total-group exts (info ∷ infos) =
      omega (arith, total-group (add_file exts info) infos, total-add exts info)

  count-insert_desc :
      (key : FileInfo → ℕ) (x : FileInfo) (ys : List FileInfo)
      → count p (insert_desc key x ys) ≡ count p (x ∷ ys)
  unfolding insert_desc
  count-insert_desc key x [] = refl
  count-insert_desc key x (y ∷ ys) = elim (Bool-cases (leb (key y) (key x))) [
    | inl e ↦ rw e refl
    | inr e ↦ rw e (omega (arith, count-insert_desc key x ys))
  ]

  pub count-sort_desc :
      (key : FileInfo → ℕ) (xs : List FileInfo) → count p (sort_desc key xs) ≡ count p xs
  unfolding sort_desc
  count-sort_desc key [] = refl
  count-sort_desc key (x ∷ xs) =
      omega (arith, count-insert_desc key x (sort_desc key xs), count-sort_desc key xs)

  -- What a map keeps and what it leaves out.
  pub total-map :
      (f g : String → List FileInfo → List FileInfo)
      → ((ext : String) (infos : List FileInfo)
          → count p (f ext infos) + count p (g ext infos) ≡ count p infos)
      → (exts : Exts) → total (map_files f exts) + count p (collect_files g exts) ≡ total exts
  unfolding total map_files collect_files
  total-map f g h [] = omega arith
  total-map f g h ((ext, infos) ∷ exts) = omega (
    arith,
    h ext infos,
    total-map f g h exts,
    count-append p (g ext infos) (collect_files g exts),
  )

  count-split :
      (condition : FileInfo → Bool) (xs : List FileInfo)
      → count p (split_list condition xs).0 + count p (split_list condition xs).1 ≡ count p xs
  unfolding split_list
  count-split condition [] = omega arith
  count-split condition (x ∷ xs) = elim (Bool-cases (condition x)) [
    | inl e ↦ rw e (omega (arith, count-split condition xs))
    | inr e ↦ rw e (omega arith)
  ]

  count-newer :
      (t : ℕ) (ext : String) (infos : List FileInfo)
      → count p (newer_than t ext infos) + count p (not_newer_than t ext infos) ≡ count p infos
  unfolding split_gt_timestamp
  count-newer t ext infos = elim (Bool-cases (str_eq ext ".ts")) [
    | inl e ↦ rw e (omega arith)
    | inr e ↦ rw e (count-split (λ x. ltb t x.timestamp) infos)
  ]

  pub count-split_for :
      (t : ℕ) (ext : String) (infos : List FileInfo)
      → count p (split_for t ext infos).0 + count p (split_for t ext infos).1 ≡ count p infos
  unfolding split_gt_timestamp split_gte_timestamp
  count-split_for t ext infos = elim (Bool-cases (str_eq ext ".data")) [
    | inl e ↦ rw e (count-split (λ x. leb t x.timestamp) infos)
    | inr e ↦ rw e (count-split (λ x. ltb t x.timestamp) infos)
  ]

  total-sort : (exts : Exts) → total (sort_files exts) ≡ total exts
  unfolding total sort_files map_files
  total-sort [] = refl
  total-sort ((ext, infos) ∷ exts) = omega (arith, count-sort_desc by_time infos, total-sort exts)

  -- A tombstone takes its place from the tombstones that are there.
  total-replace :
      (t : FileInfo) (older obsolete dropped : List FileInfo) (kept : Exts)
      → files_of ".ts" kept ≡ t ∷ older
      → total (insert ".ts" (t ∷ []) kept) + count p (obsolete ++ dropped ++ older)
        ≡ total kept + count p dropped + count p obsolete
  total-replace t older obsolete dropped kept h = omega (
    arith,
    total-insert ".ts" (t ∷ []) kept,
    ap (count p) h,
    count-append p (obsolete ++ dropped) older,
    count-append p obsolete dropped,
  )

  total-bury :
      (exts : Exts) (obsolete ts : List FileInfo)
      → files_of ".ts" exts ≡ ts
      → total (bury exts obsolete ts).0 + count p (bury exts obsolete ts).1
        ≡ total exts + count p obsolete
  unfolding bury
  total-bury exts obsolete [] h = refl
  total-bury exts obsolete (t ∷ older) h =
      let keep = newer_than t.timestamp in
      let drop_them = not_newer_than t.timestamp in
      total-replace t older obsolete (collect_files drop_them exts) (map_files keep exts)
        (files_of-map keep ".ts" exts (split_nil t.timestamp) ∙ h)
      ∙ ap (λ n. n + count p obsolete) (total-map keep drop_them (count-newer t.timestamp) exts)

  count-keep_ctype :
      (m : FileInfo) (rest : List FileInfo)
      → count p (keep_ctype m rest).0 + count p (keep_ctype m rest).1 ≡ count p (m ∷ rest)
  unfolding keep_ctype
  count-keep_ctype m [] = omega arith
  count-keep_ctype m (c ∷ rest) = elim (Bool-cases (ltb (ctype_or_0 m) (ctype_or_0 c))) [
    | inl later ↦ elim (Bool-cases (c.timestamp == m.timestamp)) [
      | inl same ↦ rw (later, same) (omega arith)
      | inr other ↦ rw (later, other) (omega arith)
    ]
    | inr not_later ↦ rw not_later (omega arith)
  ]

  count-retain_meta :
      (infos : List FileInfo)
      → count p (retain_meta infos).0 + count p (retain_meta infos).1 ≡ count p infos
  unfolding retain_meta
  count-retain_meta [] = refl
  count-retain_meta (m ∷ rest) =
      omega (arith, count-keep_ctype m (sort_desc ctype_or_0 rest), count-sort_desc ctype_or_0 rest)

  total-discard :
      (exts : Exts) (obsolete meta : List FileInfo)
      → files_of ".meta" exts ≡ meta
      → total (discard_meta (exts, obsolete) meta).0
          + count p (discard_meta (exts, obsolete) meta).1
        ≡ total exts + count p obsolete
  unfolding discard_meta
  total-discard exts obsolete [] h = refl
  total-discard exts obsolete (m ∷ rest) h =
      let kept = (retain_meta (m ∷ rest)).0 in
      let dropped = (retain_meta (m ∷ rest)).1 in
      omega (
        arith,
        total-insert ".meta" kept exts,
        ap (count p) h,
        count-retain_meta (m ∷ rest),
        count-append p obsolete dropped,
      )

  -- What is there before the choice: each file, once.
  pub total-settled :
      (infos : List FileInfo)
      → total (settled_exts infos).0 + count p (settled_exts infos).1 ≡ count p infos
  unfolding buried_meta total
  total-settled infos =
      let exts = sort_files (group_files [] infos) in
      let (exts', obsolete) = bury exts [] (files_of ".ts" exts) in
      omega (
        arith,
        total-discard exts' obsolete (files_of ".meta" exts') refl,
        total-bury exts [] (files_of ".ts" exts) refl,
        total-sort (group_files [] infos),
        total-group [] infos,
      )
