-- ===== src/Ondisk/Reported.antt =====
-- What the search reports and what it lists as obsolete are different files of the directory.
use swiftacular.Base.{
  ℕ, ◌+◌, ◌≤◌, ◌≡◌, refl, sym, subst, ◌∙◌, ap, Bool, true, Option, none, some, List, [], ◌∷◌, ◌++◌,
  String, arith, if◌then◌else◌, count, count-append, leb,
}
use swiftacular.Ondisk.Names.{FileInfo}
use swiftacular.Ondisk.{
  Exts, Results, files_of, map_files, collect_files, split_for, split_list, split_gte_timestamp,
  split_gt_timestamp, process_data, process_ondisk_files, choose, choose_for, choose_meta, resolve,
  no_results, select, first_file,
}
use swiftacular.Ondisk.Selection.{files_of-map, settled_exts}
use swiftacular.Ondisk.Accounts.{total, total-ge, total-map, total-settled, count-split_for}

module _ (p : FileInfo → Bool) where
  abbrev pub one : Option FileInfo → ℕ
  one none = 0
  one (some info) = if p info then 1 else 0

  -- How many of what is reported, of what time may reclaim and of what is obsolete pass.
  abbrev pub reported : Results → ℕ
  reported r =
      one r.data_info
      + one r.meta_info
      + one r.ts_info
      + count p r.possible_reclaim
      + count p r.obsolete

  one_first : (infos : List FileInfo) → one (first_file infos) ≤ count p infos
  one_first [] = omega arith
  one_first (x ∷ xs) = omega arith

  choose_meta-reported :
      (r : Results) (d : FileInfo) (metas : List FileInfo)
      → r.data_info ≡ some d
      → r.meta_info ≡ none
      → r.ts_info ≡ none
      → reported (choose_meta r d metas)
        ≤ one (some d) + count p metas + count p r.possible_reclaim + count p r.obsolete
  unfolding choose_meta
  choose_meta-reported r d [] hd hm ht = ground (arith, hd, hm, ht)
  choose_meta-reported r d (m ∷ rest) hd hm ht = ground (arith, hd, ht)

  abbrev keep_for : ℕ → String → List FileInfo → List FileInfo
  keep_for t ext infos = (split_for t ext infos).0

  abbrev drop_for : ℕ → String → List FileInfo → List FileInfo
  drop_for t ext infos = (split_for t ext infos).1

  keep_for-nil : (t : ℕ) (ext : String) → keep_for t ext [] ≡ []
  unfolding split_gte_timestamp split_gt_timestamp
  keep_for-nil t ext = ground arith

  first_kept :
      (d : FileInfo) (older : List FileInfo)
      → one (some d) ≤ count p (keep_for d.timestamp ".data" (d ∷ older))
  unfolding split_gte_timestamp split_list
  first_kept d older =
      let refl_le : leb d.timestamp d.timestamp ≡ true = ground arith in
      rw (refl_le, count) (omega arith)

  -- The newest data file is kept with those of its time.
  newest_kept :
      (d : FileInfo) (older : List FileInfo) (exts : Exts)
      → files_of ".data" exts ≡ d ∷ older
      → one (some d) ≤ count p (files_of ".data" (map_files (keep_for d.timestamp) exts))
  newest_kept d older exts h =
      let e =
        files_of-map (keep_for d.timestamp) ".data" exts (keep_for-nil d.timestamp)
        ∙ ap (keep_for d.timestamp ".data") h in
      subst (λ l. one (some d) ≤ count p l) (sym e) (first_kept d older)

  data-reported :
      (u : List String) (exts : Exts) (obsolete : List FileInfo) (d : FileInfo)
      (older : List FileInfo)
      → files_of ".data" exts ≡ d ∷ older
      → reported (choose (process_data exts (no_results u obsolete) (d ∷ older)))
        ≤ total p exts + count p obsolete
  unfolding process_data choose choose_for
  data-reported u exts obsolete d older h =
      let kept = map_files (keep_for d.timestamp) exts in
      let dropped = collect_files (drop_for d.timestamp) exts in
      let r = record (no_results u obsolete) {
        obsolete = obsolete ++ dropped;
        data_info = some d;
      } in
      omega (
        arith,
        choose_meta-reported r d (files_of ".meta" kept) refl refl refl,
        newest_kept d older exts h,
        total-ge p ".data" ".meta" ".ts" kept refl refl refl,
        total-map p (keep_for d.timestamp) (drop_for d.timestamp) (count-split_for p d.timestamp)
            exts,
        count-append p obsolete dropped,
      )

  none-reported :
      (u : List String) (exts : Exts) (obsolete : List FileInfo)
      → reported (choose (process_data exts (no_results u obsolete) []))
        ≤ total p exts + count p obsolete
  unfolding process_data choose choose_for
  none-reported u exts obsolete =
      omega (
        arith,
        one_first (files_of ".ts" exts),
        total-ge p ".data" ".meta" ".ts" exts refl refl refl,
      )

  resolve-reported :
      (u : List String) (exts : Exts) (obsolete data_files : List FileInfo)
      → files_of ".data" exts ≡ data_files
      → reported (choose (process_data exts (no_results u obsolete) data_files))
        ≤ total p exts + count p obsolete
  resolve-reported u exts obsolete [] h = none-reported u exts obsolete
  resolve-reported u exts obsolete (d ∷ older) h = data-reported u exts obsolete d older h

  pub select-reported :
      (infos : List FileInfo) (u : List String) → reported (select infos u) ≤ count p infos
  unfolding select resolve process_ondisk_files
  select-reported infos u =
      let (exts, obsolete) = settled_exts infos in
      omega (
        arith,
        resolve-reported u exts obsolete (files_of ".data" exts) refl,
        total-settled p infos,
      )
