-- ===== src/Ondisk/Cleanup/Keeps.antt =====
-- The cleanup of a hash directory runs to its end, and leaves the files that it reports as the
-- object's.
use swiftacular.Base.{
  ℕ, ◌+◌, ◌≤◌, ◌≡◌, refl, ◌∙◌, ap, Bool, false, Option, none, some, List, [], ◌∷◌, String, arith,
  Result, ok, raise, ◌>>=◌, Bool-cases, inl, inr, count, count-append,
}
use swiftacular.Ondisk.Names.{FileInfo, NameFormat, parse_on_disk_filename, parse_parts, splitext}
use swiftacular.Ondisk.{Results, parse_files, select, checked, get_ondisk_files}
use swiftacular.Ondisk.Reported.{one, reported, select-reported}
use swiftacular.Ondisk.Cleanup.{
  Cleaned, listed, sort_names, remove_files, reclaim_ts, reclaimed, with_reclaimed, clean,
  cleanup_ondisk_files,
}
use swiftacular.Ondisk.Cleanup.Removal.{
  times, named, times-sort_names, has_name, Removes-one, removes,
}

count-reclaimed :
    (is_reclaimable : ℕ → Bool) (p : FileInfo → Bool) (infos : List FileInfo)
    → count p (reclaimed is_reclaimable infos) ≤ count p infos
unfolding reclaimed
count-reclaimed is_reclaimable p [] = omega arith
count-reclaimed is_reclaimable p (x ∷ xs) = ground (arith, count-reclaimed is_reclaimable p xs)

parse_parts-filename :
    (f : NameFormat) (name : String) (parts : String × String) (info : FileInfo)
    → parse_parts f name parts ≡ ok info
    → info.filename ≡ name
unfolding parse_parts
parse_parts-filename f name (fname, ext) info h = ground arith

-- A parsed file comes from a name that is listed.
count_parsed :
    (f : NameFormat) (n name : String) (infos : List FileInfo) (unexpected names : List String)
    → (out : Result FileInfo) → parse_on_disk_filename f name ≡ out
    → count (named n) infos ≤ times n names
    → count
        (named n)
        (elim out as (λ x. List FileInfo × List String) [
          | ok info ↦ (info ∷ infos, unexpected)
          | raise e ↦ (infos, name ∷ unexpected)
        ]).0
      ≤ times n (name ∷ names)
unfolding parse_on_disk_filename
count_parsed f n name infos unexpected names (raise e) parsed h = omega arith
count_parsed f n name infos unexpected names (ok info) parsed h =
    rw (parse_parts-filename f name (splitext name) info parsed) (omega arith)

count-parse_files :
    (f : NameFormat) (n : String) (names : List String)
    → count (named n) (parse_files f names).0 ≤ times n names
unfolding parse_files
count-parse_files f n [] = omega arith
count-parse_files f n (name ∷ names) =
    let (infos, unexpected) = parse_files f names in
    count_parsed f n name infos unexpected names (parse_on_disk_filename f name) refl
      (count-parse_files f n names)

-- What a cleanup promises of the names that were listed and of what the search found.
pub record Keeps (names : List String) (r : Results) (c : Cleaned) : Type 0 where
  -- every name is left or was removed, as often as it was listed
  pub balance : (n : String) → times n c.files + times n c.removed ≡ times n names
  -- the files that make up the object are left
  pub chosen :
      (n : String)
      → one (named n) c.results.data_info
          + one (named n) c.results.meta_info
          + one (named n) c.results.ts_info
        ≤ times n c.files
  -- the data and the meta file are those of the search, and what it found obsolete was removed
  pub same_data : c.results.data_info ≡ r.data_info
  pub same_meta : c.results.meta_info ≡ r.meta_info
  pub obsolete_gone : (n : String) → count (named n) r.obsolete ≤ times n c.removed

-- Before the obsolete files go: what is reported, may be reclaimed or is obsolete is still there.
record Fits (names : List String) (found : Results) (c : Cleaned) : Type 0 where
  in_balance : (n : String) → times n c.files + times n c.removed ≡ times n names
  there : (n : String) → reported (named n) c.results ≤ times n c.files
  of_data : c.results.data_info ≡ found.data_info
  of_meta : c.results.meta_info ≡ found.meta_info
  of_obsolete : c.results.obsolete ≡ found.obsolete

module _ (is_reclaimable : ℕ → Bool) where
  Fits-reclaimed_ts :
      (names : List String) (found : Results) (c : Cleaned) (ts : Option FileInfo)
      → Fits names found c
      → c.results.ts_info ≡ ts
      → (c' : Cleaned) × (reclaim_ts is_reclaimable c ts ≡ ok c') × Fits names found c'
  unfolding reclaim_ts
  Fits-reclaimed_ts names found c none h e = (c, refl, h)
  Fits-reclaimed_ts names found c (some t) h e = elim (Bool-cases (is_reclaimable t.timestamp)) [
    | inr young ↦ (c, rw young refl, h)
    | inl old ↦
        let here : (n : String) → one (named n) (some t) ≤ one (named n) c.results.ts_info =
          λ n. rw e (omega arith) in
        let (c', e', r) =
          Removes-one c t (omega (arith, h.there t.filename, here t.filename, has_name t [])) in
        (
          record c' { results = record c'.results { ts_info = none } },
          rw (old, e') refl,
          record {
            in_balance = λ n. omega (arith, h.in_balance n, r.left n, r.taken n);
            there = λ n. rw r.same_results (omega (arith, h.there n, here n, r.left n));
            of_data = ap (λ x. x.data_info) r.same_results ∙ h.of_data;
            of_meta = ap (λ x. x.meta_info) r.same_results ∙ h.of_meta;
            of_obsolete = ap (λ x. x.obsolete) r.same_results ∙ h.of_obsolete;
          },
        )
  ]

  removal_of_obsolete :
      (names : List String) (found : Results) (c : Cleaned)
      → Fits names found c
      → (c' : Cleaned) × (remove_files
            (record c { results = with_reclaimed is_reclaimable c.results })
            (with_reclaimed is_reclaimable c.results).obsolete
          ≡ ok c')
        × Keeps names found c'
  unfolding with_reclaimed
  removal_of_obsolete names found c h =
      let r = with_reclaimed is_reclaimable c.results in
      let fits : (n : String)
          → count (named n) r.obsolete
              + one (named n) r.data_info
              + one (named n) r.meta_info
              + one (named n) r.ts_info
            ≤ times n c.files =
        λ n. omega (
          arith,
          h.there n,
          count-append (named n) c.results.obsolete
              (reclaimed is_reclaimable c.results.possible_reclaim),
          count-reclaimed is_reclaimable (named n) c.results.possible_reclaim,
        ) in
      let (c', e, gone) =
        removes (record c { results = r }) r.obsolete (λ n. omega (arith, fits n)) in
      (
        c',
        e,
        record {
          balance = λ n. omega (arith, h.in_balance n, gone.left n, gone.taken n);
          chosen = λ n. rw gone.same_results (omega (arith, fits n, gone.left n));
          same_data = ap (λ x. x.data_info) gone.same_results ∙ h.of_data;
          same_meta = ap (λ x. x.meta_info) gone.same_results ∙ h.of_meta;
          obsolete_gone = λ n. omega (
            arith,
            ap (count (named n)) h.of_obsolete,
            gone.taken n,
            count-append (named n) c.results.obsolete
                (reclaimed is_reclaimable c.results.possible_reclaim),
          );
        },
      )

  clean-Keeps :
      (names : List String) (r : Results)
      → ((n : String) → reported (named n) r ≤ times n names)
      → (c : Cleaned) × (clean is_reclaimable names r ≡ ok c) × Keeps names r c
  unfolding clean
  clean-Keeps names r h =
      let start : Cleaned = record { results = r; files = names; removed = [] } in
      let (c1, e1, fits) =
        Fits-reclaimed_ts names r start r.ts_info
          (record {
            in_balance = λ n. omega arith;
            there = h;
            of_data = refl;
            of_meta = refl;
            of_obsolete = refl;
          })
          refl in
      let (c2, e2, keeps) = removal_of_obsolete names r c1 fits in
      (
        c2,
        ap
              (λ m. m >>= λ c.
                remove_files (record c { results = with_reclaimed is_reclaimable c.results })
                  (with_reclaimed is_reclaimable c.results).obsolete)
              e1
            ∙ e2,
        keeps,
      )

-- Whatever the listing of a hash directory and whatever is past the reclaim age, the cleanup runs to
-- its end without an error; every name is then left or was removed, as often as it was listed; the
-- data, meta and tombstone files that it reports are left, each listed on its own; the data and the
-- meta file are those that the search finds in the sorted listing; and what that search finds
-- obsolete was removed.
pub cleanup_ondisk_files-Keeps :
    (is_reclaimable : ℕ → Bool) (f : NameFormat) (names : List String)
    → (r : Results) × (get_ondisk_files f false (sort_names names) ≡ ok r)
      × ((c : Cleaned) × (cleanup_ondisk_files is_reclaimable f (listed names) ≡ ok c)
          × Keeps names r c)
unfolding cleanup_ondisk_files get_ondisk_files checked
cleanup_ondisk_files-Keeps is_reclaimable f names =
    let files = sort_names names in
    let (infos, unexpected) = parse_files f files in
    let r = select infos unexpected in
    let (c, e, keeps) = clean-Keeps is_reclaimable files r (λ n.
      omega (arith, select-reported (named n) infos unexpected, count-parse_files f n files)) in
    (
      r,
      refl,
      (
        c,
        e,
        record {
          balance = λ n. keeps.balance n ∙ times-sort_names n names;
          chosen = keeps.chosen;
          same_data = keeps.same_data;
          same_meta = keeps.same_meta;
          obsolete_gone = keeps.obsolete_gone;
        },
      ),
    )
