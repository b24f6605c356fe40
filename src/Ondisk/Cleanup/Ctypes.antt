-- ===== src/Ondisk/Cleanup/Ctypes.antt =====
-- What a cleanup ends with, and the content type that it reports.
use swiftacular.Base.{
  ℕ, ◌≡◌, refl, sym, ap, ◌∙◌, Bool, true, ◌⊎◌, Option, none, some, List, [], ◌∷◌, ◌++◌, String,
  os_error, Result, ok, raise, is_some, Bool-cases, inl, inr, arith, >>=-eq-ok,
}
use swiftacular.Ondisk.{
  Results, Exts, process_data, process_ondisk_files, choose_meta, choose_for, choose, resolve,
  select, get_ondisk_files, checked, parse_files, no_results, files_of,
}
use swiftacular.Ondisk.Names.{FileInfo, NameFormat}
use swiftacular.Ondisk.Cleanup.{
  Listing, listed, no_entry, refused, Cleaned, cleanup_ondisk_files, sort_names, clean, reclaim_ts,
  remove_file, remove_files, remove, with_reclaimed,
}
use swiftacular.Ondisk.Cleanup.Keeps.{cleanup_ondisk_files-Keeps}

-- A file that is reported for its content type has a time of it.
abbrev pub has_time : Option FileInfo → Bool
has_time none = true
has_time (some info) = is_some info.ctype_timestamp

choose_meta-has_time :
    (r : Results) (d : FileInfo) (metas : List FileInfo)
    → has_time r.ctype_info ≡ true
    → has_time (choose_meta r d metas).ctype_info ≡ true
unfolding choose_meta
choose_meta-has_time r d [] h = h
choose_meta-has_time r d (m ∷ rest) h = ground (arith, h)

choose-has_time :
    (exts : Exts) (r : Results) (chosen : Option FileInfo)
    → has_time r.ctype_info ≡ true
    → has_time (choose_for exts r chosen).ctype_info ≡ true
unfolding choose_for
choose-has_time exts r none h = h
choose-has_time exts r (some d) h = choose_meta-has_time r d (files_of ".meta" exts) h

process-has_time :
    (exts : Exts) (r : Results) (files : List FileInfo)
    → (process_data exts r files).1.ctype_info ≡ r.ctype_info
unfolding process_data
process-has_time exts r [] = refl
process-has_time exts r (d ∷ older) = refl

resolve-has_time :
    (unexpected : List String) (found : Exts × List FileInfo)
    → has_time (resolve unexpected found).ctype_info ≡ true
unfolding resolve choose process_ondisk_files
resolve-has_time unexpected (exts, obsolete) =
    let (exts', r) = process_data exts (no_results unexpected obsolete) (files_of ".data" exts) in
    choose-has_time exts' r r.data_info
      (ap has_time (process-has_time exts (no_results unexpected obsolete) (files_of ".data" exts)))

abbrev results_of : Results → Result Cleaned → Results
results_of r (ok c) = c.results
results_of r (raise e) = r

remove_file-results :
    (c c' : Cleaned) (info : FileInfo) → remove_file c info ≡ ok c' → c'.results ≡ c.results
unfolding remove_file
remove_file-results c c' info h =
    let (files, e, f) =
      >>=-eq-ok (remove info.filename c.files)
        (λ files. ok (record c { files = files; removed = c.removed ++ info.filename ∷ [] })) h in
    sym (ap (results_of c.results) f)

remove_files-results :
    (c c' : Cleaned) (infos : List FileInfo) → remove_files c infos ≡ ok c' → c'.results ≡ c.results
unfolding remove_files
remove_files-results c c' [] h = sym (ap (results_of c.results) h)
remove_files-results c c' (info ∷ infos) h =
    let (next, e, f) = >>=-eq-ok (remove_file c info) (λ c'. remove_files c' infos) h in
    remove_files-results next c' infos f ∙ remove_file-results c next info e

reclaim_ts-ctype :
    (is_reclaimable : ℕ → Bool) (c c' : Cleaned) (t : Option FileInfo)
    → reclaim_ts is_reclaimable c t ≡ ok c'
    → c'.results.ctype_info ≡ c.results.ctype_info
unfolding reclaim_ts
reclaim_ts-ctype is_reclaimable c c' none h = sym (ap (λ m. (results_of c.results m).ctype_info) h)
reclaim_ts-ctype is_reclaimable c c' (some t) h = elim (Bool-cases (is_reclaimable t.timestamp)) [
  | inl old ↦
      let (next, e, f) =
        >>=-eq-ok (remove_file c t)
          (λ c'. ok (record c' { results = record c'.results { ts_info = none } })) (rw old at h) in
      sym (ap (λ m. (results_of c.results m).ctype_info) f)
      ∙ ap (λ r. Results.ctype_info r) (remove_file-results c next t e)
  | inr kept ↦ sym (ap (λ m. (results_of c.results m).ctype_info) (rw kept at h))
]

clean-ctype :
    (is_reclaimable : ℕ → Bool) (files : List String) (r : Results) (c : Cleaned)
    → clean is_reclaimable files r ≡ ok c
    → c.results.ctype_info ≡ r.ctype_info
unfolding clean with_reclaimed
clean-ctype is_reclaimable files r c h =
    let start : Cleaned = record { results = r; files = files; removed = [] } in
    let (next, e, f) =
      >>=-eq-ok (reclaim_ts is_reclaimable start r.ts_info)
        (λ c.
          remove_files (record c { results = with_reclaimed is_reclaimable c.results })
            (with_reclaimed is_reclaimable c.results).obsolete)
        h in
    ap (λ r. Results.ctype_info r)
      (remove_files-results (record next { results = with_reclaimed is_reclaimable next.results }) c
        (with_reclaimed is_reclaimable next.results).obsolete f)
    ∙ reclaim_ts-ctype is_reclaimable start next r.ts_info e

select-has_time :
    (infos : List FileInfo) (unexpected : List String)
    → has_time (select infos unexpected).ctype_info ≡ true
unfolding select
select-has_time infos unexpected = resolve-has_time unexpected _

-- A cleanup fails only when the listing does, and reports a content type's time.
unfoldable pub Cleans : Result Cleaned → Type 0
Cleans m =
    (m ≡ raise os_error) ⊎ ((c : Cleaned) × (m ≡ ok c) × (has_time c.results.ctype_info ≡ true))

pub cleanup-Cleans :
    (is_reclaimable : ℕ → Bool) (f : NameFormat) (listing : Listing)
    → Cleans (cleanup_ondisk_files is_reclaimable f listing)
unfolding cleanup_ondisk_files Cleans get_ondisk_files checked
cleanup-Cleans is_reclaimable f refused = inl refl
cleanup-Cleans is_reclaimable f no_entry =
    inr (record { results = select [] []; files = []; removed = [] }, refl, select-has_time [] [])
cleanup-Cleans is_reclaimable f (listed names) =
    let (_, _, (c, e, _)) = cleanup_ondisk_files-Keeps is_reclaimable f names in
    let files = sort_names names in
    let (infos, unexpected) = parse_files f files in
    inr (
      c,
      e,
      ap has_time (clean-ctype is_reclaimable files (select infos unexpected) c e)
          ∙ select-has_time infos unexpected,
    )
