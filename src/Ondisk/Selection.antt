-- ===== src/Ondisk/Selection.antt =====
-- Which files `get_ondisk_files` chooses, in terms of the files of each extension.
use mathlib.Core.List.{append-nil, append_assoc}
use swiftacular.Base.{
  ℕ, ◌≡◌, refl, sym, ◌∙◌, ap, false, Option, none, some, List, [], ◌∷◌, ◌++◌, String, str_eq,
  eq_iff, arith, if◌then◌else◌, Bool-cases, inl, inr, lookup, insert, lookup-insert,
}
use swiftacular.Ondisk.Names.{FileInfo}
use swiftacular.Ondisk.{
  Exts, Results, files_of, add_file, group_files, map_files, sort_files, sort_desc, by_time, bury,
  newer_than, split_gt_timestamp, buried_meta, discard_meta, process_ondisk_files, choose,
  first_file, select, resolve, no_results,
}

-- The files of one extension, in the order of the listing.
pub of_ext : String → List FileInfo → List FileInfo
of_ext ext [] = []
of_ext ext (info ∷ infos) =
    let rest = of_ext ext infos in if str_eq info.ext ext then info ∷ rest else rest

files_of-insert :
    (k e : String) (infos : List FileInfo) (exts : Exts)
    → files_of e (insert k infos exts) ≡ (if str_eq k e then infos else files_of e exts)
files_of-insert k e infos exts = ground (arith, lookup-insert k e infos exts)

files_of-add :
    (exts : Exts) (info : FileInfo) (e : String)
    → files_of e (add_file exts info)
      ≡ files_of e exts ++ (if str_eq info.ext e then info ∷ [] else [])
unfolding add_file
files_of-add exts info e = elim (Bool-cases (str_eq info.ext e)) [
  | inl same_ext ↦
      rw (files_of-insert, same_ext)
        (ap (λ k. files_of k exts ++ info ∷ []) ((eq_iff info.ext e).0 same_ext))
  | inr other ↦ rw (files_of-insert, other, append-nil)
]

of_ext-cons :
    (info : FileInfo) (infos : List FileInfo) (e : String)
    → (if str_eq info.ext e then info ∷ [] else []) ++ of_ext e infos ≡ of_ext e (info ∷ infos)
unfolding of_ext
of_ext-cons info infos e = ground arith

files_of-group :
    (exts : Exts) (infos : List FileInfo) (e : String)
    → files_of e (group_files exts infos) ≡ files_of e exts ++ of_ext e infos
unfolding group_files of_ext
files_of-group exts [] e = sym (append-nil (files_of e exts))
files_of-group exts (info ∷ infos) e =
    files_of-group (add_file exts info) infos e
    ∙ rw (files_of-add, append_assoc) (ap (λ l. files_of e exts ++ l) (of_ext-cons info infos e))

pub files_of-map :
    (f : String → List FileInfo → List FileInfo) (e : String) (exts : Exts)
    → ((k : String) → f k [] ≡ [])
    → files_of e (map_files f exts) ≡ f e (files_of e exts)
unfolding map_files lookup
files_of-map f e [] h = sym (h e)
files_of-map f e ((k, infos) ∷ exts) h = ground (arith, eq_iff k e, files_of-map f e exts h)

-- The files of an extension once all are grouped and sorted.
abbrev pub newest_first : String → List FileInfo → List FileInfo
newest_first ext infos = sort_desc by_time (of_ext ext infos)

files_of-sorted :
    (infos : List FileInfo) (e : String)
    → files_of e (sort_files (group_files [] infos)) ≡ newest_first e infos
unfolding sort_files
files_of-sorted infos e =
    files_of-map (λ ext l. sort_desc by_time l) e (group_files [] infos)
      (λ k. unfold sort_desc in refl)
    ∙ ap (sort_desc by_time) (files_of-group [] infos e ∙ unfold lookup in refl)

-- What a newest tombstone leaves of the data files.
abbrev pub above : List FileInfo → List FileInfo → List FileInfo
above [] infos = infos
above (t ∷ older) infos = (split_gt_timestamp t.timestamp infos).0

pub split_nil : (t : ℕ) (k : String) → newer_than t k [] ≡ []
unfolding split_gt_timestamp
split_nil t k = ground arith

files_of-bury_data :
    (exts : Exts) (obsolete ts : List FileInfo)
    → files_of ".data" (bury exts obsolete ts).0 ≡ above ts (files_of ".data" exts)
unfolding bury
files_of-bury_data exts obsolete [] = refl
files_of-bury_data exts obsolete (t ∷ older) =
    rw files_of-insert (files_of-map (newer_than t.timestamp) ".data" exts (split_nil t.timestamp))

files_of-bury_ts :
    (exts : Exts) (obsolete ts : List FileInfo)
    → files_of ".ts" exts ≡ ts
    → first_file (files_of ".ts" (bury exts obsolete ts).0) ≡ first_file ts
unfolding bury
files_of-bury_ts exts obsolete [] h = rw h
files_of-bury_ts exts obsolete (t ∷ older) h = rw files_of-insert

files_of-discard :
    (exts : Exts) (obsolete meta : List FileInfo) (e : String)
    → str_eq ".meta" e ≡ false
    → files_of e (discard_meta (exts, obsolete) meta).0 ≡ files_of e exts
unfolding discard_meta
files_of-discard exts obsolete [] e h = refl
files_of-discard exts obsolete (m ∷ rest) e h = rw (files_of-insert, h)

choose-data : (x : Exts × Results) → (choose x).data_info ≡ x.1.data_info
unfolding choose
choose-data (exts, r) = ground arith

pub process-data :
    (exts : Exts) (r : Results)
    → r.data_info ≡ none
    → (process_ondisk_files exts r).1.data_info ≡ first_file (files_of ".data" exts)
unfolding process_ondisk_files
process-data exts r h = ground arith

pub process-ts : (exts : Exts) (r : Results) → (process_ondisk_files exts r).1.ts_info ≡ r.ts_info
unfolding process_ondisk_files
process-ts exts r = ground arith

pub process-meta :
    (exts : Exts) (r : Results) → (process_ondisk_files exts r).1.meta_info ≡ r.meta_info
unfolding process_ondisk_files
process-meta exts r = ground arith

process_none :
    (exts : Exts) (r : Results)
    → files_of ".data" exts ≡ []
    → (process_ondisk_files exts r).0 ≡ exts
unfolding process_ondisk_files
process_none exts r h = ground arith

-- What `resolve` reports of the tombstones, by the data files that are left.
abbrev pub reported_ts : List FileInfo → List FileInfo → Option FileInfo
reported_ts [] ts = first_file ts
reported_ts (d ∷ older) ts = none

choose_data_ts :
    (exts : Exts) (r : Results) (d : FileInfo)
    → r.data_info ≡ some d
    → (choose (exts, r)).ts_info ≡ r.ts_info
unfolding choose
choose_data_ts exts r d h = ground arith

choose-none_ts :
    (exts : Exts) (r : Results)
    → r.data_info ≡ none
    → (choose (exts, r)).ts_info ≡ first_file (files_of ".ts" exts)
unfolding choose
choose-none_ts exts r h = rw h

resolve-data :
    (u : List String) (exts : Exts) (obsolete : List FileInfo)
    → (resolve u (exts, obsolete)).data_info ≡ first_file (files_of ".data" exts)
unfolding resolve
resolve-data u exts obsolete =
    choose-data (process_ondisk_files exts (no_results u obsolete))
    ∙ process-data exts (no_results u obsolete) refl

resolve-ts :
    (u : List String) (exts : Exts) (obsolete data_files : List FileInfo)
    → files_of ".data" exts ≡ data_files
    → (resolve u (exts, obsolete)).ts_info ≡ reported_ts data_files (files_of ".ts" exts)
unfolding resolve
resolve-ts u exts obsolete [] h =
    let r = no_results u obsolete in
    let (exts', r') = process_ondisk_files exts r in
    choose-none_ts exts' r' (process-data exts r refl ∙ ap first_file h)
    ∙ ap (λ e. first_file (files_of ".ts" e)) (process_none exts r h)
resolve-ts u exts obsolete (d ∷ older) h =
    let r = no_results u obsolete in
    let (exts', r') = process_ondisk_files exts r in
    choose_data_ts exts' r' d (process-data exts r refl ∙ ap first_file h) ∙ process-ts exts r

-- The data files that are left of all.
abbrev pub live : List FileInfo → List FileInfo
live infos = above (newest_first ".ts" infos) (newest_first ".data" infos)

-- The files that `resolve` is given.
abbrev pub settled_exts : List FileInfo → Exts × List FileInfo
settled_exts infos =
    let exts = sort_files (group_files [] infos) in buried_meta (bury exts [] (files_of ".ts" exts))

settled-data : (infos : List FileInfo) → files_of ".data" (settled_exts infos).0 ≡ live infos
unfolding buried_meta
settled-data infos =
    let exts = sort_files (group_files [] infos) in
    let (exts', obsolete) = bury exts [] (files_of ".ts" exts) in
    files_of-discard exts' obsolete (files_of ".meta" exts') ".data" refl
    ∙ files_of-bury_data exts [] (files_of ".ts" exts)
    ∙ ap (λ l. above l (files_of ".data" exts)) (files_of-sorted infos ".ts")
    ∙ ap (above (newest_first ".ts" infos)) (files_of-sorted infos ".data")

settled-ts :
    (infos : List FileInfo)
    → first_file (files_of ".ts" (settled_exts infos).0) ≡ first_file (newest_first ".ts" infos)
unfolding buried_meta
settled-ts infos =
    let exts = sort_files (group_files [] infos) in
    let (exts', obsolete) = bury exts [] (files_of ".ts" exts) in
    ap first_file (files_of-discard exts' obsolete (files_of ".meta" exts') ".ts" refl)
    ∙ files_of-bury_ts exts [] (files_of ".ts" exts) refl
    ∙ ap first_file (files_of-sorted infos ".ts")

pub select-data :
    (infos : List FileInfo) (u : List String) → (select infos u).data_info ≡ first_file (live infos)
unfolding select
select-data infos u =
    let (exts, obsolete) = settled_exts infos in
    resolve-data u exts obsolete ∙ ap first_file (settled-data infos)

reported_ts_first :
    (data_files a b : List FileInfo)
    → first_file a ≡ first_file b
    → reported_ts data_files a ≡ reported_ts data_files b
reported_ts_first [] a b h = h
reported_ts_first (d ∷ older) a b h = refl

pub select-ts :
    (infos : List FileInfo) (u : List String)
    → (select infos u).ts_info ≡ reported_ts (live infos) (newest_first ".ts" infos)
unfolding select
select-ts infos u =
    let (exts, obsolete) = settled_exts infos in
    resolve-ts u exts obsolete (live infos) (settled-data infos)
    ∙ reported_ts_first (live infos) (files_of ".ts" exts) (newest_first ".ts" infos)
        (settled-ts infos)
