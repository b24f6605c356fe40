-- ===== src/Ondisk/Choice.antt =====
-- The files that are chosen are the newest ones, and the choice meets the on-disk contract.
use swiftacular.Base.{
  ℕ, ◌≡◌, ◌≤◌, ◌<◌, refl, ◌∙◌, ap, Bool, true, false, none, some, List, [], ◌∷◌, String, ok, arith,
  ltb, Bool-cases, inl, inr, All,
}
use swiftacular.Ondisk.Names.{FileInfo, NameFormat}
use swiftacular.Ondisk.{
  Exts, Results, by_time, split_gt_timestamp, split_list, first_file, select, resolve, choose,
  process_ondisk_files, no_results, verify_ondisk_files, get_ondisk_files, parse_files, checked,
}
use swiftacular.Ondisk.Sorting.{IsTop, Heads, sort_desc-Heads}
use swiftacular.Ondisk.Selection.{
  of_ext, newest_first, above, reported_ts, select-data, select-ts, process-ts, process-meta,
  settled_exts,
}

-- What the choice must be, given the files that are there.
pub data Chosen (infos : List FileInfo) (r : Results) : Type 0 where
  -- a data file: the newest, and newer than every tombstone
  alive :
      (d : FileInfo)
      → r.data_info ≡ some d
      → r.ts_info ≡ none
      → IsTop by_time d (of_ext ".data" infos)
      → All (λ t. t.timestamp < d.timestamp) (of_ext ".ts" infos)
      → Chosen infos r
  -- a tombstone: the newest, and no older than any data file
  dead :
      (t : FileInfo)
      → r.data_info ≡ none
      → r.ts_info ≡ some t
      → IsTop by_time t (of_ext ".ts" infos)
      → All (λ d. d.timestamp ≤ t.timestamp) (of_ext ".data" infos)
      → Chosen infos r
  -- neither, where there is neither
  absent :
      r.data_info ≡ none
      → r.ts_info ≡ none
      → of_ext ".data" infos ≡ []
      → of_ext ".ts" infos ≡ []
      → Chosen infos r

All-below :
    (m n : ℕ) (xs : List FileInfo)
    → m < n
    → All (λ y. y.timestamp ≤ m) xs
    → All (λ y. y.timestamp < n) xs
All-below m n [] h all = tt
All-below m n (x ∷ xs) h all = (omega arith, All-below m n xs h all.1)

All-upto :
    (m n : ℕ) (xs : List FileInfo)
    → m ≤ n
    → All (λ y. y.timestamp ≤ m) xs
    → All (λ y. y.timestamp ≤ n) xs
All-upto m n [] h all = tt
All-upto m n (x ∷ xs) h all = (omega arith, All-upto m n xs h all.1)

above_newer :
    (t d : FileInfo) (ts ds : List FileInfo)
    → ltb t.timestamp d.timestamp ≡ true
    → (rest : List FileInfo) × (above (t ∷ ts) (d ∷ ds) ≡ d ∷ rest)
unfolding split_gt_timestamp
above_newer t d ts ds h = ((split_list (λ x. ltb t.timestamp x.timestamp) ds).0, rw (h, above))

above_older :
    (t d : FileInfo) (ts ds : List FileInfo)
    → ltb t.timestamp d.timestamp ≡ false
    → above (t ∷ ts) (d ∷ ds) ≡ []
unfolding split_gt_timestamp
above_older t d ts ds h = rw (h, above)

above_nil : (ts : List FileInfo) → above ts [] ≡ []
unfolding split_gt_timestamp
above_nil [] = refl
above_nil (t ∷ ts) = refl

chosen :
    (infos : List FileInfo) (r : Results) (ts ds : List FileInfo)
    → Heads by_time (of_ext ".ts" infos) ts
    → Heads by_time (of_ext ".data" infos) ds
    → r.data_info ≡ first_file (above ts ds)
    → r.ts_info ≡ reported_ts (above ts ds) ts
    → Chosen infos r
chosen infos r [] [] ht hd ed et = absent ed et hd ht
chosen infos r [] (d ∷ ds) ht hd ed et = alive d ed et hd (rw ht tt)
chosen infos r (t ∷ ts) [] ht hd ed et =
    let e = above_nil (t ∷ ts) in
    dead t (ed ∙ ap first_file e) (et ∙ ap (λ l. reported_ts l (t ∷ ts)) e) ht (rw hd tt)
chosen infos r (t ∷ ts) (d ∷ ds) ht hd ed et = elim (Bool-cases (ltb t.timestamp d.timestamp)) [
  | inl newer ↦
      let (rest, e) = above_newer t d ts ds newer in
      alive d (ed ∙ ap first_file e) (et ∙ ap (λ l. reported_ts l (t ∷ ts)) e) hd
        (All-below t.timestamp d.timestamp (of_ext ".ts" infos) (ground arith) ht.greatest)
  | inr older ↦
      let e = above_older t d ts ds older in
      dead t (ed ∙ ap first_file e) (et ∙ ap (λ l. reported_ts l (t ∷ ts)) e) ht
        (All-upto d.timestamp t.timestamp (of_ext ".data" infos) (ground arith) hd.greatest)
]

-- Of the files of an object a data file is chosen exactly if it is the newest and newer than every
-- tombstone; otherwise the newest tombstone is, if there is one.
pub select-Chosen : (infos : List FileInfo) (u : List String) → Chosen infos (select infos u)
select-Chosen infos u =
    chosen infos (select infos u) (newest_first ".ts" infos) (newest_first ".data" infos)
      (sort_desc-Heads by_time (of_ext ".ts" infos))
      (sort_desc-Heads by_time (of_ext ".data" infos)) (select-data infos u) (select-ts infos u)

verify_choose :
    (exts : Exts) (r : Results)
    → r.meta_info ≡ none
    → r.ts_info ≡ none
    → verify_ondisk_files (choose (exts, r)) ≡ true
unfolding choose verify_ondisk_files
verify_choose exts r hm ht = ground arith

verify-resolve :
    (u : List String) (x : Exts × List FileInfo) → verify_ondisk_files (resolve u x) ≡ true
unfolding resolve
verify-resolve u (exts, obsolete) =
    let r = no_results u obsolete in
    let (exts', r') = process_ondisk_files exts r in
    verify_choose exts' r' (process-meta exts r) (process-ts exts r)

pub verify-select :
    (infos : List FileInfo) (u : List String) → verify_ondisk_files (select infos u) ≡ true
unfolding select
verify-select infos u = verify-resolve u (settled_exts infos)

checked_ok : (verify : Bool) (r : Results) → verify_ondisk_files r ≡ true → checked verify r ≡ ok r
unfolding checked
checked_ok verify r h = ground arith

searched :
    (f : NameFormat) (verify : Bool) (names : List String)
    → get_ondisk_files f verify names
      ≡ checked verify (select (parse_files f names).0 (parse_files f names).1)
unfolding get_ondisk_files
searched f verify names = refl

-- Whatever the directory holds, the search never breaks its contract: it returns, and the files that
-- it reports are a tombstone alone, or a data file with perhaps a meta file, or none.
pub get_ondisk_files-total :
    (f : NameFormat) (verify : Bool) (names : List String)
    → (r : Results) × (get_ondisk_files f verify names ≡ ok r)
      × (verify_ondisk_files r ≡ true)
      × Chosen (parse_files f names).0 r
get_ondisk_files-total f verify names =
    let infos = (parse_files f names).0 in
    let u = (parse_files f names).1 in
    (
      select infos u,
      searched f verify names ∙ checked_ok verify (select infos u) (verify-select infos u),
      verify-select infos u,
      select-Chosen infos u,
    )
