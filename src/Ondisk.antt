-- ===== src/Ondisk.antt =====
-- swift_patches/obj/bs_diskfile.py: which of the files in an object's hash directory make up its
-- state (`get_ondisk_files`), for replicated policies. A `Timestamp` stands as its place in the
-- order of timestamps, and 0 is `Timestamp(0)`.
pub mod Names
pub mod Sorting
pub mod Selection
pub mod Choice
pub mod Accounts
pub mod Reported
pub mod Cleanup
pub mod Xattrs
pub mod Opens
pub mod Suffixes
use swiftacular.Base.{
  ℕ, zero, suc, ◌≡◌, Bool, true, false, ◌&&◌, ◌||◌, not, Option, none, some, List, [], ◌∷◌, ◌++◌,
  String, str_eq, Result, ok, raise, runtime_error, or_else, is_some, ltb, leb, ◌==◌, if◌then◌else◌,
  take, drop, Dict, lookup, insert,
}
use swiftacular.Ondisk.Names.{FileInfo, NameFormat, parse_on_disk_filename}

abbrev pub Exts : Type 0
Exts = Dict (List FileInfo)

-- `exts.get(ext)`: an absent key and an empty list are alike to the code.
abbrev pub files_of : String → Exts → List FileInfo
files_of ext exts = or_else [] (lookup ext exts)

pub record Results : Type 0 where
  pub unexpected : List String
  pub obsolete : List FileInfo
  pub possible_reclaim : List FileInfo
  pub data_info : Option FileInfo
  pub meta_info : Option FileInfo
  pub ts_info : Option FileInfo
  pub ctype_info : Option FileInfo

-- `sorted(infos, key=key, reverse=True)`, which keeps the order of equal keys.
unfoldable pub insert_desc : (FileInfo → ℕ) → FileInfo → List FileInfo → List FileInfo
insert_desc key x [] = x ∷ []
insert_desc key x (y ∷ ys) = if leb (key y) (key x) then x ∷ y ∷ ys else y ∷ insert_desc key x ys

unfoldable pub sort_desc : (FileInfo → ℕ) → List FileInfo → List FileInfo
unfolding insert_desc
sort_desc key [] = []
sort_desc key (x ∷ xs) = insert_desc key x (sort_desc key xs)

abbrev pub by_time : FileInfo → ℕ
by_time info = info.timestamp

-- `info['ctype_timestamp'] or 0`
abbrev pub ctype_or_0 : FileInfo → ℕ
ctype_or_0 info = or_else 0 info.ctype_timestamp

-- `_split_list`: split at the first item that does not satisfy the condition.
abbrev cons_first {ℓ} : {A : Type ℓ} → A → List A × List A → List A × List A
cons_first x (a, b) = (x ∷ a, b)

unfoldable pub split_list {ℓ} : {A : Type ℓ} → (A → Bool) → List A → List A × List A
split_list condition [] = ([], [])
split_list condition (x ∷ xs) =
    let rest = split_list condition xs in if condition x then cons_first x rest else ([], x ∷ xs)

unfoldable pub split_gt_timestamp : ℕ → List FileInfo → List FileInfo × List FileInfo
unfolding split_list
split_gt_timestamp t infos = split_list (λ x. ltb t x.timestamp) infos

unfoldable pub split_gte_timestamp : ℕ → List FileInfo → List FileInfo × List FileInfo
unfolding split_list
split_gte_timestamp t infos = split_list (λ x. leb t x.timestamp) infos

-- Files by extension, each list newest first.
unfoldable pub add_file : Exts → FileInfo → Exts
add_file exts info = insert info.ext (files_of info.ext exts ++ info ∷ []) exts

unfoldable pub group_files : Exts → List FileInfo → Exts
unfolding add_file
group_files exts [] = exts
group_files exts (info ∷ infos) = group_files (add_file exts info) infos

unfoldable pub map_files : (String → List FileInfo → List FileInfo) → Exts → Exts
map_files f [] = []
map_files f ((ext, infos) ∷ exts) = (ext, f ext infos) ∷ map_files f exts

-- What the map leaves out, in the order of the extensions.
unfoldable pub collect_files : (String → List FileInfo → List FileInfo) → Exts → List FileInfo
collect_files f [] = []
collect_files f ((ext, infos) ∷ exts) = f ext infos ++ collect_files f exts

unfoldable pub sort_files : Exts → Exts
unfolding map_files
sort_files exts = map_files (λ ext infos. sort_desc by_time infos) exts

-- What a tombstone at `t` keeps of an extension's files, and what it makes obsolete.
abbrev pub newer_than : ℕ → String → List FileInfo → List FileInfo
newer_than t ext infos = if str_eq ext ".ts" then infos else (split_gt_timestamp t infos).0

abbrev pub not_newer_than : ℕ → String → List FileInfo → List FileInfo
not_newer_than t ext infos = if str_eq ext ".ts" then [] else (split_gt_timestamp t infos).1

-- Files that are not newer than the newest tombstone are obsolete, and so are older tombstones.
unfoldable pub bury : Exts → List FileInfo → List FileInfo → Exts × List FileInfo
unfolding map_files collect_files
bury exts obsolete [] = (exts, obsolete)
bury exts obsolete (t ∷ older) = (
  insert ".ts" (t ∷ []) (map_files (newer_than t.timestamp) exts),
  obsolete ++ collect_files (not_newer_than t.timestamp) exts ++ older,
)

-- The meta files that are kept, and those that are obsolete: the newest, and the one with the newest
-- content type if that is newer than the newest's.
unfoldable pub keep_ctype : FileInfo → List FileInfo → List FileInfo × List FileInfo
keep_ctype m [] = (m ∷ [], [])
keep_ctype m (c ∷ rest) =
    if ltb (ctype_or_0 m) (ctype_or_0 c)
    then (if c.timestamp == m.timestamp then (c ∷ [], m ∷ rest) else (m ∷ c ∷ [], rest))
    else (m ∷ [], c ∷ rest)

unfoldable pub retain_meta : List FileInfo → List FileInfo × List FileInfo
unfolding keep_ctype
retain_meta [] = ([], [])
retain_meta (m ∷ rest) = keep_ctype m (sort_desc ctype_or_0 rest)

unfoldable pub discard_meta : Exts × List FileInfo → List FileInfo → Exts × List FileInfo
unfolding retain_meta
discard_meta (exts, obsolete) [] = (exts, obsolete)
discard_meta (exts, obsolete) (m ∷ rest) =
    let (kept, dropped) = retain_meta (m ∷ rest) in (insert ".meta" kept exts, obsolete ++ dropped)

-- `_process_ondisk_files` of the replicated policy: other files at the time of the newest data file
-- or older are obsolete, and older data files.
abbrev split_for : ℕ → String → List FileInfo → List FileInfo × List FileInfo
split_for t ext infos =
    if str_eq ext ".data" then split_gte_timestamp t infos else split_gt_timestamp t infos

unfoldable pub process_data : Exts → Results → List FileInfo → Exts × Results
unfolding map_files collect_files
process_data exts r [] =
    (exts, record r { possible_reclaim = r.possible_reclaim ++ files_of ".meta" exts })
process_data exts r (d ∷ older) = (
  map_files (λ ext infos. (split_for d.timestamp ext infos).0) exts,
  record r {
    obsolete = r.obsolete ++ collect_files (λ ext infos. (split_for d.timestamp ext infos).1) exts;
    data_info = some d;
  },
)

unfoldable pub process_ondisk_files : Exts → Results → Exts × Results
unfolding process_data
process_ondisk_files exts r = process_data exts r (files_of ".data" exts)

last_of : FileInfo → List FileInfo → FileInfo
last_of m [] = m
last_of m (c ∷ rest) = last_of c rest

-- `ctype_timestamp > timestamp`; None is no later than anything.
abbrev ctype_after : Option ℕ → ℕ → Bool
ctype_after none t = false
ctype_after (some c) t = ltb t c

unfoldable pub choose_meta : Results → FileInfo → List FileInfo → Results
unfolding last_of
choose_meta r d [] = r
choose_meta r d (m ∷ rest) =
    let c = last_of m rest in
    record r {
      meta_info = some m;
      ctype_info = if ctype_after c.ctype_timestamp d.timestamp then some c else r.ctype_info;
    }

abbrev first_file : List FileInfo → Option FileInfo
first_file [] = none
first_file (t ∷ rest) = some t

-- A meta file is reported only with a data file, and a tombstone only without one.
unfoldable pub choose_for : Exts → Results → Option FileInfo → Results
unfolding choose_meta
choose_for exts r (some d) = choose_meta r d (files_of ".meta" exts)
choose_for exts r none = record r { ts_info = first_file (files_of ".ts" exts) }

unfoldable pub choose : Exts × Results → Results
unfolding choose_for
choose (exts, r) = choose_for exts r r.data_info

-- `_verify_ondisk_files`, on whether there is a data, a meta and a tombstone file.
unfoldable pub verify_ondisk_files : Results → Bool
verify_ondisk_files r =
    (not (is_some r.data_info) && not (is_some r.meta_info) && not (is_some r.ts_info))
    || (is_some r.ts_info && not (is_some r.data_info) && not (is_some r.meta_info))
    || (is_some r.data_info && not (is_some r.ts_info))

abbrev pub no_results : List String → List FileInfo → Results
no_results unexpected obsolete = record {
  unexpected = unexpected;
  obsolete = obsolete;
  possible_reclaim = [];
  data_info = none;
  meta_info = none;
  ts_info = none;
  ctype_info = none;
}

-- The files that parse, and those that do not.
unfoldable pub parse_files : NameFormat → List String → List FileInfo × List String
parse_files f [] = ([], [])
parse_files f (name ∷ names) =
    let (infos, unexpected) = parse_files f names in
    elim (parse_on_disk_filename f name) [
      | ok info ↦ (info ∷ infos, unexpected)
      | raise e ↦ (infos, name ∷ unexpected)
    ]

unfoldable pub resolve : List String → Exts × List FileInfo → Results
unfolding process_ondisk_files choose
resolve unexpected (exts, obsolete) =
    choose (process_ondisk_files exts (no_results unexpected obsolete))

unfoldable pub buried_meta : Exts × List FileInfo → Exts × List FileInfo
unfolding discard_meta
buried_meta (exts, obsolete) = discard_meta (exts, obsolete) (files_of ".meta" exts)

-- Everything between the parsing of the names and the check of the contract.
unfoldable pub select : List FileInfo → List String → Results
unfolding group_files sort_files bury buried_meta resolve
select infos unexpected =
    let exts = sort_files (group_files [] infos) in
    resolve unexpected (buried_meta (bury exts [] (files_of ".ts" exts)))

unfoldable pub checked : Bool → Results → Result Results
unfolding verify_ondisk_files
checked verify results =
    if verify && not (verify_ondisk_files results) then raise runtime_error else ok results

unfoldable pub get_ondisk_files : NameFormat → Bool → List String → Result Results
unfolding parse_files select checked
get_ondisk_files f verify names =
    let (infos, unexpected) = parse_files f names in checked verify (select infos unexpected)
