-- ===== src/Metadata.antt =====
-- bluestore/src/bluestore/metadata.py: what a PUT or DELETE wrote and what the newest POST wrote
-- are kept apart, as the "data" and "meta" of a blob, and merged when read. A blob stands as the
-- JSON value that its bytes hold; `garbled` is bytes that `json.loads` refuses.
pub mod RoundTrip
pub mod Merge
pub mod Posts
pub mod Stamps
use Prim.Native.Char.{code}
use swiftacular.Base.{
  ℕ, ◌+◌, ◌≡◌, Bool, true, false, ◌&&◌, ◌||◌, Option, none, some, List, [], ◌∷◌, String, str_eq,
  Result, ok, raise, key_error, value_error, ◌>>=◌, ◌>>◌, expect, or_else, is_some, ltb, leb, ◌==◌,
  if◌then◌else◌, any, Dict, lookup, insert, pop, update, same,
}
use swiftacular.Swift.{Swift}

abbrev pub Headers : Type 0
Headers = Dict String

abbrev pub x_timestamp : String
x_timestamp = "X-Timestamp"

abbrev pub content_type : String
content_type = "Content-Type"

abbrev pub content_type_timestamp : String
content_type_timestamp = "Content-Type-Timestamp"

pub data Blob : Type 0 where
  garbled : Blob
  sections : Option Headers → Option Headers → Blob

-- The dict that `MetadataModel.get` returns.
pub record Entry : Type 0 where
  pub data_section : Headers
  pub meta_section : Option Headers
  pub merged : Headers
  pub meta_ts : Option ℕ
  pub data_ts : Option ℕ
  pub type_ts : ℕ

-- `key.lower()`, on code points. No letter beyond ASCII has a lower case that occurs in one of the
-- names compared below, so the others are left as they are.
lower : List ℕ → List ℕ
lower [] = []
lower (c ∷ cs) = (if leb b'A' c && leb c b'Z' then c + 32 else c) ∷ lower cs

codes : String → List ℕ
codes String.[] = []
codes (String.◌∷◌ c s) = code c ∷ codes s

codes_eq : List ℕ → List ℕ → Bool
codes_eq [] [] = true
codes_eq (a ∷ xs) (b ∷ ys) = a == b && codes_eq xs ys
codes_eq _ _ = false

abbrev pub previous_post : Option Entry → Option Headers
previous_post none = none
previous_post (some prev) = prev.meta_section

-- `merged == meta`
abbrev pub unchanged : Headers → Option Headers → Bool
unchanged merged none = false
unchanged merged (some meta) = same merged meta

module _ (s : Swift) where
  open s use {parse, internal, of_raw, newer, not_newer, datafile_meta, is_sys_meta}

  -- what a POST can never change
  unfoldable pub fixed : String → Bool
  unfolding lower codes codes_eq
  fixed key =
      any (λ name. codes_eq (lower (codes key)) (codes name)) datafile_meta || is_sys_meta key

  abbrev pub timestamp : String → Result ℕ
  timestamp text = expect value_error (parse text)

  abbrev ctype_from : Option String → Result ℕ
  ctype_from none = ok 0
  ctype_from (some text) = timestamp text

  unfoldable pub ctype_timestamp : Headers → Result ℕ
  ctype_timestamp metadata = ctype_from (lookup content_type_timestamp metadata)

  abbrev time_from : Option String → Result (Option ℕ)
  time_from none = ok none
  time_from (some text) = if str_eq text "" then ok none else do t ← timestamp text; ok (some t)

  -- `time_of(data)`; `time_of(prev, 'meta')` is this of the section
  unfoldable pub time_of : Headers → Result (Option ℕ)
  time_of d = time_from (lookup x_timestamp d)

  -- the content type is the PUT's, unless the POST's is newer
  unfoldable pub settle_type : Headers → Headers → Headers → Option String → Result Headers
  unfolding ctype_timestamp
  settle_type d meta merged none = ok merged
  settle_type d meta merged (some type) = do
    stamp ← expect key_error (lookup x_timestamp d)
    t ← timestamp stamp
    c ← ctype_timestamp meta
    ok (if ltb c t then pop content_type_timestamp (insert content_type type merged) else merged)

  unfoldable pub merge : Headers → Headers → Result Headers
  unfolding settle_type
  merge d meta = settle_type d meta (update fixed meta d) (lookup content_type d)

  abbrev merged_with : Headers → Option Headers → Result Headers
  merged_with d none = ok d
  merged_with d (some meta) = merge d meta

  unfoldable pub get : Blob → Result Entry
  unfolding time_of
  get garbled = raise value_error
  get (sections section meta) = do
    d ← expect key_error section
    merged ← merged_with d meta
    meta_ts ← time_of merged
    data_ts ← time_of d
    stamp ← expect key_error (lookup x_timestamp d)
    type_ts ← timestamp (or_else stamp (lookup content_type_timestamp merged))
    ok (record {
      data_section = d;
      meta_section = meta;
      merged = merged;
      meta_ts = meta_ts;
      data_ts = data_ts;
      type_ts = type_ts;
    })

  -- the POST that a PUT or DELETE leaves in place
  unfoldable pub surviving : Option Headers → Headers → Result (Option Headers)
  unfolding time_of
  surviving none d = ok none
  surviving (some meta) d = do
    a ← time_of meta
    b ← time_of d
    n ← newer a b
    ok (if n then some meta else none)

  unfoldable pub put : Option Entry → Headers → Result Blob
  unfolding surviving
  put prev d = do meta ← surviving (previous_post prev) d; ok (sections (some d) meta)

  unfoldable pub delete : Option Entry → ℕ → Option Headers → Result Blob
  unfolding put
  delete prev timestamp meta =
      put prev (or_else ((x_timestamp, internal (of_raw timestamp)) ∷ []) meta)

  -- the newer and the older of a POST and the one before it
  unfoldable pub ranked : Option Headers → Headers → Result (Headers × Headers)
  unfolding time_of
  ranked none post = ok (post, [])
  ranked (some meta) post = do
    t ← time_of post
    u ← time_of meta
    n ← newer t u
    ok (if n then (post, meta) else (meta, post))

  unfoldable pub take_type : Headers → Headers → Result Headers
  take_type oldest newest = do
    type ← expect key_error (lookup content_type oldest)
    stamp ← expect key_error (lookup content_type_timestamp oldest)
    ok (insert content_type_timestamp stamp (insert content_type type newest))

  -- the newer of the two, with the content type of the one that set it last
  unfoldable pub combine : Headers → Headers → Result Headers
  unfolding ctype_timestamp take_type
  combine newest oldest = do
    c ← ctype_timestamp oldest
    d ← ctype_timestamp newest
    if ltb d c then take_type oldest newest else ok newest

  unfoldable pub post_onto : Entry → Headers → Result (Option Blob)
  unfolding ranked combine same
  post_onto prev p = do
    pair ← ranked prev.meta_section p
    merged ← combine pair.0 pair.1
    ok (
        if unchanged merged prev.meta_section
        then none
        else some (sections (some prev.data_section) (some merged)))

  unfoldable pub post : Option Entry → Headers → Result (Option Blob)
  unfolding post_onto time_of
  post none p = ok none
  post (some prev) p = do
    t ← time_of p
    stale ← not_newer t prev.data_ts
    if stale then ok none else post_onto prev p
