-- ===== src/Tests/Metadata.antt =====
-- Witnesses for the metadata: a PUT at 3, and POSTs at 5 and 7.
use swiftacular.Base.{◌≡◌, refl, Option, none, some, [], ◌∷◌, String, ok, arith, lookup, max, false}
use swiftacular.Metadata.{
  Headers, Entry, Blob, x_timestamp, content_type, content_type_timestamp, fixed, get, put, post,
  merge,
}
use swiftacular.Metadata.Stamps.{IsPosted, untyped, typed}
use swiftacular.Metadata.Merge.{typed_value, merge_value}
use swiftacular.Metadata.RoundTrip.{Reads, kept, get-put}
use swiftacular.Metadata.Posts.{Latest, post-Latest, post_twice}
use swiftacular.Tests.Instance.{swift, letters}

abbrev put_headers : Headers
put_headers = (x_timestamp, letters 4) ∷ (content_type, "text/plain") ∷ ("ETag", "abc") ∷ []

abbrev post_5 : Headers
post_5 = (x_timestamp, letters 6) ∷ ("X-Object-Meta-Color", "red") ∷ []

abbrev post_7 : Headers
post_7 =
    (x_timestamp, letters 8)
    ∷ (content_type, "text/html")
    ∷ (content_type_timestamp, letters 8)
    ∷ ("X-Object-Meta-Color", "blue")
    ∷ []

-- As read back after the PUT and the POST at 5.
abbrev stored : Entry
stored = record {
  data_section = put_headers;
  meta_section = some post_5;
  merged = put_headers;
  meta_ts = some 5;
  data_ts = some 3;
  type_ts = 3;
}

post_5-IsPosted : IsPosted swift post_5 5 0
unfolding lookup
post_5-IsPosted = record { stamped = refl; type_at = untyped refl refl }

post_7-IsPosted : IsPosted swift post_7 7 7
unfolding lookup
post_7-IsPosted = record { stamped = refl; type_at = typed "text/html" refl refl }

pub fixed_stamp : fixed swift x_timestamp ≡ false
unfolding fixed
fixed_stamp = refl

pub fixed_type : fixed swift content_type_timestamp ≡ false
unfolding fixed
fixed_type = refl

merge_value_example :
    (m : Headers) × (merge swift put_headers post_7 ≡ ok m)
    × ((k : String)
        → lookup k m ≡ typed_value swift put_headers post_7 3 7 (lookup content_type put_headers) k)
unfolding lookup
merge_value_example =
    merge_value swift put_headers post_7 3 7 (refl, (refl, (refl, tt))) refl post_7-IsPosted.type_at

get-put_example :
    (b : Blob) × (put swift (some stored) put_headers ≡ ok b)
    × Reads swift put_headers (kept swift post_5 3 5) 3 (get swift b)
unfolding lookup
get-put_example =
    get-put swift fixed_stamp fixed_type stored post_5 put_headers 3 5 0 0 refl
      (refl, (refl, (refl, tt))) refl (untyped refl refl) post_5-IsPosted

post-Latest_example : Latest swift stored (post swift (some stored) post_7) (max 7 5) (max 7 0)
post-Latest_example =
    post-Latest swift stored post_5 post_7 3 7 5 7 0 refl refl post_5-IsPosted post_7-IsPosted
      (omega arith)

abbrev latest : Option Blob
latest = some (Blob.sections (some put_headers) (some post_7))

post_7_written : post swift (some stored) post_7 ≡ ok latest
unfolding post lookup
post_7_written = refl

post_twice_example :
    post swift (some (record stored { meta_section = some post_7 })) post_7 ≡ ok none
post_twice_example =
    post_twice swift stored (record stored { meta_section = some post_7 }) post_5 post_7 latest 3 7
      5 7 0 refl refl post_5-IsPosted post_7-IsPosted (omega arith) post_7_written refl refl
