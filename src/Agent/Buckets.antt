-- ===== src/Agent/Buckets.antt =====
-- `generate_named_bucket_query` of pmdaswiftdbinfo.py, as the clauses of its CASE expressions, and
-- its text. `bucket_at` is what SQL makes of the CASE: the first WHEN that holds, BETWEEN with both
-- ends.
pub mod Ranges
use Prim.Native.String.{◌++◌ as cat}
use swiftacular.Base.{
  ℕ, suc, ◌+◌, Bool, true, false, ◌&&◌, List, [], ◌∷◌, ◌++◌, String, Result, ok, raise, name_error,
  leb, if◌then◌else◌, length, text_of,
}

-- `WHEN size BETWEEN {low} AND {high} THEN '{bucket}'`
pub record When : Type 0 where
  pub low : ℕ
  pub high : ℕ
  pub bucket : String

pub record Query : Type 0 where
  pub whens : List When
  pub otherwise : String
  -- `WHEN Bucket = '{name}' THEN {i + 1}`
  pub order : List (String × ℕ)
  pub last_order : ℕ

unfoldable pub whens_from : ℕ → List (String × ℕ) → List When
whens_from first [] = []
whens_from first ((name, upper_bound) ∷ buckets) =
    record { low = first; high = upper_bound; bucket = name } ∷ whens_from (upper_bound + 1) buckets

unfoldable pub order_from : ℕ → List (String × ℕ) → List (String × ℕ)
order_from i [] = []
order_from i ((name, upper_bound) ∷ buckets) = (name, i + 1) ∷ order_from (i + 1) buckets

-- The bound of the last bucket, which the loop leaves in `upper_bound`.
abbrev pub last_bound : ℕ → List (String × ℕ) → ℕ
last_bound bound [] = bound
last_bound bound ((name, upper_bound) ∷ buckets) = last_bound upper_bound buckets

abbrev pub above : ℕ → String
above upper_bound = cat "Above " (text_of upper_bound)

-- Without a bucket `upper_bound` has no value after the loop.
unfoldable pub generate_named_bucket_query : List (String × ℕ) → Result Query
unfolding whens_from order_from
generate_named_bucket_query [] = raise name_error
generate_named_bucket_query ((name, upper_bound) ∷ buckets) = ok (record {
  whens = whens_from 0 ((name, upper_bound) ∷ buckets);
  otherwise = above (last_bound upper_bound buckets);
  order = order_from 0 ((name, upper_bound) ∷ buckets);
  last_order = length ((name, upper_bound) ∷ buckets) + 1;
})

-- The text of the query.
unfoldable pub text_of_whens : List When → String
text_of_whens [] = ""
text_of_whens (w ∷ whens) =
    cat
      (cat "WHEN size BETWEEN " (
        cat (text_of w.low)
          (cat " AND " (cat (text_of w.high) (cat " THEN '" (cat w.bucket "' "))))))
      (text_of_whens whens)

unfoldable pub text_of_order : List (String × ℕ) → String
text_of_order [] = ""
text_of_order ((name, i) ∷ []) = cat "WHEN Bucket = '" (cat name (cat "' THEN " (text_of i)))
text_of_order ((name, i) ∷ next ∷ order) =
    cat "WHEN Bucket = '"
      (cat name (cat "' THEN " (cat (text_of i) (cat " " (text_of_order (next ∷ order))))))

unfoldable pub text_of_query : Query → String
unfolding text_of_whens text_of_order
text_of_query q = cat "\nSELECT\n    CASE " (
    cat (text_of_whens q.whens) (
      cat "ELSE '" (
        cat q.otherwise (
          cat
            "' END AS Bucket,\n    COUNT(*) AS NumberOfObjects\nFROM object\nGROUP BY Bucket\nORDER BY\n    CASE "
            (cat (text_of_order q.order) (cat " ELSE " (cat (text_of q.last_order) " END;\n")))))))

unfoldable pub bucket_in : List When → String → ℕ → String
bucket_in [] otherwise size = otherwise
bucket_in (w ∷ whens) otherwise size =
    let rest = bucket_in whens otherwise size in
    if leb w.low size && leb size w.high then w.bucket else rest

abbrev pub bucket_at : Query → ℕ → String
bucket_at q size = bucket_in q.whens q.otherwise size
