-- ===== src/Agent/Buckets/Ranges.antt =====
-- The ranges of the bucket query leave no gap and do not overlap.
use swiftacular.Base.{
  ℕ, ◌+◌, ◌≤◌, ◌≡◌, refl, true, List, [], ◌∷◌, String, ok, arith, leb, if◌then◌else◌, Bool-cases,
  inl, inr,
}
use swiftacular.Agent.Buckets.{
  Query, whens_from, bucket_in, bucket_at, generate_named_bucket_query, above, last_bound,
}

-- The first bucket whose bound a size does not pass.
abbrev pub first_fit : List (String × ℕ) → String → ℕ → String
first_fit [] otherwise size = otherwise
first_fit ((name, upper_bound) ∷ buckets) otherwise size =
    let rest = first_fit buckets otherwise size in if leb size upper_bound then name else rest

bucket_in-whens_from :
    (first : ℕ) (buckets : List (String × ℕ)) (otherwise : String) (size : ℕ)
    → first ≤ size
    → bucket_in (whens_from first buckets) otherwise size ≡ first_fit buckets otherwise size
unfolding bucket_in whens_from
bucket_in-whens_from first [] otherwise size h = refl
bucket_in-whens_from first ((name, upper_bound) ∷ buckets) otherwise size h =
    let from : leb first size ≡ true = ground arith in
    elim (Bool-cases (leb size upper_bound)) [
      | inl fits ↦ rw (from, fits) refl
      | inr past ↦
          rw (from, past)
            (bucket_in-whens_from (upper_bound + 1) buckets otherwise size (ground arith))
    ]

-- The query of any buckets, one at least, counts an object of any size under the first bucket whose
-- upper bound the size does not pass, and under "Above" and the last bound where it passes them all.
pub generate_named_bucket_query-total :
    (name : String) (upper_bound : ℕ) (buckets : List (String × ℕ)) (size : ℕ)
    → (q : Query) × (generate_named_bucket_query ((name, upper_bound) ∷ buckets) ≡ ok q)
      × (bucket_at q size
          ≡ first_fit ((name, upper_bound) ∷ buckets) (above (last_bound upper_bound buckets)) size)
unfolding generate_named_bucket_query
generate_named_bucket_query-total name upper_bound buckets size = (
  _,
  refl,
  bucket_in-whens_from 0 ((name, upper_bound) ∷ buckets) (above (last_bound upper_bound buckets))
      size (omega arith),
)
