-- ===== src/Agent/Metrics.antt =====
-- pmdaswiftdbinfo.py: the metrics of a tracked database, and `fetch_callback`, which answers for one
-- metric of one instance.
use Prim.Native.String.{◌++◌ as cat}
use swiftacular.Base.{
  ℕ, List, [], ◌∷◌, String, Result, ok, raise, key_error, index_error, ◌>>=◌, expect, leb, ◌==◌,
  if◌then◌else◌, Dict, insert, text_of,
}
use swiftacular.Agent.{Agent, Db, get}
use swiftacular.Agent.Buckets.{Query, generate_named_bucket_query}

-- What is asked of a database: `ContainerBroker(path).get_info()["bytes_used"]`, and the rows of the
-- two queries.
pub record Sources : Type 0 where
  pub bytes_used : String → Result ℕ
  pub object_counts : String → Result (List ℕ)
  pub distribution : Query → String → Result (List (String × ℕ))

pub data Value : Type 0 where
  number : ℕ → Value
  text : String → Value
  err_inst : Value

-- The value and the status.
abbrev pub Answer : Type 0
Answer = Value × ℕ

abbrev pub bucket_dict : List (String × ℕ)
bucket_dict =
    ("0-1 KB", 1024)
    ∷ ("1-10 KB", 10240)
    ∷ ("10-100 KB", 102400)
    ∷ ("100 KB - 1 MB", 1048576)
    ∷ ("1 MB - 10 MB", 10485760)
    ∷ ("10 MB - 25 MB", 26214400)
    ∷ ("25 MB - 50 MB", 52428800)
    ∷ ("50 MB - 100 MB", 104857600)
    ∷ ("100 MB - 500 MB", 524288000)
    ∷ ("500 MB - 1 GB", 1073741824)
    ∷ ("1 GB - 5 GB", 5368709120)
    ∷ []

unfoldable pub zeros : List (String × ℕ) → Dict ℕ
zeros [] = []
zeros ((name, upper_bound) ∷ buckets) = (name, 0) ∷ zeros buckets

unfoldable pub with_rows : Dict ℕ → List (String × ℕ) → Dict ℕ
with_rows counts [] = counts
with_rows counts ((name, n) ∷ rows) = with_rows (insert name n counts) rows

-- `", ".join(f"{a[0]}={a[1]}" ...)`
unfoldable pub joined : Dict ℕ → String
joined [] = ""
joined ((name, n) ∷ []) = cat name (cat "=" (text_of n))
joined ((name, n) ∷ next ∷ counts) =
    cat name (cat "=" (cat (text_of n) (cat ", " (joined (next ∷ counts)))))

module _ (sources : Sources) where
  open sources use {bytes_used, object_counts, distribution}

  unfoldable pub get_db_size : Db → Result Answer
  get_db_size db = do n ← bytes_used db.path; ok (Value.number n, 1)

  abbrev first_row : List ℕ → Result ℕ
  first_row [] = raise index_error
  first_row (n ∷ rows) = ok n

  unfoldable pub get_object_count : Db → Result Answer
  get_object_count db = do rows ← object_counts db.path; n ← first_row rows; ok (Value.number n, 1)

  unfoldable pub get_object_distribution : Db → Result Answer
  unfolding zeros with_rows joined generate_named_bucket_query
  get_object_distribution db = do
    query ← generate_named_bucket_query bucket_dict
    rows ← distribution query db.path
    ok (Value.text (joined (with_rows (zeros bucket_dict) rows)), 1)

  -- `metric_to_callbacks[item]`
  abbrev pub metric : ℕ → Db → Result Answer
  metric item db =
      if item == 0
      then get_db_size db
      else if item == 1
      then get_object_count db
      else get_object_distribution db

  abbrev pub answered : Result Answer → Answer
  answered (ok answer) = answer
  answered (raise e) = (Value.number 0, 0)

  unfoldable pub fetch_callback : Agent → ℕ → ℕ → Answer
  unfolding get get_db_size get_object_count get_object_distribution
  fetch_callback a item inst =
      if leb a.next_id inst
      then (Value.err_inst, 0)
      else if leb 3 item
      then (Value.number 0, 0)
      else answered (do db ← expect key_error (get inst a.id_to_db); metric item db)
