-- ===== src/Tests/Agent.antt =====
-- Witnesses for the metrics agent: it starts with one container database, and a fetch finds another
-- behind one of another kind.
use swiftacular.Base.{
  ◌<◌, ◌≡◌, refl, some, true, is_some, [], ◌∷◌, String, ok, raise, os_error, arith, lookup, insert,
  text_of,
}
use swiftacular.Agent.{Agent, Db, Sight, get, name_of, start, simple_fetch, set}
use swiftacular.Agent.Metrics.{Sources}
use swiftacular.Agent.Serves.{started, Serves, IsListed, fetch_callback-Reached}
use swiftacular.Agent.Finds.{IsTracked, simple_fetch-IsTracked}
use swiftacular.Agent.Buckets.{Query, generate_named_bucket_query, bucket_at, above}
use swiftacular.Agent.Buckets.Ranges.{first_fit, generate_named_bucket_query-total}

abbrev sight_of : String → String → Sight
sight_of path account = record { path = path; info = ok ("c", account); now = 1700 }

abbrev first_db : Sight
first_db = sight_of "/srv/containers/a.db" "AUTH_a"

abbrev second_db : Sight
second_db = sight_of "/srv/containers/b.db" "AUTH_b"

abbrev other_db : Sight
other_db = sight_of "/srv/accounts/a.db" "AUTH_a"

abbrev unreadable : Sight
unreadable = record { path = "/srv/containers/x.db"; info = raise os_error; now = 1700 }

abbrev one_db : Agent
one_db = start (ok (first_db ∷ []))

abbrev sources : Sources
sources = record {
  bytes_used = λ path. ok 42;
  object_counts = λ path. ok (7 ∷ []);
  distribution = λ query path. ok (("0-1 KB", 7) ∷ []);
}

knows_first : 0 < one_db.next_id
unfolding start insert lookup set text_of
knows_first = omega arith

fetch_callback-Reached_example :
    (db : Db) × (get 0 one_db.id_to_db ≡ some db)
    × (db.id ≡ some 0)
    × (is_some (lookup db.path one_db.db_hashes) ≡ true)
    × IsListed 0 (name_of db) one_db.indom
    × Serves sources one_db 0 db
    × Serves sources (simple_fetch one_db (ok (second_db ∷ []))) 0 db
fetch_callback-Reached_example =
    fetch_callback-Reached sources one_db 0 (ok (second_db ∷ [])) (started (ok (first_db ∷ [])))
      knows_first

simple_fetch-IsTracked_example :
    IsTracked "/srv/containers/b.db"
      (simple_fetch one_db (ok (other_db ∷ second_db ∷ unreadable ∷ [])))
simple_fetch-IsTracked_example =
    simple_fetch-IsTracked one_db (other_db ∷ []) second_db (unreadable ∷ []) "c" "AUTH_b"
      (started (ok (first_db ∷ []))) ((("c", "AUTH_a"), refl), tt) refl refl refl

generate_named_bucket_query-total_example :
    (q : Query) × (generate_named_bucket_query (("small", 10) ∷ ("large", 20) ∷ []) ≡ ok q)
    × (bucket_at q 11 ≡ first_fit (("small", 10) ∷ ("large", 20) ∷ []) (above 20) 11)
generate_named_bucket_query-total_example =
    generate_named_bucket_query-total "small" 10 (("large", 20) ∷ []) 11
