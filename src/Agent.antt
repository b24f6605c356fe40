-- ===== src/Agent.antt =====
-- monitoring/pdmas/swiftdbinfo/pmdaswiftdbinfo.py: the agent that finds the container databases of a
-- storage node, numbers them, and serves three metrics of each to Performance Co-Pilot. What `find`,
-- `ContainerBroker` and sqlite say is given.
pub mod Instances
pub mod Buckets
pub mod Metrics
pub mod Serves
pub mod Finds
use Prim.Native.String.{◌++◌ as cat}
use text.Mathlib.Text.{find?}
use swiftacular.Base.{
  ℕ, suc, ◌+◌, ◌≡◌, Bool, true, false, not, ◌&&◌, ◌||◌, Option, none, some, List, [], ◌∷◌, ◌++◌,
  String, Error, Result, ok, raise, ◌>>=◌, is_some, leb, ◌==◌, if◌then◌else◌, Dict, lookup, insert,
  text_of,
}

abbrev pub should_track_expiring_objects : Bool
should_track_expiring_objects = false

pub record Db : Type 0 where
  pub path : String
  pub container : String
  pub account : String
  pub discovery_time : ℕ
  pub id : Option ℕ

-- `str(db)`
unfoldable pub name_of : Db → String
name_of db = cat (text_of db.discovery_time) (cat "__" (cat db.container (cat "__" db.account)))

pub record Agent : Type 0 where
  pub id_to_db : List (ℕ × Db)
  pub db_hashes : Dict Bool
  pub db_instances : List (ℕ × String)
  pub next_id : ℕ
  -- the instance domain as it was last registered
  pub indom : List (ℕ × String)

-- A path that `find` lists, the container and account that its database names, and the clock.
pub record Sight : Type 0 where
  pub path : String
  pub info : Result (String × String)
  pub now : ℕ

abbrev pub contains : String → String → Bool
contains part text = is_some (find? text part)

-- `d[k]` of a dict with numbers as keys
unfoldable pub get : ℕ → List (ℕ × Db) → Option Db
get k [] = none
get k ((j, db) ∷ rest) = if j == k then some db else get k rest

unfoldable pub set : ℕ → Db → List (ℕ × Db) → List (ℕ × Db)
set k db [] = (k, db) ∷ []
set k db ((j, old) ∷ rest) =
    let later = set k db rest in if j == k then (j, db) ∷ rest else (j, old) ∷ later

unfoldable pub track : Agent → Db → Agent
unfolding set name_of
track a found =
    let db = record found { id = some a.next_id } in
    record a {
      db_hashes = insert db.path true a.db_hashes;
      id_to_db = set a.next_id db a.id_to_db;
      db_instances = a.db_instances ++ (a.next_id, name_of db) ∷ [];
      next_id = suc a.next_id;
    }

-- Whether a database is taken up: it is not tracked yet, and is not one of expiring objects.
abbrev pub is_wanted : Agent → String → String → Bool
is_wanted a path account =
    not (is_some (lookup path a.db_hashes))
    && (not (contains "expiring" account) || should_track_expiring_objects)

abbrev pub db_at : Sight → String → String → Db
db_at sight container account = record {
  path = sight.path;
  container = container;
  account = account;
  discovery_time = sight.now;
  id = none;
}

unfoldable pub add_db : Agent → Sight → Result Agent
unfolding track
add_db a sight =
    if contains "containers" sight.path
    then (do
      (container, account) ← sight.info
      ok (if is_wanted a sight.path account then track a (db_at sight container account) else a))
    else ok a

-- An exception ends the round, and what was taken up before it stays.
unfoldable pub add_each : Agent → List Sight → Agent
unfolding add_db
add_each a [] = a
add_each a (sight ∷ sights) = elim (add_db a sight) [ ok a' ↦ add_each a' sights | raise e ↦ a ]

unfoldable pub add_dbs : Agent → Result (List Sight) → Agent
unfolding add_each
add_dbs a (raise e) = a
add_dbs a (ok sights) = add_each a sights

-- `clear_indoms`, `add_indom`
abbrev pub registered : Agent → Agent
registered a = record a { indom = a.db_instances }

-- `simple_fetch`
unfoldable pub simple_fetch : Agent → Result (List Sight) → Agent
unfolding add_dbs
simple_fetch a found = registered (add_dbs a found)

abbrev pub no_dbs : Agent
no_dbs = record { id_to_db = []; db_hashes = []; db_instances = []; next_id = 0; indom = [] }

-- `__init__`
unfoldable pub start : Result (List Sight) → Agent
unfolding add_dbs
start found = registered (add_dbs no_dbs found)

-- `simple_label_callback`, for an instance of the agent's domain: the label `swift_db_name`.
unfoldable pub simple_label_callback : Agent → Bool → ℕ → Dict String
unfolding get name_of
simple_label_callback a own_domain inst = if own_domain then labels (get inst a.id_to_db) else []
  where
    labels : Option Db → Dict String
    labels none = []
    labels (some db) = ("swift_db_name", name_of db) ∷ []
