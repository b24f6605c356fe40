-- ===== src/Agent/Serves.antt =====
-- What the agent serves of the instances that it has registered, over all of its life.
use swiftacular.Base.{
  subst, sym, lookup, is_some, String, eq_refl, ◌⊎◌, true, ℕ, suc, ◌+◌, ◌<◌, ◌≤◌, ◌≡◌, refl, ◌∙◌,
  ap, false, some, List, [], ◌∷◌, ◌++◌, arith, Result, leb, ◌==◌, length, length-append, Bool-cases,
  inl, inr,
}
use swiftacular.Agent.{Agent, Db, Sight, name_of, get, simple_fetch, start}
use swiftacular.Agent.Instances.{
  Tracks, has_path, AreNumbered, number, names, simple_fetch-Extends, start-Tracks,
}
use swiftacular.Agent.Metrics.{
  Sources, get_db_size, get_object_count, get_object_distribution, answered, fetch_callback,
}

-- The states of an agent: it starts, and fetches.
pub data Reached : Agent → Type 0 where
  started : (found : Result (List Sight)) → Reached (start found)
  fetched : (a : Agent) (found : Result (List Sight)) → Reached a → Reached (simple_fetch a found)

-- The instance domain lists the tracked databases, each under its number and name.
pub record IsRegistered (a : Agent) : Type 0 where
  pub dbs : List Db
  pub tracks : Tracks dbs a
  pub domain : a.indom ≡ names 0 dbs

pub Reached-IsRegistered : (a : Agent) → Reached a → IsRegistered a
unfolding start simple_fetch
Reached-IsRegistered a (started found) =
    let (dbs, h) = start-Tracks found in record { dbs = dbs; tracks = h; domain = h.instances }
Reached-IsRegistered a (fetched before found reached) =
    let r = Reached-IsRegistered before reached in
    let (more, h) = simple_fetch-Extends r.dbs before found r.tracks in
    record { dbs = r.dbs ++ more; tracks = h; domain = h.instances }

-- An instance domain has a name under a number.
abbrev pub IsListed : ℕ → String → List (ℕ × String) → Type 0
IsListed k name [] = ⊥
IsListed k name ((j, other) ∷ rest) = ((j ≡ k) × (other ≡ name)) ⊎ IsListed k name rest

get-number :
    (n k : ℕ) (dbs : List Db)
    → n ≤ k
    → k < n + length dbs
    → AreNumbered n dbs
    → (db : Db) × (get k (number n dbs) ≡ some db)
      × (db.id ≡ some k)
      × (has_path db.path dbs ≡ true)
      × IsListed k (name_of db) (names n dbs)
unfolding get
get-number n k [] from upto h = absurd (omega arith)
get-number n k (db ∷ dbs) from upto (alone, id, rest) = elim (Bool-cases (n == k)) [
  | inl same ↦
      let e : n ≡ k = ground arith in
      rw same (db, refl, id ∙ ap some e, ground (arith, eq_refl db.path), inl (e, refl))
  | inr other ↦
      let (found, is, its, path, name) =
        get-number (suc n) k dbs (ground arith) (omega arith) rest in
      rw other (found, is, its, ground (arith, path), inr name)
]

get-number_append :
    (n k : ℕ) (dbs more : List Db)
    → n ≤ k
    → k < n + length dbs
    → get k (number n (dbs ++ more)) ≡ get k (number n dbs)
unfolding get
get-number_append n k [] more from upto = absurd (omega arith)
get-number_append n k (db ∷ dbs) more from upto = elim (Bool-cases (n == k)) [
  | inl same ↦ rw same refl
  | inr other ↦ rw other (get-number_append (suc n) k dbs more (ground arith) (omega arith))
]

-- The three metrics of an instance are those of one database.
abbrev pub Serves : Sources → Agent → ℕ → Db → Type 0
Serves sources a inst db =
    (fetch_callback sources a 0 inst ≡ answered sources (get_db_size sources db))
    × (fetch_callback sources a 1 inst ≡ answered sources (get_object_count sources db))
    × (fetch_callback sources a 2 inst ≡ answered sources (get_object_distribution sources db))

serves :
    (sources : Sources) (a : Agent) (inst : ℕ) (db : Db)
    → inst < a.next_id
    → get inst a.id_to_db ≡ some db
    → Serves sources a inst db
unfolding fetch_callback
serves sources a inst db known is =
    let k : leb a.next_id inst ≡ false = ground arith in
    (rw (k, is) refl, rw (k, is) refl, rw (k, is) refl)

-- However an agent has come to its state, each number below its next one belongs to a database: the
-- one that id_to_db has under the number, whose id is the number, whose path db_hashes knows and whose
-- name the registered instance domain lists under the number; and the three metrics of an instance of
-- that number are those of this one database, now and after a further fetch, whatever that fetch finds.
pub fetch_callback-Reached :
    (sources : Sources) (a : Agent) (inst : ℕ) (found : Result (List Sight))
    → Reached a
    → inst < a.next_id
    → (db : Db) × (get inst a.id_to_db ≡ some db)
      × (db.id ≡ some inst)
      × (is_some (lookup db.path a.db_hashes) ≡ true)
      × IsListed inst (name_of db) a.indom
      × Serves sources a inst db
      × Serves sources (simple_fetch a found) inst db
fetch_callback-Reached sources a inst found reached known =
    let r = Reached-IsRegistered a reached in
    let (db, is, id, path, name) =
      get-number 0 inst r.dbs (omega arith) (omega (arith, r.tracks.next)) r.tracks.numbered in
    let (more, h) = simple_fetch-Extends r.dbs a found r.tracks in
    let later : get inst (simple_fetch a found).id_to_db ≡ some db =
      ap (get inst) h.by_id
      ∙ get-number_append 0 inst r.dbs more (omega arith) (omega (arith, r.tracks.next))
      ∙ is in
    let here : get inst a.id_to_db ≡ some db = ap (get inst) r.tracks.by_id ∙ is in
    (
      db,
      here,
      id,
      r.tracks.hashes db.path ∙ path,
      subst (IsListed inst (name_of db)) (sym r.domain) name,
      serves sources a inst db known here,
      serves sources (simple_fetch a found) inst db
          (omega (arith, h.next, r.tracks.next, length-append r.dbs more)) later,
    )
