-- ===== src/Agent/Instances.antt =====
-- The numbers of the tracked databases: one for each path, in the order in which they were found,
-- and never given again.
use mathlib.Core.List.{append-nil, append_assoc}
use swiftacular.Base.{
  ℕ, suc, ◌+◌, ◌≡◌, refl, sym, ◌∙◌, ap, subst, Bool, true, false, ◌||◌, some, List, [], ◌∷◌, ◌++◌,
  String, str_eq, eq_iff, arith, Result, ok, raise, >>=-eq-ok, is_some, ◌==◌, if◌then◌else◌,
  Bool-cases, inl, inr, lookup, lookup-insert, length, length-append, any,
}
use swiftacular.Agent.{
  Agent, Db, Sight, set, track, name_of, is_wanted, db_at, contains, add_db, add_each, add_dbs,
  registered, no_dbs, simple_fetch, start,
}

-- Databases by their numbers, from a first one on.
abbrev pub number : ℕ → List Db → List (ℕ × Db)
number n [] = []
number n (db ∷ dbs) = (n, db) ∷ number (suc n) dbs

abbrev pub names : ℕ → List Db → List (ℕ × String)
names n [] = []
names n (db ∷ dbs) = (n, name_of db) ∷ names (suc n) dbs

abbrev pub has_path : String → List Db → Bool
has_path path dbs = any (λ db. str_eq db.path path) dbs

-- No two have one path, and each has the number of its place.
abbrev pub AreNumbered : ℕ → List Db → Type 0
AreNumbered n [] = Unit
AreNumbered n (db ∷ dbs) =
    (has_path db.path dbs ≡ false) × (db.id ≡ some n) × AreNumbered (suc n) dbs

-- That an agent tracks just these databases.
pub record Tracks (dbs : List Db) (a : Agent) : Type 0 where
  pub by_id : a.id_to_db ≡ number 0 dbs
  pub instances : a.db_instances ≡ names 0 dbs
  pub next : a.next_id ≡ length dbs
  pub hashes : (path : String) → is_some (lookup path a.db_hashes) ≡ has_path path dbs
  pub numbered : AreNumbered 0 dbs

set-number :
    (n k : ℕ) (db : Db) (dbs : List Db)
    → k ≡ n + length dbs
    → set k db (number n dbs) ≡ number n (dbs ++ db ∷ [])
unfolding set
set-number n k db [] e = ap (λ j. (j, db) ∷ []) (omega arith)
set-number n k db (d ∷ dbs) e =
    let other : (n == k) ≡ false = ground arith in
    rw other (ap (λ l. (n, d) ∷ l) (set-number (suc n) k db dbs (omega arith)))

names-append :
    (n k : ℕ) (db : Db) (dbs : List Db)
    → k ≡ n + length dbs
    → names n dbs ++ (k, name_of db) ∷ [] ≡ names n (dbs ++ db ∷ [])
names-append n k db [] e = ap (λ j. (j, name_of db) ∷ []) (omega arith)
names-append n k db (d ∷ dbs) e =
    ap (λ l. (n, name_of d) ∷ l) (names-append (suc n) k db dbs (omega arith))

has_path-append :
    (path : String) (db : Db) (dbs : List Db)
    → has_path path (dbs ++ db ∷ []) ≡ (has_path path dbs || str_eq db.path path)
has_path-append path db [] = ground arith
has_path-append path db (d ∷ dbs) = ground (arith, has_path-append path db dbs)

AreNumbered-append :
    (n k : ℕ) (db : Db) (dbs : List Db)
    → k ≡ n + length dbs
    → db.id ≡ some k
    → has_path db.path dbs ≡ false
    → AreNumbered n dbs
    → AreNumbered n (dbs ++ db ∷ [])
AreNumbered-append n k db [] e id fresh h = (refl, id ∙ ap some (omega arith), tt)
AreNumbered-append n k db (d ∷ dbs) e id fresh (alone, id_d, rest) = (
  ground (arith, has_path-append d.path db dbs, eq_iff db.path d.path, eq_iff d.path db.path),
  id_d,
  AreNumbered-append (suc n) k db dbs (omega arith) id (ground arith) rest,
)

-- A database whose path is new gets the next number.
track-Tracks :
    (dbs : List Db) (a : Agent) (db : Db)
    → Tracks dbs a
    → has_path db.path dbs ≡ false
    → Tracks (dbs ++ record db { id = some a.next_id } ∷ []) (track a db)
unfolding track
track-Tracks dbs a db h fresh =
    let new = record db { id = some a.next_id } in
    record {
      by_id =
          ap (set a.next_id new) h.by_id ∙ set-number 0 a.next_id new dbs (omega (arith, h.next));
      instances =
          ap (λ l. l ++ (a.next_id, name_of new) ∷ []) h.instances
          ∙ names-append 0 a.next_id new dbs (omega (arith, h.next));
      next = omega (arith, h.next, length-append dbs (new ∷ []));
      hashes = λ path. ground (
        arith,
        lookup-insert db.path path true a.db_hashes,
        h.hashes path,
        has_path-append path new dbs,
      );
      numbered =
          AreNumbered-append 0 a.next_id new dbs (omega (arith, h.next)) refl fresh h.numbered;
    }

-- That an agent tracks these databases and perhaps more after them.
abbrev pub Extends : List Db → Agent → Type 0
Extends dbs a = (more : List Db) × Tracks (dbs ++ more) a

add_wanted :
    (dbs : List Db) (a : Agent) (sight : Sight) (container account : String)
    → Tracks dbs a
    → Extends dbs
        (if is_wanted a sight.path account then track a (db_at sight container account) else a)
add_wanted dbs a sight container account h = elim (Bool-cases (is_wanted a sight.path account)) [
  | inl wanted ↦
      let fresh : has_path sight.path dbs ≡ false = ground (arith, h.hashes sight.path) in
      rw wanted (
        record (db_at sight container account) { id = some a.next_id } ∷ [],
        track-Tracks dbs a (db_at sight container account) h fresh,
      )
  | inr other ↦ rw other ([], subst (λ l. Tracks l a) (sym (append-nil dbs)) h)
]

pub add_db-Extends :
    (dbs : List Db) (a : Agent) (sight : Sight) (a' : Agent)
    → Tracks dbs a
    → add_db a sight ≡ ok a'
    → Extends dbs a'
unfolding add_db
add_db-Extends dbs a sight a' h e = elim (Bool-cases (contains "containers" sight.path)) [
  | inl here ↦
      let ((container, account), got, is) =
        >>=-eq-ok sight.info
          (λ (container, account).
            ok (
              if is_wanted a sight.path account
              then track a (db_at sight container account)
              else a))
          ((rw here at e)) in
      subst (Extends dbs) (ground (arith, is)) (add_wanted dbs a sight container account h)
  | inr elsewhere ↦ (
    [],
    subst (λ l. Tracks l a') (sym (append-nil dbs))
        (subst (Tracks dbs) (ground (arith, rw elsewhere at e)) h),
  )
]

Extends-on : (dbs more : List Db) (a : Agent) → Extends (dbs ++ more) a → Extends dbs a
Extends-on dbs more a (rest, h) =
    (more ++ rest, subst (λ l. Tracks l a) (append_assoc dbs more rest) h)

-- A database that cannot be read ends the round, and what is tracked stays tracked.
add_one-Extends :
    (dbs : List Db) (a : Agent) (sight : Sight) (sights : List Sight) (out : Result Agent)
    → ((dbs' : List Db) (a' : Agent) → Tracks dbs' a' → Extends dbs' (add_each a' sights))
    → add_db a sight ≡ out
    → Tracks dbs a
    → Extends dbs (elim out as (λ x. Agent) [ ok a' ↦ add_each a' sights | raise e ↦ a ])
add_one-Extends dbs a sight sights (raise e) rest is h =
    ([], subst (λ l. Tracks l a) (sym (append-nil dbs)) h)
add_one-Extends dbs a sight sights (ok a') rest is h =
    let (more, h') = add_db-Extends dbs a sight a' h is in
    Extends-on dbs more (add_each a' sights) (rest (dbs ++ more) a' h')

pub add_each-Extends :
    (dbs : List Db) (a : Agent) (sights : List Sight)
    → Tracks dbs a
    → Extends dbs (add_each a sights)
unfolding add_each
add_each-Extends dbs a [] h = ([], subst (λ l. Tracks l a) (sym (append-nil dbs)) h)
add_each-Extends dbs a (sight ∷ sights) h =
    add_one-Extends dbs a sight sights (add_db a sight)
      (λ dbs' a' h'. add_each-Extends dbs' a' sights h') refl h

add_dbs-Extends :
    (dbs : List Db) (a : Agent) (found : Result (List Sight))
    → Tracks dbs a
    → Extends dbs (add_dbs a found)
unfolding add_dbs
add_dbs-Extends dbs a (raise e) h = ([], subst (λ l. Tracks l a) (sym (append-nil dbs)) h)
add_dbs-Extends dbs a (ok sights) h = add_each-Extends dbs a sights h

pub Tracks-registered : (dbs : List Db) (a : Agent) → Tracks dbs a → Tracks dbs (registered a)
Tracks-registered dbs a h = record {
  by_id = h.by_id;
  instances = h.instances;
  next = h.next;
  hashes = h.hashes;
  numbered = h.numbered;
}

pub simple_fetch-Extends :
    (dbs : List Db) (a : Agent) (found : Result (List Sight))
    → Tracks dbs a
    → Extends dbs (simple_fetch a found)
unfolding simple_fetch
simple_fetch-Extends dbs a found h =
    let (more, h') = add_dbs-Extends dbs a found h in
    (more, Tracks-registered (dbs ++ more) (add_dbs a found) h')

pub start-Tracks : (found : Result (List Sight)) → (dbs : List Db) × Tracks dbs (start found)
unfolding start lookup
start-Tracks found =
    let none_yet : Tracks [] no_dbs = record {
      by_id = refl;
      instances = refl;
      next = refl;
      hashes = λ path. refl;
      numbered = tt;
    } in
    let (dbs, h) = add_dbs-Extends [] no_dbs found none_yet in
    (dbs, Tracks-registered dbs (add_dbs no_dbs found) h)
