-- ===== src/Agent/Finds.antt =====
-- A container database that `find` lists is taken up, if those before it can be read.
use swiftacular.Base.{
  ℕ, suc, ◌+◌, ◌<◌, ◌≡◌, refl, sym, ◌∙◌, ap, subst, true, false, some, List, [], ◌∷◌, ◌++◌, String,
  str_eq, eq_iff, eq_refl, arith, ok, raise, is_some, if◌then◌else◌, ◌==◌, Bool-cases, inl, inr,
  lookup, lookup-insert, length, All,
}
use swiftacular.Agent.{
  Agent, Db, Sight, get, track, is_wanted, db_at, contains, add_db, add_each, add_dbs, simple_fetch,
}
use swiftacular.Agent.Instances.{Tracks, number, has_path, add_each-Extends, add_db-Extends}
use swiftacular.Agent.Serves.{Reached, Reached-IsRegistered}

abbrev pub IsReadable : Sight → Type 0
IsReadable sight = (names : String × String) × (sight.info ≡ ok names)

add_db-total :
    (a : Agent) (sight : Sight) → IsReadable sight → (a' : Agent) × (add_db a sight ≡ ok a')
unfolding add_db
add_db-total a sight ((container, account), e) =
    elim (Bool-cases (contains "containers" sight.path)) [
      | inl here ↦ (
        if is_wanted a sight.path account then track a (db_at sight container account) else a,
        rw (here, e) refl,
      )
      | inr elsewhere ↦ (a, rw elsewhere refl)
    ]

add_each-cons :
    (a a1 : Agent) (sight : Sight) (rest : List Sight)
    → add_db a sight ≡ ok a1
    → add_each a (sight ∷ rest) ≡ add_each a1 rest
unfolding add_each
add_each-cons a a1 sight rest e =
    ap (λ out. elim out as (λ x. Agent) [ ok a' ↦ add_each a' rest | raise e ↦ a ]) e

-- A round over the databases before one, and the rest of the round.
add_each-append :
    (dbs : List Db) (a : Agent) (before rest : List Sight)
    → Tracks dbs a
    → All IsReadable before
    → (a' : Agent) × (add_each a (before ++ rest) ≡ add_each a' rest)
      × ((dbs' : List Db) × Tracks dbs' a')
unfolding add_each
add_each-append dbs a [] rest h readable = (a, refl, (dbs, h))
add_each-append dbs a (sight ∷ before) rest h (now, later) =
    let (a1, e1) = add_db-total a sight now in
    let (more, h1) = add_db-Extends dbs a sight a1 h e1 in
    let (a2, e2, h2) = add_each-append (dbs ++ more) a1 before rest h1 later in
    (a2, add_each-cons a a1 sight (before ++ rest) e1 ∙ e2, h2)

add_db-known :
    (a : Agent) (sight : Sight) (container account : String)
    → contains "containers" sight.path ≡ true
    → sight.info ≡ ok (container, account)
    → contains "expiring" account ≡ false
    → (a' : Agent) × (add_db a sight ≡ ok a') × (is_some (lookup sight.path a'.db_hashes) ≡ true)
unfolding add_db track
add_db-known a sight container account here e lasting =
    elim (Bool-cases (is_some (lookup sight.path a.db_hashes))) [
      | inl old ↦ (a, rw (here, e, old) refl, old)
      | inr new ↦ (
        track a (db_at sight container account),
        rw (here, e, new, lasting) refl,
        rw (lookup-insert, eq_refl) refl,
      )
    ]

has_path_on :
    (path : String) (dbs more : List Db)
    → has_path path dbs ≡ true
    → has_path path (dbs ++ more) ≡ true
has_path_on path [] more h = absurd (ground arith)
has_path_on path (db ∷ dbs) more h = elim (Bool-cases (str_eq db.path path)) [
  | inl same ↦ rw same refl
  | inr other ↦ rw other (has_path_on path dbs more (rw other at h))
]

-- The number of a database that is tracked.
number_of :
    (n : ℕ) (path : String) (dbs : List Db)
    → has_path path dbs ≡ true
    → (k : ℕ) × (db : Db) × (k < length dbs)
      × (get (n + k) (number n dbs) ≡ some db)
      × (db.path ≡ path)
unfolding get
number_of n path [] h = absurd (ground arith)
number_of n path (db ∷ dbs) h = elim (Bool-cases (str_eq db.path path)) [
  | inl same ↦
      let here : (n == (n + 0)) ≡ true = ground arith in
      (0, db, omega arith, rw here refl, (eq_iff db.path path).0 same)
  | inr other ↦
      let (k, found, lt, is, at_path) = number_of (suc n) path dbs (rw other at h) in
      let before : (n == (n + suc k)) ≡ false = ground arith in
      let same : n + suc k ≡ suc n + k = omega arith in
      (
        suc k,
        found,
        omega arith,
        rw before (ap (λ j. get j (number (suc n) dbs)) same ∙ is),
        at_path,
      )
]

-- That the agent has the path's database, under a number that it serves.
abbrev pub IsTracked : String → Agent → Type 0
IsTracked path a =
    (inst : ℕ) × (db : Db) × (inst < a.next_id) × (get inst a.id_to_db ≡ some db) × (db.path ≡ path)

Tracks-IsTracked :
    (dbs more : List Db) (a : Agent) (path : String)
    → Tracks (dbs ++ more) a
    → has_path path dbs ≡ true
    → IsTracked path a
Tracks-IsTracked dbs more a path h has =
    let (inst, db, lt, is, at_path) =
      number_of 0 path (dbs ++ more) (has_path_on path dbs more has) in
    (
      inst,
      db,
      omega (arith, h.next),
      ap (get inst) h.by_id ∙ ap (λ k. get k (number 0 (dbs ++ more))) (omega arith) ∙ is,
      at_path,
    )

added :
    (dbs : List Db) (a : Agent) (before : List Sight) (sight : Sight) (later : List Sight)
    → (container account : String) → Tracks dbs a
    → All IsReadable before
    → contains "containers" sight.path ≡ true
    → sight.info ≡ ok (container, account)
    → contains "expiring" account ≡ false
    → IsTracked sight.path (add_each a (before ++ sight ∷ later))
added dbs a before sight later container account h readable here e lasting =
    let (a1, e1, (dbs1, h1)) = add_each-append dbs a before (sight ∷ later) h readable in
    let (a2, e2, known) = add_db-known a1 sight container account here e lasting in
    let (more, h2) = add_db-Extends dbs1 a1 sight a2 h1 e2 in
    let (more', h3) = add_each-Extends (dbs1 ++ more) a2 later h2 in
    let has : has_path sight.path (dbs1 ++ more) ≡ true = sym (h2.hashes sight.path) ∙ known in
    subst (IsTracked sight.path) (sym (e1 ∙ add_each-cons a1 a2 sight later e2))
      (Tracks-IsTracked (dbs1 ++ more) more' (add_each a2 later) sight.path h3 has)

-- However an agent has come to its state, a fetch takes up each container database that `find` lists
-- and that is not one of expiring objects, if it and the databases listed before it can be read: the
-- agent then has it under a number that it serves, whatever is listed later.
pub simple_fetch-IsTracked :
    (a : Agent) (before : List Sight) (sight : Sight) (later : List Sight)
    (container account : String)
    → Reached a
    → All IsReadable before
    → contains "containers" sight.path ≡ true
    → sight.info ≡ ok (container, account)
    → contains "expiring" account ≡ false
    → IsTracked sight.path (simple_fetch a (ok (before ++ sight ∷ later)))
unfolding simple_fetch add_dbs
simple_fetch-IsTracked a before sight later container account reached readable here e lasting =
    let r = Reached-IsRegistered a reached in
    added r.dbs a before sight later container account r.tracks readable here e lasting
