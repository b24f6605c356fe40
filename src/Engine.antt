-- ===== src/Engine.antt =====
-- bluestore/src/injection: an Object is one entry of the store, and its state says what may be
-- done with it. What the store holds for an Object stands in the Object itself: a rename takes the
-- content along. Transactions are prepared in order and submitted later; a call here is its effect
-- once it is submitted.
use swiftacular.Base.{
  ℕ, Bool, true, false, not, Option, List, [], ◌∷◌, ◌++◌, String, str_eq, Result, ok, state_error,
  conflict_error, invalid_argument, ◌>>◌, guard, or_else, leb, take, drop,
}
use swiftacular.Metadata.{Blob}

pub data State : Type 0 where
  pre_search in_search missing pre_write in_write active old : State

abbrev pub Bytes : Type 0
Bytes = List ℕ

-- `written` is what `Object::write` has appended; `header` is the metadata.
pub record Object : Type 0 where
  pub name : String
  pub ts : ℕ
  pub deleted : Bool
  pub state : State
  pub written : Bytes
  pub header : Blob

abbrev pub is_in : State → List State → Bool
is_in s [] = false
is_in pre_search (pre_search ∷ l) = true
is_in in_search (in_search ∷ l) = true
is_in missing (missing ∷ l) = true
is_in pre_write (pre_write ∷ l) = true
is_in in_write (in_write ∷ l) = true
is_in active (active ∷ l) = true
is_in old (old ∷ l) = true
is_in s (t ∷ l) = is_in s l

unfoldable pub require : Object → List State → Result (Unit {0})
require o allowed = guard (is_in o.state allowed) state_error

-- `Backend::create`; `now` is what `estimate` returns.
unfoldable pub create : String → Option ℕ → ℕ → Object
create name ts now = record {
  name = name;
  ts = or_else now ts;
  deleted = false;
  state = pre_write;
  written = [];
  header = Blob.garbled;
}

-- `Object::write`
unfoldable pub write : Object → Bytes → Result Object
unfolding require
write o bytes = do
  require o (pre_write ∷ in_write ∷ [])
  ok (record o { state = in_write; written = o.written ++ bytes })

abbrev pub started : State → State
started pre_write = in_write
started s = s

-- `Object::write_metadata`
unfoldable pub write_metadata : Object → Blob → Result Object
unfolding require
write_metadata o blob = do
  require o (pre_write ∷ in_write ∷ active ∷ [])
  ok (record o { state = started o.state; header = blob })

-- `Object::tombstone`
unfoldable pub tombstone : Object → Blob → Result Object
unfolding require write_metadata
tombstone o blob = do require o (pre_write ∷ []); write_metadata (record o { deleted = true }) blob

abbrev pub retired : State → State
retired active = old
retired s = s

-- `Backend::put`: `next` takes the name from `prev` in one transaction, if it is newer. Both are
-- of one backend here.
unfoldable pub put : Object → Object → Option ℕ → Result (Object × Object)
unfolding require
put next prev ts = do
  require next (in_write ∷ [])
  require prev (active ∷ missing ∷ [])
  guard (str_eq next.name prev.name) invalid_argument
  guard (not (leb (or_else next.ts ts) prev.ts)) conflict_error
  ok (
    record next { state = active; ts = or_else next.ts ts },
    record prev { state = retired prev.state },
  )

-- `Object::open` of a name that the store does not hold.
unfoldable pub absent : String → Object
absent name = record {
  name = name;
  ts = 0;
  deleted = false;
  state = missing;
  written = [];
  header = Blob.garbled;
}

-- `Object::read`: the bytes of the range that are there.
unfoldable pub read : Object → ℕ → ℕ → Result Bytes
unfolding require
read o offset size = do require o (active ∷ old ∷ []); ok (take size (drop offset o.written))
