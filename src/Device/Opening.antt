-- ===== src/Device/Opening.antt =====
-- The two loops of device.py that wait while others run: `open` and `read_metadata`. A turn is what
-- the loop finds between two waits; the list of turns is one course of events, and `none` says that
-- the loop still runs when it ends.
pub mod Whole
pub mod Current
use swiftacular.Base.{
  ℕ, ◌+◌, ◌≡◌, Bool, true, false, not, Option, none, some, List, [], ◌∷◌, ◌++◌, Result, ok, raise,
  ltb, ◌==◌, if◌then◌else◌, length, take, drop,
}
use swiftacular.Metadata.{Entry}
use swiftacular.Engine.{Bytes}

-- A read of one chunk of metadata: what the store holds when it is made, and the version that the
-- Object has afterwards.
pub record ReadTurn : Type 0 where
  pub header : Bytes
  pub version : ℕ

abbrev pub chunk_of : ℕ → Bytes → ReadTurn → Bytes
chunk_of chunk_size read_so_far turn = take chunk_size (drop (length read_so_far) turn.header)

-- The loop of `read_metadata`: a change of version starts the read again.
unfoldable pub read_loop : ℕ → ℕ → Bytes → List ReadTurn → Option Bytes
read_loop chunk_size version read_so_far [] = none
read_loop chunk_size version read_so_far (turn ∷ turns) =
    let chunk = chunk_of chunk_size read_so_far turn in
    let again = read_loop chunk_size turn.version [] turns in
    let on = read_loop chunk_size version (read_so_far ++ chunk) turns in
    if not (turn.version == version)
    then again
    else if ltb (length chunk) chunk_size
    then some (read_so_far ++ chunk)
    else on

-- What the map has for the name: nothing, a search that runs, or an Object, by its identity.
pub data Slot : Type 0 where
  empty finding : Slot
  resolved : ℕ → Slot

-- A round of `open`: the slot, how the wait for a search ends, whether the Object there is missing, how
-- a read of its metadata ends, and the slot after that read.
pub record OpenTurn : Type 0 where
  pub slot : Slot
  pub search : Result (Unit {0})
  pub missing : Bool
  pub read : Result Entry
  pub slot_after : Slot

abbrev pub is_object : ℕ → Slot → Bool
is_object o empty = false
is_object o finding = false
is_object o (resolved p) = o == p

-- `if self.objects.get(name) is not obj: continue`
unfoldable pub after_read :
    ℕ
    → Slot
    → Result Entry
    → Option (Result (ℕ × Option Entry))
    → Option (Result (ℕ × Option Entry))
after_read o slot (raise e) rest = some (raise e)
after_read o slot (ok entry) rest = if is_object o slot then some (ok (o, some entry)) else rest

-- `obj.wait()` raises what the search has raised.
abbrev pub after_wait :
    Result (Unit {0}) → Option (Result (ℕ × Option Entry)) → Option (Result (ℕ × Option Entry))
after_wait (raise e) rest = some (raise e)
after_wait (ok done) rest = rest

unfoldable pub open_turn :
    Bool → OpenTurn → Slot → Option (Result (ℕ × Option Entry)) → Option (Result (ℕ × Option Entry))
unfolding after_read
open_turn with_metadata turn empty rest = after_wait turn.search rest
open_turn with_metadata turn finding rest = after_wait turn.search rest
open_turn with_metadata turn (resolved o) rest =
    if turn.missing
    then some (ok (o, none))
    else if with_metadata
    then after_read o turn.slot_after turn.read rest
    else some (ok (o, none))

-- The loop of `open`. An empty slot starts a search, and is waited for like one that runs.
unfoldable pub open_loop : Bool → List OpenTurn → Option (Result (ℕ × Option Entry))
unfolding open_turn
open_loop with_metadata [] = none
open_loop with_metadata (turn ∷ turns) =
    let rest = open_loop with_metadata turns in open_turn with_metadata turn turn.slot rest
