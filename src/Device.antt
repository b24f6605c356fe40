-- ===== src/Device.antt =====
-- bluestore/src/bluestore/device.py: the Device maps each name to the Object that it resolves to.
-- `put`, `delete` and `write_metadata` do not give up the thread between the look at the current
-- Object and the change of the map, so each is one step here; what runs between such steps is an
-- order of steps. The metadata that a step reads is what `read_metadata` settles on.
pub mod Readable
pub mod Races
pub mod Retry
pub mod Opening
pub mod Reader
pub mod DiskFile
pub mod Manager
pub mod Frame
pub mod Writer
use swiftacular.Base.{
  ℕ, ◌≡◌, Bool, true, false, Option, none, some, List, [], ◌∷◌, String, str_eq, Error, Result, ok,
  raise, conflict_error, ◌>>=◌, or_else, if◌then◌else◌, Dict, lookup, insert,
}
use swiftacular.Swift.{Swift}
use swiftacular.Metadata.{Headers, Entry, Blob}
use swiftacular.Metadata
use swiftacular.Engine.{Object, State, missing, create, write_metadata, tombstone, absent}
use swiftacular.Engine

abbrev pub Device : Type 0
Device = Dict Object

-- `open(name)`: the Object that the name resolves to, which `find` makes where it is not known.
unfoldable pub open_object : Device → String → Object
unfolding absent
open_object dev name = or_else (absent name) (lookup name dev)

abbrev pub is_missing : State → Bool
is_missing missing = true
is_missing _ = false

-- `except ConflictError: return`: a put that loses to a newer one is dropped.
abbrev pub settle : Device → String → Result (Object × Object) → Result Device
settle dev name (ok (next, prev)) = ok (insert name next dev)
settle dev name (raise Error.conflict_error) = ok dev
settle dev name (raise e) = raise e

-- A POST that changes nothing writes nothing.
abbrev pub posted_to : Device → Object → Option Blob → Result Device
posted_to dev obj none = ok dev
posted_to dev obj (some blob) = do
  next ← Engine.write_metadata obj blob
  ok (insert obj.name next dev)

module _ (s : Swift) where
  -- `open(name, with_metadata=True)`
  unfoldable pub open_with_metadata : Object → Result (Option Entry)
  open_with_metadata o =
      if is_missing o.state then ok none else do e ← Metadata.get s o.header; ok (some e)

  unfoldable pub put : Device → Object → ℕ → Headers → Result Device
  unfolding open_object open_with_metadata
  put dev obj timestamp meta =
      let prev = open_object dev obj.name in
      do
        prev_meta ← open_with_metadata prev
        blob ← Metadata.put s prev_meta meta
        next ← Engine.write_metadata obj blob
        settle dev obj.name (Engine.put next prev (some timestamp))

  unfoldable pub delete : Device → String → ℕ → ℕ → Option Headers → Result Device
  unfolding open_object open_with_metadata
  delete dev name now timestamp meta =
      let prev = open_object dev name in
      do
        prev_meta ← open_with_metadata prev
        blob ← Metadata.delete s prev_meta timestamp meta
        tomb ← Engine.tombstone (Engine.create name none now) blob
        settle dev name (Engine.put tomb prev (some timestamp))

  unfoldable pub write_metadata_of : Device → String → Headers → Result Device
  unfolding open_object open_with_metadata
  write_metadata_of dev name p =
      let obj = open_object dev name in
      do prev ← open_with_metadata obj; blob ← Metadata.post s prev p; posted_to dev obj blob
