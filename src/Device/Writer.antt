-- ===== src/Device/Writer.antt =====
-- bluestore/src/bluestore/writer.py: each chunk goes to the candidate Object, and `put` hands the
-- name over. The MD5 of the bytes so far stands as these bytes; `md5` gives the digest.
pub mod Bodies
use swiftacular.Base.{
  ℕ, zero, ◌+◌, ◌≡◌, refl, sym, ◌∙◌, Bool, true, false, Option, none, some, List, [], ◌∷◌, ◌++◌,
  String, Result, ok, raise, attribute_error, key_error, value_error, expect, ◌>>=◌, arith, length,
  flatten, lookup, length-append,
}
use swiftacular.Swift.{Swift}
use swiftacular.Metadata.{Headers, x_timestamp, timestamp}
use swiftacular.Engine.{Object, Bytes, pre_write, in_write, create}
use swiftacular.Engine
use swiftacular.Device.{Device}
use swiftacular.Device

pub record Writer : Type 0 where
  pub object : Option Object
  pub hashed : Bytes
  pub size : ℕ

-- `DiskFile.writer`: the candidate is made here.
unfoldable pub writer : String → ℕ → Writer
writer name now = record { object = some (create name none now); hashed = []; size = 0 }

unfoldable pub close : Writer → Writer
close w = record w { object = none }

unfoldable pub write : Writer → Bytes → Result Writer
write w chunk = do
  obj ← expect attribute_error w.object
  obj' ← Engine.write obj chunk
  ok (record { object = some obj'; size = w.size + length chunk; hashed = w.hashed ++ chunk })

unfoldable pub chunks_finished : (Bytes → String) → Writer → ℕ × String
chunks_finished md5 w = (w.size, md5 w.hashed)

-- The body as the object server sends it.
unfoldable pub write_all : Writer → List Bytes → Result Writer
write_all w [] = ok w
write_all w (chunk ∷ chunks) = do w' ← write w chunk; write_all w' chunks

module _ (s : Swift) where
  open s use {raw}

  -- The time that the engine settles is the raw part of the request's.
  unfoldable pub put : Device → Writer → Headers → Result Device
  put dev w metadata = do
    obj ← expect attribute_error w.object
    text ← expect key_error (lookup x_timestamp metadata)
    t ← timestamp s text
    Device.put s dev obj (raw t) metadata
