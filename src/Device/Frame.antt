-- ===== src/Device/Frame.antt =====
-- What the operations on one name leave alone.
use swiftacular.Base.{
  ℕ, ◌≡◌, ◌≢◌, sym, ◌∙◌, Option, none, some, String, str_eq, eq_iff, Error, Result, ok, raise,
  >>=-eq-ok, arith, if◌then◌else◌, lookup, insert, lookup-insert,
}
use swiftacular.Swift.{Swift}
use swiftacular.Metadata
use swiftacular.Metadata.{Headers, Blob}
use swiftacular.Engine.{Object, Bytes}
use swiftacular.Engine
use swiftacular.Device.{
  Device, open_object, open_with_metadata, put, delete, settle, posted_to, write_metadata_of,
}
use swiftacular.Device.Races.{Write, put_of, delete_of, perform, view, view_of_object}

settle_frame :
    (dev dev' : Device) (name j : String) (r : Result (Object × Object))
    → settle dev name r ≡ ok dev'
    → name ≢ j
    → lookup j dev' ≡ lookup j dev
settle_frame dev dev' name j (ok (next, prev)) e ne =
    ground (arith, lookup-insert name j next dev, eq_iff name j)
settle_frame dev dev' name j (raise Error.conflict_error) e ne = ground arith
settle_frame dev dev' name j (raise _) e ne = absurd (ground arith)

module _ (s : Swift) where
  put-frame :
      (dev dev' : Device) (obj : Object) (ts : ℕ) (d : Headers) (j : String)
      → put s dev obj ts d ≡ ok dev'
      → obj.name ≢ j
      → lookup j dev' ≡ lookup j dev
  unfolding put
  put-frame dev dev' obj ts d j h ne =
      let (prev, e, h) = >>=-eq-ok (open_with_metadata s (open_object dev obj.name)) _ h in
      let (blob, e, h) = >>=-eq-ok (Metadata.put s prev d) _ h in
      let (next, e, h) = >>=-eq-ok (Engine.write_metadata obj blob) _ h in
      settle_frame dev dev' obj.name j (Engine.put next (open_object dev obj.name) (some ts)) h ne

  delete-frame :
      (dev dev' : Device) (name : String) (now ts : ℕ) (d : Option Headers) (j : String)
      → delete s dev name now ts d ≡ ok dev'
      → name ≢ j
      → lookup j dev' ≡ lookup j dev
  unfolding delete
  delete-frame dev dev' name now ts d j h ne =
      let (prev, e, h) = >>=-eq-ok (open_with_metadata s (open_object dev name)) _ h in
      let (blob, e, h) = >>=-eq-ok (Metadata.delete s prev ts d) _ h in
      let (tomb, e, h) = >>=-eq-ok (Engine.tombstone (Engine.create name none now) blob) _ h in
      settle_frame dev dev' name j (Engine.put tomb (open_object dev name) (some ts)) h ne

  written_name :
      (name : String) (now : ℕ) (bytes : Bytes) (obj : Object)
      → Engine.write (Engine.create name none now) bytes ≡ ok obj
      → obj.name ≡ name
  unfolding Engine.write Engine.create
  written_name name now bytes obj h = ground arith

  perform_frame :
      (dev dev' : Device) (name j : String) (w : Write)
      → perform s dev name w ≡ ok dev'
      → name ≢ j
      → lookup j dev' ≡ lookup j dev
  unfolding perform
  perform_frame dev dev' name j (put_of now bytes ts d) h ne =
      let (obj, e, h) = >>=-eq-ok (Engine.write (Engine.create name none now) bytes) _ h in
      put-frame dev dev' obj ts d j h (λ p. ne (sym (written_name name now bytes obj e) ∙ p))
  perform_frame dev dev' name j (delete_of now ts d) h ne =
      delete-frame dev dev' name now ts (some d) j h ne

  -- A PUT or DELETE of one name, whether it wins or loses, leaves the Object of every other name.
  pub open_object-perform :
      (dev dev' : Device) (name j : String) (w : Write)
      → perform s dev name w ≡ ok dev'
      → name ≢ j
      → open_object dev' j ≡ open_object dev j
  unfolding open_object
  open_object-perform dev dev' name j w h ne = rw (perform_frame dev dev' name j w h ne)

  metadata_keeps :
      (o o' : Object) (b : Blob)
      → Engine.write_metadata o b ≡ ok o'
      → (view_of_object o' ≡ view_of_object o) × (o'.name ≡ o.name)
  unfolding Engine.write_metadata
  metadata_keeps o o' b h = ground arith

  open-insert_at :
      (dev : Device) (name j : String) (o : Object)
      → open_object (insert name o dev) j ≡ (if str_eq name j then o else open_object dev j)
  unfolding open_object
  open-insert_at dev name j o = ground (arith, lookup-insert name j o dev)

  posted_view :
      (dev dev' : Device) (name j : String) (b : Option Blob)
      → (open_object dev name).name ≡ name
      → posted_to dev (open_object dev name) b ≡ ok dev'
      → view dev' j ≡ view dev j
  posted_view dev dev' name j none hn h = ground arith
  posted_view dev dev' name j (some b) hn h =
      let (o', e, h) = >>=-eq-ok (Engine.write_metadata (open_object dev name) b) _ h in
      let (hv, hn') = metadata_keeps (open_object dev name) o' b e in
      ground (arith, open-insert_at dev name j o', eq_iff name j)

  -- A POST changes neither time, body nor deletion of any name.
  pub view-write_metadata :
      (dev dev' : Device) (name j : String) (p : Headers)
      → (open_object dev name).name ≡ name
      → write_metadata_of s dev name p ≡ ok dev'
      → view dev' j ≡ view dev j
  unfolding write_metadata_of
  view-write_metadata dev dev' name j p hn h =
      let (prev, e, h) = >>=-eq-ok (open_with_metadata s (open_object dev name)) _ h in
      let (blob, e, h) = >>=-eq-ok (Metadata.post s prev p) _ h in
      posted_view dev dev' name j blob hn h
