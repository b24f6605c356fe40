-- ===== src/Device/Writer/Bodies.antt =====
-- A body that is written in chunks, put, and read back.
use mathlib.Core.List.{append-nil, append_assoc}
use swiftacular.Base.{
  ℕ, suc, ◌+◌, ◌<◌, ◌≡◌, refl, sym, ◌∙◌, ap, subst, false, none, some, List, [], ◌∷◌, ◌++◌, String,
  eq_refl, Result, ok, arith, length, flatten, insert, lookup-insert, length-append, IsDict, inl,
  inr, ◌⊎◌,
}
use swiftacular.Swift.{Swift}
use swiftacular.Metadata.{Headers, x_timestamp, content_type_timestamp, fixed}
use swiftacular.Metadata.Stamps.{IsStamped, TypeAt}
use swiftacular.Engine.{
  Object, Bytes, State, active, old, missing, pre_write, in_write, create, is_in,
}
use swiftacular.Engine
use swiftacular.Device.{Device, open_object}
use swiftacular.Device
use swiftacular.Device.Readable.{IsSound, Settles, loses, wins, put-Settles}
use swiftacular.Device.Reader.{iterate}
use swiftacular.Device.Reader.Ranges.{stream}
use swiftacular.Device.Writer.{Writer, writer, write, write_all, put}

-- The candidate as it is once `body` has been written.
pub record Holds (name : String) (body : Bytes) (w : Writer) : Type 0 where
  pub obj : Object
  pub object : w.object ≡ some obj
  pub named : obj.name ≡ name
  pub writable : (obj.state ≡ pre_write) ⊎ (obj.state ≡ in_write)
  pub alive : obj.deleted ≡ false
  pub written : obj.written ≡ body
  pub hashed : w.hashed ≡ body
  pub size : w.size ≡ length body

abbrev extended : Object → Bytes → Object
extended obj chunk = record obj { state = in_write; written = obj.written ++ chunk }

engine_write :
    (obj : Object) (chunk : Bytes)
    → (obj.state ≡ pre_write) ⊎ (obj.state ≡ in_write)
    → Engine.write obj chunk ≡ ok (extended obj chunk)
unfolding Engine.write
engine_write obj chunk h = ground arith

Holds-write :
    (name : String) (body chunk : Bytes) (w : Writer)
    → Holds name body w
    → (w' : Writer) × (write w chunk ≡ ok w') × Holds name (body ++ chunk) w'
Holds-write name body chunk w h = (
  record {
    object = some (extended h.obj chunk);
    hashed = w.hashed ++ chunk;
    size = w.size + length chunk;
  },
  unfold write in ground (arith, engine_write h.obj chunk h.writable, h.object),
  record {
    obj = extended h.obj chunk;
    object = refl;
    named = h.named;
    writable = inr refl;
    alive = h.alive;
    written = ap (λ b. b ++ chunk) h.written;
    hashed = ap (λ b. b ++ chunk) h.hashed;
    size = omega (arith, length-append {0} body chunk, h.size);
  },
)

Holds-write_all :
    (name : String) (body : Bytes) (chunks : List Bytes) (w : Writer)
    → Holds name body w
    → (w' : Writer) × (write_all w chunks ≡ ok w') × Holds name (body ++ flatten chunks) w'
unfolding write_all
Holds-write_all name body [] w h = (w, refl, rw append-nil h)
Holds-write_all name body (chunk ∷ chunks) w h =
    let (w', e, h') = Holds-write name body chunk w h in
    let (w'', e', h'') = Holds-write_all name (body ++ chunk) chunks w' h' in
    (w'', rw e e', subst (λ b. Holds name b w'') (append_assoc body chunk (flatten chunks)) h'')

Holds-writer : (name : String) (now : ℕ) → Holds name [] (writer name now)
unfolding writer create
Holds-writer name now = record {
  obj = create name none now;
  object = refl;
  named = refl;
  writable = inl refl;
  alive = refl;
  written = refl;
  hashed = refl;
  size = refl;
}

-- What the writer reports of a body is its length and its bytes, in whatever chunks it came.
pub write_all-total :
    (name : String) (now : ℕ) (chunks : List Bytes)
    → (w : Writer) × (write_all (writer name now) chunks ≡ ok w)
      × (w.size ≡ length (flatten chunks))
      × (w.hashed ≡ flatten chunks)
write_all-total name now chunks =
    let (w, e, h) = Holds-write_all name [] chunks (writer name now) (Holds-writer name now) in
    (w, e, h.size, h.hashed)

module _ (s : Swift) (stamp_free : fixed s x_timestamp ≡ false)
    (type_free : fixed s content_type_timestamp ≡ false) where
  open s use {raw, internal, parse-internal}

  put_lem :
      (dev : Device) (name : String) (body : Bytes) (w : Writer) (d : Headers) (t : ℕ)
      (h : Holds name body w)
      → IsStamped s d t
      → put s dev w d ≡ Device.put s dev h.obj (raw t) d
  unfolding put
  put_lem dev name body w d t h hd = ground (arith, h.object, parse-internal t)

  -- What a GET of the whole object yields, in chunks of any size.
  abbrev pub Serves : ℕ → Bytes → Device → String → Type 0
  Serves chunk_size body dev name =
      (chunks : List Bytes) × (iterate (suc (length body)) (open_object dev name) chunk_size 0 none
        ≡ some (chunks, ok tt))
      × (flatten chunks ≡ body)

  serve_object :
      (chunk_size : ℕ) (body : Bytes) (o : Object)
      → 0 < chunk_size
      → o.written ≡ body
      → o.state ≡ active
      → (chunks : List Bytes) × (iterate (suc (length body)) o chunk_size 0 none
          ≡ some (chunks, ok tt))
        × (flatten chunks ≡ body)
  serve_object chunk_size body o hc hb hs =
      let (chunks, e, p) =
        stream o chunk_size (rw hs) hc (suc (length body)) 0 none (omega (arith, ap length hb)) in
      (chunks, e, p ∙ hb)

  serve_settled :
      (dev : Device) (name : String) (ts chunk_size : ℕ) (body : Bytes) (d : Headers)
      (r : Result Device)
      → (open_object dev name).ts < ts
      → 0 < chunk_size
      → Settles s stamp_free type_free dev name ts body false d r
      → (dev' : Device) × (r ≡ ok dev')
        × ((open_object dev' name).deleted ≡ false)
        × Serves chunk_size body dev' name
  unfolding open_object
  serve_settled dev name ts chunk_size body d r lt hc (loses h e) = absurd (ground arith)
  serve_settled dev name ts chunk_size body d r lt hc (wins next new e hn ht hb hd m hh hs hr) = (
    insert name next dev,
    e,
    rw lookup-insert (rw eq_refl hd),
    rw lookup-insert (rw eq_refl (serve_object chunk_size body next hc hb hs)),
  )

  settles :
      (dev : Device) (name : String) (body : Bytes) (w : Writer) (d : Headers) (t k : ℕ)
      (h : Holds name body w)
      → IsSound s dev name
      → IsDict d
      → IsStamped s d t
      → TypeAt s d k
      → Settles s stamp_free type_free dev name
          (raw t)
          body
          false
          d
          (Device.put s dev h.obj (raw t) d)
  settles dev name body w d t k h v hd ht hk =
      let r = Device.put s dev h.obj (raw t) d in
      let p =
        put-Settles s stamp_free type_free dev h.obj (raw t) t k d
          (subst (λ n. IsSound s dev n) (sym h.named) v) h.writable hd ht hk in
      let p' =
        subst (λ n. Settles s stamp_free type_free dev n (raw t) h.obj.written h.obj.deleted d r)
          h.named p in
      let p'' =
        subst (λ b. Settles s stamp_free type_free dev name (raw t) b h.obj.deleted d r) h.written
          p' in
      subst (λ b. Settles s stamp_free type_free dev name (raw t) body b d r) h.alive p''

  -- A body is written in chunks, in whatever sizes, and put as the newest write of its name. Then
  -- the name is not deleted, and a read of all of it, in chunks of any size, gives the same bytes.
  pub put-stream :
      (dev : Device) (name : String) (now chunk_size t k : ℕ) (chunks : List Bytes) (d : Headers)
      → IsSound s dev name
      → (open_object dev name).ts < raw t
      → 0 < chunk_size
      → IsDict d
      → IsStamped s d t
      → TypeAt s d k
      → (w : Writer) × (write_all (writer name now) chunks ≡ ok w)
        × (dev' : Device) × (put s dev w d ≡ ok dev')
        × ((open_object dev' name).deleted ≡ false)
        × Serves chunk_size (flatten chunks) dev' name
  put-stream dev name now chunk_size t k chunks d v lt hc hd ht hk =
      let (w, e, h) = Holds-write_all name [] chunks (writer name now) (Holds-writer name now) in
      let (dev', e', alive, served) =
        serve_settled dev name (raw t) chunk_size (flatten chunks) d
          (Device.put s dev h.obj (raw t) d) lt hc
          (settles dev name (flatten chunks) w d t k h v hd ht hk) in
      (w, e, dev', put_lem dev name (flatten chunks) w d t h ht ∙ e', alive, served)
