-- ===== src/Device/Races.antt =====
-- Writers of one name, in any order: each is one step of the Device.
use swiftacular.Base.{
  ℕ, ◌≡◌, refl, sym, ◌∙◌, ap, ◌<◌, Bool, true, false, none, some, String, eq_refl, List, [], ◌∷◌,
  ◌++◌, All, Result, ok, ◌>>=◌, arith, leb, if◌then◌else◌, inr, insert, lookup-insert, IsDict,
  subst,
}
use swiftacular.Swift.{Swift}
use swiftacular.Metadata.{Headers, x_timestamp, content_type_timestamp, fixed}
use swiftacular.Metadata.Stamps.{IsStamped, TypeAt}
use swiftacular.Engine.{Object, Bytes, in_write, pre_write}
use swiftacular.Engine
use swiftacular.Device.{Device, open_object, put, delete}
use swiftacular.Device.Readable.{IsSound, Settles, loses, wins, put-Settles, delete-Settles}

-- A PUT of a whole body, or a DELETE: the clock of the engine, the time of the request, and what it
-- stores as metadata.
pub data Write : Type 0 where
  put_of : ℕ → Bytes → ℕ → Headers → Write
  delete_of : ℕ → ℕ → Headers → Write

abbrev pub time_of_write : Write → ℕ
time_of_write (put_of now bytes ts d) = ts
time_of_write (delete_of now ts d) = ts

-- The candidate of a PUT, once its body is written.
abbrev candidate : String → ℕ → Bytes → Object
candidate name now bytes = record (Engine.create name none now) {
  state = in_write;
  written = bytes;
}

-- What a client sees at a name: the time, whether it is deleted, and the body.
pub record View : Type 0 where
  pub ts : ℕ
  pub deleted : Bool
  pub body : Bytes

abbrev pub view_of_write : Write → View
view_of_write (put_of now bytes ts d) = record { ts = ts; deleted = false; body = bytes }
view_of_write (delete_of now ts d) = record { ts = ts; deleted = true; body = [] }

abbrev pub view_of_object : Object → View
view_of_object o = record { ts = o.ts; deleted = o.deleted; body = o.written }

abbrev pub view : Device → String → View
view dev name = view_of_object (open_object dev name)

-- The specification: the newest write of a name is what is there.
abbrev pub newest : View → List Write → View
newest v [] = v
newest v (w ∷ ws) = newest (if leb (time_of_write w) v.ts then v else view_of_write w) ws

module _ (s : Swift) where
  -- The DiskFile's writer makes the candidate, writes the body and puts it.
  unfoldable pub perform : Device → String → Write → Result Device
  perform dev name (put_of now bytes ts d) = do
    obj ← Engine.write (Engine.create name none now) bytes
    put s dev obj ts d
  perform dev name (delete_of now ts d) = delete s dev name now ts (some d)

  unfoldable pub perform_all : Device → String → List Write → Result Device
  perform_all dev name [] = ok dev
  perform_all dev name (w ∷ ws) = do dev' ← perform dev name w; perform_all dev' name ws

  abbrev headers_of : Write → Headers
  headers_of (put_of now bytes ts d) = d
  headers_of (delete_of now ts d) = d

  -- The metadata that a request stores has a timestamp of its own.
  pub record IsStampedWrite (w : Write) : Type 0 where
    pub time : ℕ
    pub type_time : ℕ
    pub dict : IsDict (headers_of w)
    pub stamped : IsStamped s (headers_of w) time
    pub type_at : TypeAt s (headers_of w) type_time

  written_lem :
      (name : String) (now : ℕ) (bytes : Bytes)
      → Engine.write (Engine.create name none now) bytes
        ≡ ok (record (Engine.create name none now) { state = in_write; written = bytes })
  unfolding Engine.write Engine.create
  written_lem name now bytes = refl

  module _ (stamp_free : fixed s x_timestamp ≡ false)
      (type_free : fixed s content_type_timestamp ≡ false) where
    abbrev pub Outcome : Device → String → View → Result Device → Type 0
    Outcome dev name v r =
        (dev' : Device) × (r ≡ ok dev') × IsSound s dev' name × (view dev' name ≡ v)

    open-insert :
        (dev : Device) (name : String) (o : Object) → open_object (insert name o dev) name ≡ o
    unfolding open_object
    open-insert dev name o = rw lookup-insert (rw eq_refl)

    settled :
        (dev : Device) (name : String) (ts : ℕ) (bytes : Bytes) (deleted : Bool) (d : Headers)
        (r : Result Device)
        → IsSound s dev name
        → Settles s stamp_free type_free dev name ts bytes deleted d r
        → Outcome dev name
            (if leb ts (open_object dev name).ts
              then view dev name
              else record { ts = ts; deleted = deleted; body = bytes })
            r
    settled dev name ts bytes deleted d r v (loses old e) = (dev, e, v, rw old)
    settled dev name ts bytes deleted d r v (wins next new e hn ht hb hd m hh hs hr) = (
      insert name next dev,
      e,
      record { named = rw open-insert hn; readable = rw open-insert hr },
      rw (open-insert, new) (λ i. record { ts = ht i; deleted = hd i; body = hb i }),
    )

    perform_lem :
        (dev : Device) (name : String) (w : Write)
        → IsSound s dev name
        → IsStampedWrite w
        → Outcome dev name
            (if leb (time_of_write w) (open_object dev name).ts
              then view dev name
              else view_of_write w)
            (perform dev name w)
    unfolding perform Engine.create
    perform_lem dev name (put_of now bytes ts d) v h = rw written_lem (
        settled dev name ts bytes false d (put s dev (candidate name now bytes) ts d) v (
          put-Settles s stamp_free type_free dev (candidate name now bytes) ts h.time h.type_time d
            v (inr refl) h.dict h.stamped h.type_at))
    perform_lem dev name (delete_of now ts d) v h =
        settled dev name ts [] true d (delete s dev name now ts (some d)) v (
          delete-Settles s stamp_free type_free dev name now ts h.time h.type_time d v h.dict
            h.stamped h.type_at)

    after :
        (dev : Device) (name : String) (ws : List Write) (v w : View) (r : Result Device)
        → ((dev' : Device)
            → IsSound s dev' name
            → Outcome dev' name (newest (view dev' name) ws) (perform_all dev' name ws))
        → Outcome dev name v r
        → newest v ws ≡ w
        → Outcome dev name w (r >>= λ dev'. perform_all dev' name ws)
    after dev name ws v w r rest (dev', e, sound, e') p = rw e (
        subst (λ x. Outcome dev' name x (perform_all dev' name ws)) (ap (λ x. newest x ws) e' ∙ p)
          (rest dev' sound))

    -- Refinement: a run of PUTs and DELETEs of a name never fails, leaves it readable, and ends with
    -- what the specification says.
    pub perform_all-newest :
        (dev : Device) (name : String) (ws : List Write)
        → IsSound s dev name
        → All IsStampedWrite ws
        → Outcome dev name (newest (view dev name) ws) (perform_all dev name ws)
    unfolding perform_all
    perform_all-newest dev name [] v h = (dev, refl, v, refl)
    perform_all-newest dev name (w ∷ ws) v h =
        after dev name ws
          (if leb (time_of_write w) (open_object dev name).ts
            then view dev name
            else view_of_write w)
          (newest (view dev name) (w ∷ ws)) (perform dev name w)
          (λ dev' v'. perform_all-newest dev' name ws v' h.1) (perform_lem dev name w v h.0) refl

abbrev pub AllOlder : ℕ → List Write → Type 0
AllOlder n = All (λ w. time_of_write w < n)

newest_keeps : (v : View) (ws : List Write) → AllOlder v.ts ws → newest v ws ≡ v
newest_keeps v [] h = refl
newest_keeps v (w ∷ ws) h = ground (arith, newest_keeps v ws h.1)

ts-view : (w : Write) → (view_of_write w).ts ≡ time_of_write w
ts-view (put_of now bytes ts d) = refl
ts-view (delete_of now ts d) = refl

chosen-lt :
    (n : ℕ) (v : View) (w : Write)
    → v.ts < n
    → time_of_write w < n
    → (if leb (time_of_write w) v.ts then v else view_of_write w).ts < n
chosen-lt n v w h k = ground (arith, ts-view w)

newest-lt : (n : ℕ) (v : View) (ws : List Write) → v.ts < n → AllOlder n ws → (newest v ws).ts < n
newest-lt n v [] h k = h
newest-lt n v (w ∷ ws) h k =
    newest-lt n (if leb (time_of_write w) v.ts then v else view_of_write w) ws
      (chosen-lt n v w h k.0) k.1

newest-append : (v : View) (xs ys : List Write) → newest v (xs ++ ys) ≡ newest (newest v xs) ys
newest-append v [] ys = refl
newest-append v (w ∷ xs) ys =
    newest-append (if leb (time_of_write w) v.ts then v else view_of_write w) xs ys

newest_wins :
    (v : View) (w : Write) (xs ys : List Write)
    → v.ts < time_of_write w
    → AllOlder (time_of_write w) xs
    → AllOlder (time_of_write w) ys
    → newest v (xs ++ w ∷ ys) ≡ view_of_write w
newest_wins v w xs ys h hx hy =
    let lt = newest-lt (time_of_write w) v xs h hx in
    let new : leb (time_of_write w) (newest v xs).ts ≡ false = ground arith in
    rw newest-append
      (rw new (newest_keeps (view_of_write w) ys (subst (λ n. AllOlder n ys) (sym (ts-view w)) hy)))

module _ (s : Swift) (stamp_free : fixed s x_timestamp ≡ false)
    (type_free : fixed s content_type_timestamp ≡ false) where
  -- Whatever the order in which the PUTs and DELETEs of a name reach the Device, none fails, and the
  -- newest one is what is left.
  pub perform_all-newest_wins :
      (dev : Device) (name : String) (w : Write) (xs ys : List Write)
      → IsSound s dev name
      → All (IsStampedWrite s) (xs ++ w ∷ ys)
      → (open_object dev name).ts < time_of_write w
      → AllOlder (time_of_write w) xs
      → AllOlder (time_of_write w) ys
      → Outcome s stamp_free type_free dev name
          (view_of_write w)
          (perform_all s dev name (xs ++ w ∷ ys))
  perform_all-newest_wins dev name w xs ys v h lt hx hy =
      subst (λ x. Outcome s stamp_free type_free dev name x (perform_all s dev name (xs ++ w ∷ ys)))
        (newest_wins (view dev name) w xs ys lt hx hy)
        (perform_all-newest s stamp_free type_free dev name (xs ++ w ∷ ys) v h)
