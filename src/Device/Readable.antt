-- ===== src/Device/Readable.antt =====
-- Objects whose metadata can be read, and what a put does over one.
use swiftacular.Base.{
  ℕ, ◌≡◌, refl, sym, Bool, true, false, Option, none, some, String, Result, ok, arith, leb,
  if◌then◌else◌, Bool-cases, inl, inr, ◌⊎◌, insert, IsDict, subst, raise, conflict_error, [], ◌∷◌,
  eq_iff,
}
use swiftacular.Swift.{Swift}
use swiftacular.Metadata
use swiftacular.Metadata.{
  Headers, Entry, Blob, x_timestamp, content_type_timestamp, fixed, previous_post,
}
use swiftacular.Metadata.Stamps.{IsStamped, TypeAt}
use swiftacular.Metadata.RoundTrip.{PostAt, no_post, put-sections, get_sections}
use swiftacular.Engine.{
  Object, Bytes, State, missing, pre_write, in_write, active, write_metadata, is_in, retired,
  started,
}
use swiftacular.Engine
use swiftacular.Device.{Device, open_object, open_with_metadata, settle, put, delete}

-- The engine takes the candidate exactly if it is newer.
engine_put :
    (next prev : Object) (ts : ℕ)
    → next.state ≡ in_write
    → is_in prev.state (active ∷ missing ∷ []) ≡ true
    → next.name ≡ prev.name
    → Engine.put next prev (some ts) ≡ (
        if leb ts prev.ts
        then raise conflict_error
        else ok
            (record next { state = active; ts = ts }, record prev { state = retired prev.state }))
unfolding Engine.put
engine_put next prev ts hn hp e = ground (arith, eq_iff next.name prev.name)

-- A write of metadata to a candidate.
candidate_metadata :
    (o : Object) (b : Blob)
    → (o.state ≡ pre_write) ⊎ (o.state ≡ in_write)
    → Engine.write_metadata o b ≡ ok (record o { state = in_write; header = b })
unfolding Engine.write_metadata
candidate_metadata o b h = ground arith

module _ (s : Swift) where
  pub data IsReadable (o : Object) : Type 0 where
    gone : o.state ≡ missing → o.ts ≡ 0 → IsReadable o
    held :
        (d : Headers) (m : Option Headers) (t u c k : ℕ)
        → o.state ≡ active
        → o.header ≡ Blob.sections (some d) m
        → IsDict d
        → IsStamped s d t
        → TypeAt s d k
        → PostAt s m u c
        → IsReadable o

  -- What is at a name: an Object of that name, and one that can be read.
  pub record IsSound (dev : Device) (name : String) : Type 0 where
    pub named : (open_object dev name).name ≡ name
    pub readable : IsReadable (open_object dev name)

  module _ (stamp_free : fixed s x_timestamp ≡ false)
      (type_free : fixed s content_type_timestamp ≡ false) where
    -- `open` of such an Object gives its metadata, or none where there is no Object.
    pub open_readable :
        (o : Object)
        → IsReadable o
        → (e : Option Entry) × (u : ℕ) × (c : ℕ) × (open_with_metadata s o ≡ ok e)
          × PostAt s (previous_post e) u c
    unfolding open_with_metadata
    open_readable o (gone st z) = (none, 0, 0, ground arith, no_post refl)
    open_readable o (held d m t u c k st h hd ht hk hm) =
        let (e, he, ed, em, et) = get_sections s d m t u c k stamp_free type_free hd ht hk hm in
        (some e, u, c, ground arith, subst (λ v. PostAt s v u c) (sym em) hm)

    in_place : (o : Object) → IsReadable o → is_in o.state (active ∷ missing ∷ []) ≡ true
    in_place o (gone st z) = ground arith
    in_place o (held d m t u c k st h hd ht hk hm) = ground arith

    -- How a write of `bytes` and the headers `d` at `ts` ends: it is dropped where the Object at the name is as new, and
    -- otherwise takes the name, and can be read.
    pub data Settles (dev : Device) (name : String) (ts : ℕ) (bytes : Bytes) (deleted : Bool)
        (d : Headers) (r : Result Device) : Type 0 where
      loses :
          leb ts (open_object dev name).ts ≡ true
          → r ≡ ok dev
          → Settles dev name ts bytes deleted d r
      wins :
          (next : Object)
          → leb ts (open_object dev name).ts ≡ false
          → r ≡ ok (insert name next dev)
          → next.name ≡ name
          → next.ts ≡ ts
          → next.written ≡ bytes
          → next.deleted ≡ deleted
          → (m : Option Headers) → next.header ≡ Blob.sections (some d) m
          → next.state ≡ active
          → IsReadable next
          → Settles dev name ts bytes deleted d r

    offer :
        (dev : Device) (next : Object) (ts t u c k : ℕ) (d : Headers) (m : Option Headers)
        → IsSound dev next.name
        → next.state ≡ in_write
        → next.header ≡ Blob.sections (some d) m
        → IsDict d
        → IsStamped s d t
        → TypeAt s d k
        → PostAt s m u c
        → Settles dev next.name ts next.written next.deleted d
            (settle dev next.name (Engine.put next (open_object dev next.name) (some ts)))
    offer dev next ts t u c k d m v st h hd ht hk hm =
        let prev = open_object dev next.name in
        let eq = engine_put next prev ts st (in_place prev v.readable) (sym v.named) in
        elim (Bool-cases (leb ts prev.ts)) [
          | inl old ↦ loses old (rw (eq, old))
          | inr new ↦
              wins (record next { state = active; ts = ts }) new (rw (eq, new)) refl refl refl refl
                m h refl (held d m t u c k refl h hd ht hk hm)
        ]

    -- A put of a candidate, written or not, never fails over an Object that can be read.
    pub put-Settles :
        (dev : Device) (obj : Object) (ts t k : ℕ) (d : Headers)
        → IsSound dev obj.name
        → (obj.state ≡ pre_write) ⊎ (obj.state ≡ in_write)
        → IsDict d
        → IsStamped s d t
        → TypeAt s d k
        → Settles dev obj.name ts obj.written obj.deleted d (put s dev obj ts d)
    unfolding put
    put-Settles dev obj ts t k d v st hd ht hk =
        let (e, u, c, he, hp) = open_readable (open_object dev obj.name) v.readable in
        let (m, hb, hm) = put-sections s e d t u c hp ht in
        let next = record obj { state = in_write; header = Blob.sections (some d) m } in
        rw (he, hb, candidate_metadata obj (Blob.sections (some d) m) st)
          (offer dev next ts t u c k d m v refl refl hd ht hk hm)

    tombstone_lem :
        (name : String) (now : ℕ) (b : Blob)
        → Engine.tombstone (Engine.create name none now) b
          ≡ ok (record (Engine.create name none now) {
            deleted = true;
            state = in_write;
            header = b;
          })
    unfolding Engine.tombstone Engine.create
    tombstone_lem name now b = refl

    -- A delete never fails over an Object that can be read.
    pub delete-Settles :
        (dev : Device) (name : String) (now ts t k : ℕ) (d : Headers)
        → IsSound dev name
        → IsDict d
        → IsStamped s d t
        → TypeAt s d k
        → Settles dev name ts [] true d (delete s dev name now ts (some d))
    unfolding delete Engine.create Metadata.delete
    delete-Settles dev name now ts t k d v hd ht hk =
        let (e, u, c, he, hp) = open_readable (open_object dev name) v.readable in
        let (m, hb, hm) = put-sections s e d t u c hp ht in
        let b = Blob.sections (some d) m in
        let next = record (Engine.create name none now) {
          deleted = true;
          state = in_write;
          header = b;
        } in
        rw (he, hb, tombstone_lem name now b)
          (offer dev next ts t u c k d m v refl refl hd ht hk hm)
