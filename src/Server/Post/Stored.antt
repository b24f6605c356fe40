-- ===== src/Server/Post/Stored.antt =====
-- What a POST stores has the time of the POST, and what follows is done.
use mathlib.Core.List.{append_assoc}
use swiftacular.Base.{
  ◌≡◌, refl, sym, ap, ◌∙◌, inl, inr, Bool, true, some, List, [], ◌∷◌, ◌++◌, map, String, str_eq,
  none, false, arith, ◌==◌, Bool-cases, Option-cases, Dict, lookup, insert, update, lookup-insert,
  eq_refl, eq_iff,
}
use swiftacular.Server.{Status, go, Effect}
use swiftacular.Server.Handler.{
  Step, queue, write_metadata, update_container, run, gathered, write_of, tell_of, queue_of,
}
use swiftacular.Server.Rules.{
  Rules, copy_headers, copied_keys, is_spared, lookup-copy_headers_spared,
}
use swiftacular.Server.Content.{
  Posting, Opened, Content, new_metadata, sent_type, with_content, container_headers,
}
use swiftacular.Server.Post.{Accepted, accepted_with, written}

pub gathered-append {ℓ} :
    {A : Type ℓ} (f : Step → List A) (steps more : List Step)
    → gathered f (steps ++ more) ≡ gathered f steps ++ gathered f more
gathered-append f [] more = refl
gathered-append f (step ∷ steps) more =
    ap (λ l. f step ++ l) (gathered-append f steps more)
    ∙ sym (append_assoc (f step) (gathered f steps) (gathered f more))

pub lookup-insert_same : (k v : String) (d : Dict String) → lookup k (insert k v d) ≡ some v
lookup-insert_same k v d = lookup-insert k k v d ∙ rw (eq_refl k) refl

-- A value that is under another name stays.
pub lookup-insert_other :
    (k j v w : String) (d : Dict String)
    → str_eq k j ≡ false
    → lookup j d ≡ some w
    → lookup j (insert k v d) ≡ some w
lookup-insert_other k j v w d other h = lookup-insert k j v d ∙ rw other h

-- A name that is not taken over keeps its value.
lookup-update_kept :
    (p : String → Bool) (j w : String) (d e : Dict String)
    → p j ≡ false
    → lookup j d ≡ some w
    → lookup j (update p d e) ≡ some w
unfolding update
lookup-update_kept p j w d [] left h = h
lookup-update_kept p j w d ((k, v) ∷ e) left h = elim (Bool-cases (p k)) [
  | inl taken ↦
      let other : str_eq k j ≡ false = ground (arith, eq_iff k j, left, taken, ap p) in
      rw taken
        (lookup-update_kept p j w (insert k v d) e left (lookup-insert_other k j v w d other h))
  | inr not_taken ↦ rw not_taken (lookup-update_kept p j w d e left h)
]

-- A name that has a value keeps one.
lookup-insert-some :
    (k j v w : String) (d : Dict String)
    → lookup j d ≡ some w
    → (x : String) × (lookup j (insert k v d) ≡ some x)
lookup-insert-some k j v w d h = elim (Bool-cases (str_eq k j)) [
  | inl same ↦ (v, lookup-insert k j v d ∙ rw same refl)
  | inr other ↦ (w, lookup-insert k j v d ∙ rw other h)
]

pub lookup-update-some :
    (p : String → Bool) (j w : String) (d e : Dict String)
    → lookup j d ≡ some w
    → (x : String) × (lookup j (update p d e) ≡ some x)
unfolding update
lookup-update-some p j w d [] h = (w, h)
lookup-update-some p j w d ((k, v) ∷ e) h = elim (Bool-cases (p k)) [
  | inl taken ↦
      let (x, there) = lookup-insert-some k j v w d h in
      rw taken (lookup-update-some p j x (insert k v d) e there)
  | inr left ↦ rw left (lookup-update-some p j w d e h)
]

pub gathered-queue :
    (effects : List Effect)
    → (gathered queue_of (map queue effects) ≡ effects)
      × (gathered write_of (map queue effects) ≡ [])
      × (gathered tell_of (map queue effects) ≡ [])
gathered-queue [] = (refl, refl, refl)
gathered-queue (effect ∷ effects) =
    let (queues, writes, tells) = gathered-queue effects in
    (ap (λ l. effect ∷ l) queues, writes, tells)

module _ (rules : Rules) where
  pub lookup-copy_headers :
      (keys : List String) (headers d : Dict String) (j w : String)
      → lookup j d ≡ some w
      → (x : String) × (lookup j (copy_headers rules keys headers d) ≡ some x)
  unfolding copy_headers
  lookup-copy_headers [] headers d j w h = (w, h)
  lookup-copy_headers (key ∷ keys) headers d j w h = elim (Option-cases (lookup key headers)) [
    | inl absent ↦ rw absent (lookup-copy_headers keys headers d j w h)
    | inr (value, given) ↦
        let (x, there) = lookup-insert-some (rules.caps key) j value w d h in
        rw given (lookup-copy_headers keys headers (insert (rules.caps key) value d) j x there)
  ]

  -- The metadata of a newer POST has its time, when no header is stored in its place.
  pub lookup-new_metadata :
      (request : Posting)
      → rules.is_transient "X-Timestamp" ≡ false
      → is_spared rules "X-Timestamp" (copied_keys rules request.headers) ≡ true
      → lookup "X-Timestamp" (new_metadata rules request) ≡ some (rules.internal request.timestamp)
  unfolding new_metadata
  lookup-new_metadata request plain spared =
      let stamped = ("X-Timestamp", rules.internal request.timestamp) ∷ [] in
      lookup-copy_headers_spared rules (copied_keys rules request.headers) request.headers
        (update rules.is_transient stamped request.headers) "X-Timestamp" spared
      ∙ (lookup-update_kept rules.is_transient "X-Timestamp" (rules.internal request.timestamp)
          stamped request.headers plain refl)

  -- The content type leaves the timestamp.
  pub lookup-with_content :
      (content : Content) (metadata : Dict String) (w : String)
      → lookup "X-Timestamp" metadata ≡ some w
      → lookup "X-Timestamp" (with_content rules content metadata) ≡ some w
  unfolding with_content
  lookup-with_content content metadata w h = elim (Bool-cases content.is_kept) [
    | inl kept ↦ rw kept (
        lookup-insert_other "Content-Type-Timestamp" "X-Timestamp"
          (rules.internal content.timestamp) w (insert "Content-Type" content.content_type metadata)
          refl
          (lookup-insert_other "Content-Type" "X-Timestamp" content.content_type w metadata refl h))
    | inr left ↦ rw left h
  ]

  -- What the object must say of itself, for its container to be told.
  pub record IsWhole (file : Opened) : Type 0 where
    pub size : String
    pub etag : String
    pub ctype : String
    pub has_size : lookup "Content-Length" file.metadata ≡ some size
    pub has_etag : lookup "ETag" file.metadata ≡ some etag
    pub has_ctype : lookup "Content-Type" file.datafile_metadata ≡ some ctype

  sent_type-run :
      (content : Content) (file : Opened)
      → IsWhole file
      → (ctype : String) × (sent_type rules content file ≡ run [] (go ctype))
  sent_type-run content file whole = elim (Bool-cases (content.timestamp == file.data_timestamp)) [
    | inl same ↦ rw same (content.content_type, refl)
    | inr other ↦ rw (other, whole.has_ctype) (_, refl)
  ]

  container_headers-run :
      (file : Opened) (content : Content) (ctype : String) (metadata : Dict String) (t : String)
      → IsWhole file
      → lookup "X-Timestamp" metadata ≡ some t
      → (headers : Dict String) × (container_headers rules file content ctype metadata
          ≡ run [] (go headers))
  unfolding container_headers
  container_headers-run file content ctype metadata t whole stamped =
      rw (whole.has_size, stamped, whole.has_etag) (_, refl)

  -- With space, the metadata is written and the container is told.
  pub written-run :
      (request : Posting) (file : Opened) (content : Content) (metadata : Dict String) (t : String)
      → IsWhole file
      → lookup "X-Timestamp" metadata ≡ some t
      → request.has_space ≡ true
      → (headers : Dict String) × (accepted : Accepted rules) × (written rules request file content
            metadata
          ≡ run
              (write_metadata (with_content rules content metadata) ∷ update_container headers ∷ [])
              (go accepted))
        × (accepted.0.status ≡ Status.accepted)
        × (accepted.0.backend_timestamp ≡ none)
  unfolding written
  written-run request file content metadata t whole stamped space =
      let stored = with_content rules content metadata in
      let there = lookup-with_content content metadata t stamped in
      let (ctype, typed) = sent_type-run content file whole in
      let (headers, told) = container_headers-run file content ctype stored t whole there in
      (
        headers,
        (accepted_with rules ctype, update rules.is_sys_meta [] file.metadata),
        rw (space, typed, told) refl,
        refl,
        refl,
      )
