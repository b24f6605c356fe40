-- ===== src/Server/Post/Posted.antt =====
-- What a POST does to the object, to the container and to the queue.
use mathlib.Core.List.{append-nil}
use swiftacular.Base.{
  ℕ, ◌≡◌, refl, ap, ◌∙◌, inl, inr, Bool, true, false, not, ◌&&◌, Option, none, some, List, [], ◌∷◌,
  ◌++◌, map, String, arith, ltb, if◌then◌else◌, Bool-cases, or_else, Dict, lookup, insert,
  lookup-insert, length,
}
use swiftacular.Server.{Status, Response, plain, Flow, go, stop, fail, conditional_delete_at_update}
use swiftacular.Server.Handler.{
  Step, queue, write_metadata, update_container, run, after, gathered, write_of, tell_of, queue_of,
}
use swiftacular.Server.Rules.{Rules, int_of, copied_keys, is_spared}
use swiftacular.Server.Content.{
  Posting, Opened, Content, time_of, ctype_time, new_metadata, base_metadata, content_of,
  with_content,
}
use swiftacular.Server.Post.{
  Accepted, opened, written, is_stale, post_at, post_file, is_past, post_with, post,
}
use swiftacular.Server.Post.Stored.{
  gathered-append, gathered-queue, lookup-insert_same, lookup-new_metadata, lookup-with_content,
  IsWhole, written-run,
}

module _ (rules : Rules) where
  module _ (request : Posting) (new_delete_at : ℕ) (file : Opened)
      (orig_timestamp ctype_timestamp orig_delete_at : ℕ) (posted_at : String) where
    abbrev pub is_fresh : Bool
    is_fresh = not (is_stale rules request file orig_timestamp ctype_timestamp)

    abbrev pub is_newer : Bool
    is_newer = ltb orig_timestamp request.timestamp

    -- The status that is answered, with the X-Backend-Timestamp; none where the handler raises.
    abbrev pub reply_of : Flow (Accepted rules) → Option (Status × Option ℕ)
    reply_of (go (response, headers)) = some (response.status, response.backend_timestamp)
    reply_of (stop response) = some (response.status, response.backend_timestamp)
    reply_of (fail e) = none

    abbrev pub reply : Status × Option ℕ
    reply =
        if is_fresh
        then (if request.has_space
            then (Status.accepted, none)
            else (Status.insufficient_storage, none))
        else (Status.conflict, some orig_timestamp)

    abbrev pub stamp : String
    stamp = if is_newer then rules.internal request.timestamp else posted_at

    -- What a POST does, where `stored` is the metadata that it would write.
    pub record Posted (stored : Dict String) (steps : List Step) (flow : Flow (Accepted rules))
        : Type 0 where
      pub wrote :
          gathered write_of steps ≡ (if is_fresh && request.has_space then stored ∷ [] else [])
      pub told : length (gathered tell_of steps) ≡ (if is_fresh && request.has_space then 1 else 0)
      pub queued : gathered queue_of steps ≡ (
          if is_fresh && is_newer
          then conditional_delete_at_update orig_delete_at new_delete_at
          else [])
      pub replied : reply_of flow ≡ some reply
      pub stamped : lookup "X-Timestamp" stored ≡ some stamp
      pub typed :
          ltb file.content_type_timestamp ctype_timestamp ≡ true
          → (lookup "Content-Type" stored
              ≡ some (or_else "" (lookup "Content-Type" request.headers)))
            × (lookup "Content-Type-Timestamp" stored ≡ some (rules.internal ctype_timestamp))

    -- What is done before the metadata is written.
    record Prepared (steps : List Step) (metadata : Dict String) : Type 0 where
      pub stamps : lookup "X-Timestamp" metadata ≡ some stamp
      pub writes : gathered write_of steps ≡ []
      pub tells : gathered tell_of steps ≡ []
      pub queues :
          gathered queue_of steps
          ≡ (if is_newer then conditional_delete_at_update orig_delete_at new_delete_at else [])

    base_metadata-Prepared :
        rules.is_transient "X-Timestamp" ≡ false
        → is_spared rules "X-Timestamp" (copied_keys rules request.headers) ≡ true
        → int_of rules (lookup "X-Delete-At" file.metadata) ≡ go orig_delete_at
        → (is_newer ≡ false
            → (metadata : Dict String) × (file.metafile_metadata ≡ some metadata)
              × (lookup "X-Timestamp" metadata ≡ some posted_at))
        → (steps : List Step) × (metadata : Dict String) × (base_metadata rules request
              new_delete_at file orig_timestamp
            ≡ run steps (go metadata))
          × Prepared steps metadata
    unfolding base_metadata
    base_metadata-Prepared plain_stamp spared at older = elim (Bool-cases is_newer) [
      | inl newer ↦
          let effects = conditional_delete_at_update orig_delete_at new_delete_at in
          let (queues, writes, tells) = gathered-queue effects in
          (
            map queue effects,
            new_metadata rules request,
            rw (newer, at)
                (ap (λ steps. run steps (go (new_metadata rules request)))
                  (append-nil (map queue effects))),
            record {
              stamps = rw newer (lookup-new_metadata rules request plain_stamp spared);
              writes = writes;
              tells = tells;
              queues = rw newer queues;
            },
          )
      | inr same ↦
          let (metadata, is, there) = older same in
          (
            [],
            metadata,
            rw (same, is) refl,
            record { stamps = rw same there; writes = refl; tells = refl; queues = rw same refl },
          )
    ]

    abbrev content : Content
    content = content_of rules request file ctype_timestamp

    is_fresh→typed :
        (metadata : Dict String)
        → ltb file.content_type_timestamp ctype_timestamp ≡ true
        → (lookup "Content-Type" (with_content rules content metadata)
            ≡ some (or_else "" (lookup "Content-Type" request.headers)))
          × (lookup "Content-Type-Timestamp" (with_content rules content metadata)
              ≡ some (rules.internal ctype_timestamp))
    unfolding with_content content_of
    is_fresh→typed metadata newest = rw newest (
      lookup-insert "Content-Type-Timestamp" "Content-Type" (rules.internal ctype_timestamp)
            (insert "Content-Type" (or_else "" (lookup "Content-Type" request.headers)) metadata)
          ∙ lookup-insert_same "Content-Type" (or_else "" (lookup "Content-Type" request.headers))
              metadata,
      lookup-insert_same "Content-Type-Timestamp" (rules.internal ctype_timestamp)
          (insert "Content-Type" (or_else "" (lookup "Content-Type" request.headers)) metadata),
    )

    written-full :
        (content : Content) (metadata : Dict String)
        → request.has_space ≡ false
        → written rules request file content metadata
          ≡ run [] (stop (plain Status.insufficient_storage))
    unfolding written
    written-full content metadata full = rw full refl

    not_fresh : is_fresh ≡ false → is_stale rules request file orig_timestamp ctype_timestamp ≡ true
    not_fresh h = ground arith

    not_stale : is_fresh ≡ true → is_stale rules request file orig_timestamp ctype_timestamp ≡ false
    not_stale h = ground arith

    abbrev conflicting : Response
    conflicting = record {
      status = Status.conflict;
      backend_timestamp = some orig_timestamp;
      content_type = none;
    }

    module _ {steps : List Step} {metadata : Dict String} (prepared : Prepared steps metadata) where
      stored : Dict String
      stored = with_content rules content metadata

      stored-stamped : lookup "X-Timestamp" stored ≡ some stamp
      unfolding stored
      stored-stamped = lookup-with_content rules content metadata stamp prepared.stamps

      stale-Posted : is_fresh ≡ false → Posted stored [] (stop conflicting)
      unfolding stored
      stale-Posted stale = record {
        wrote = rw stale refl;
        told = rw stale refl;
        queued = rw stale refl;
        replied = rw stale refl;
        stamped = stored-stamped;
        typed = is_fresh→typed metadata;
      }

      full-Posted :
          is_fresh ≡ true
          → request.has_space ≡ false
          → Posted stored (steps ++ []) (stop (plain Status.insufficient_storage))
      unfolding stored
      full-Posted fresh full = record {
        wrote = gathered-append write_of steps [] ∙ rw (prepared.writes, fresh, full) refl;
        told = ap length (gathered-append tell_of steps []) ∙ rw (prepared.tells, fresh, full) refl;
        queued =
            gathered-append queue_of steps []
            ∙ append-nil (gathered queue_of steps)
            ∙ rw (prepared.queues, fresh) refl;
        replied = rw (fresh, full) refl;
        stamped = stored-stamped;
        typed = is_fresh→typed metadata;
      }

      space-Posted :
          (headers : Dict String) (accepted : Accepted rules)
          → accepted.0.status ≡ Status.accepted
          → accepted.0.backend_timestamp ≡ none
          → is_fresh ≡ true
          → request.has_space ≡ true
          → Posted stored
              (steps ++ write_metadata stored ∷ update_container headers ∷ [])
              (go accepted)
      unfolding stored
      space-Posted headers accepted status backend fresh space =
          let last = write_metadata stored ∷ update_container headers ∷ [] in
          record {
            wrote = gathered-append write_of steps last ∙ rw (prepared.writes, fresh, space) refl;
            told =
                ap length (gathered-append tell_of steps last)
                ∙ rw (prepared.tells, fresh, space) refl;
            queued =
                gathered-append queue_of steps last
                ∙ append-nil (gathered queue_of steps)
                ∙ rw (prepared.queues, fresh) refl;
            replied = rw (fresh, space, status, backend) refl;
            stamped = stored-stamped;
            typed = is_fresh→typed metadata;
          }

    post_at-Posted :
        IsWhole rules file
        → rules.is_transient "X-Timestamp" ≡ false
        → is_spared rules "X-Timestamp" (copied_keys rules request.headers) ≡ true
        → int_of rules (lookup "X-Delete-At" file.metadata) ≡ go orig_delete_at
        → (is_newer ≡ false
            → (metadata : Dict String) × (file.metafile_metadata ≡ some metadata)
              × (lookup "X-Timestamp" metadata ≡ some posted_at))
        → (metadata : Dict String) × (steps : List Step) × (flow : Flow (Accepted rules)) × (post_at
              rules request new_delete_at file orig_timestamp ctype_timestamp
            ≡ run steps flow)
          × Posted metadata steps flow
    unfolding post_at stored
    post_at-Posted whole plain_stamp spared at older =
        let (steps, metadata, is, prepared) = base_metadata-Prepared plain_stamp spared at older in
        let ready = with_content rules content metadata in
        elim (Bool-cases is_fresh) [
          | inr stale ↦ (ready, [], _, rw (not_fresh stale) refl, stale-Posted prepared stale)
          | inl fresh ↦ elim (Bool-cases request.has_space) [
            | inl space ↦
                let (headers, accepted, e, status, backend) =
                  written-run rules request file content metadata stamp whole prepared.stamps
                    space in
                (
                  ready,
                  _,
                  _,
                  rw (not_stale fresh, is) (ap (after steps) e),
                  space-Posted prepared headers accepted status backend fresh space,
                )
            | inr full ↦ (
              ready,
              _,
              _,
              rw (not_stale fresh, is) (ap (after steps) (written-full content metadata full)),
              full-Posted prepared fresh full,
            )
          ]
        ]

    post_run :
        request.has_device ≡ true
        → int_of rules (lookup "X-Delete-At" request.headers) ≡ go new_delete_at
        → is_past rules request new_delete_at ≡ false
        → time_of rules file.metadata ≡ go orig_timestamp
        → ctype_time rules request ≡ go ctype_timestamp
        → post rules request (opened file)
          ≡ after [] (
              after [] (
                after [] (post_at rules request new_delete_at file orig_timestamp ctype_timestamp)))
    unfolding post post_with post_file
    post_run device new future at typed = simp (new, future, device, at, typed) refl

    -- A POST on a device that is there, of an object that can be read, without a time of deletion in
    -- the past, returns. If neither the POST nor its content type is newer than the object's, it answers
    -- 409 with the object's time; else 507 if there is no space, and else 202, and only then does it
    -- write the metadata once and tell the container once. The queue gets the entries for the old and
    -- the new time of deletion exactly if the POST itself is newer. The metadata has the timestamp of
    -- the POST if that is newer, and else the one of the earlier POST; and a content type that is newer
    -- is in it with its time. The object says its size, ETag and content type; where the POST is not
    -- newer there is an earlier one with a timestamp; and no header is stored as X-Timestamp.
    pub post-Posted :
        request.has_device ≡ true
        → int_of rules (lookup "X-Delete-At" request.headers) ≡ go new_delete_at
        → is_past rules request new_delete_at ≡ false
        → time_of rules file.metadata ≡ go orig_timestamp
        → ctype_time rules request ≡ go ctype_timestamp
        → int_of rules (lookup "X-Delete-At" file.metadata) ≡ go orig_delete_at
        → IsWhole rules file
        → rules.is_transient "X-Timestamp" ≡ false
        → is_spared rules "X-Timestamp" (copied_keys rules request.headers) ≡ true
        → (is_newer ≡ false
            → (metadata : Dict String) × (file.metafile_metadata ≡ some metadata)
              × (lookup "X-Timestamp" metadata ≡ some posted_at))
        → (metadata : Dict String) × (steps : List Step) × (flow : Flow (Accepted rules)) × (post
              rules request
              (opened file)
            ≡ run steps flow)
          × Posted metadata steps flow
    post-Posted device new future at typed deletes whole plain_stamp spared older =
        let (metadata, steps, flow, e, posted) =
          post_at-Posted whole plain_stamp spared deletes older in
        (
          metadata,
          steps,
          flow,
          post_run device new future at typed ∙ ap (λ r. after [] (after [] (after [] r))) e,
          posted,
        )
