-- ===== src/Server/Put/Stores.antt =====
-- The body of a PUT is stored as it came, or not at all.
use mathlib.Core.List.{append-nil}
use swiftacular.Base.{
  ℕ, ◌≡◌, refl, ap, ◌∙◌, inl, inr, Bool, true, false, not, ◌&&◌, none, some, List, [], ◌∷◌, ◌++◌,
  map, String, arith, if◌then◌else◌, Bool-cases, Dict, lookup, update, length, text_of,
}
use swiftacular.Server.{Status, Response, Read, plain, Flow, go, stop, conditional_delete_at_update}
use swiftacular.Server.Handler.{
  Step, run, after, close_writer, gathered, tell_of, queue_of, put_of, commit_of, byte_of, close_of,
}
use swiftacular.Server.Rules.{int_of, copied_keys}
use swiftacular.Server.Body.{Bytes, Uploads, chunk}
use swiftacular.Server.Put.{
  Putting, Before, rules, is_stored, multi_stage, requested_metadata, is_set, upload,
  pre_create_checks, put_object,
}
use swiftacular.Server.Post.Stored.{gathered-append, lookup-update-some, lookup-copy_headers}
use swiftacular.Server.Put.Chunks.{joined, IsBody, lookup-requested_metadata, stage_obj_data-run}
use swiftacular.Server.Put.Runs.{
  IsOwn, post_commit_updates-run, is_sized, is_matching, from_body, store-run, upload_flow,
}
use swiftacular.Server.Put.Steps.{
  stored as stored_of, is_valid as is_valid_of, all_steps, gathered-all_steps, gathered-all_commits,
  gathered-all_queues,
}

module _ (uploads : Uploads) (room : (step : Step) → uploads.refuses step ≡ false)
    (request : Putting) (before : Before) (pieces : List Bytes) (ctype : String)
    (orig_delete_at new_delete_at : ℕ) where
  -- The metadata that is put.
  abbrev pub stored : Dict String
  stored = stored_of uploads room request before pieces ctype orig_delete_at new_delete_at

  -- The size and the ETag are as announced, where they are.
  abbrev pub is_valid : Bool
  is_valid = is_valid_of uploads room request before pieces ctype orig_delete_at new_delete_at

  unless :
      (b : Bool)
      → (if b then [] else request.timestamp ∷ []) ≡ (if not b then request.timestamp ∷ [] else [])
  unless true = refl
  unless false = refl

  -- What a PUT does.
  pub record Puts (steps : List Step) (flow : Flow String) : Type 0 where
    pub written : gathered byte_of steps ≡ joined pieces
    pub stored_once : gathered put_of steps ≡ (if is_valid then stored ∷ [] else [])
    pub committed : gathered commit_of steps ≡ (
        if is_valid && not (is_set uploads (lookup "X-Backend-No-Commit" request.headers))
        then request.timestamp ∷ []
        else [])
    pub told : length (gathered tell_of steps) ≡ (if is_valid then 1 else 0)
    pub queued :
        gathered queue_of steps
        ≡ (if is_valid then conditional_delete_at_update orig_delete_at new_delete_at else [])
    pub closed : length (gathered close_of steps) ≡ 1
    pub answered : flow ≡ (
        if is_valid
        then go (uploads.digest (joined pieces))
        else stop (
            plain (
              if is_sized uploads room request before pieces ctype orig_delete_at new_delete_at
              then Status.unprocessable
              else Status.client_disconnect)))
    pub tagged : is_valid ≡ true → lookup "ETag" stored ≡ some (uploads.digest (joined pieces))
    pub measured :
        is_valid ≡ true → lookup "Content-Length" stored ≡ some (text_of (length (joined pieces)))

  valid-Puts :
      (written : List Step) (told : Dict String)
      → IsBody (joined pieces) written
      → is_valid ≡ true
      → lookup "ETag" stored ≡ some (uploads.digest (joined pieces))
      → lookup "Content-Length" stored ≡ some (text_of (length (joined pieces)))
      → Puts
          (all_steps uploads room request before pieces ctype orig_delete_at new_delete_at written
            told)
          (go (uploads.digest (joined pieces)))
  valid-Puts written told is valid tagged measured = record {
    written =
        gathered-all_steps uploads room request before pieces ctype orig_delete_at new_delete_at
          byte_of written told refl (λ e. refl)
        ∙ append-nil (gathered byte_of written)
        ∙ is.bytes;
    stored_once =
        gathered-all_steps uploads room request before pieces ctype orig_delete_at new_delete_at
          put_of written told refl (λ e. refl)
        ∙ rw (is.puts, valid) refl;
    committed =
        gathered-all_commits uploads room request before pieces ctype orig_delete_at new_delete_at
          written told is.commits
        ∙ rw valid (unless (is_set uploads (lookup "X-Backend-No-Commit" request.headers)));
    told =
        ap length (
          gathered-all_steps uploads room request before pieces ctype orig_delete_at new_delete_at
            tell_of written told refl (λ e. refl))
        ∙ rw (is.tells, valid) refl;
    queued =
        gathered-all_queues uploads room request before pieces ctype orig_delete_at new_delete_at
          written told is.queues
        ∙ rw valid refl;
    closed =
        ap length (
          gathered-all_steps uploads room request before pieces ctype orig_delete_at new_delete_at
            close_of written told refl (λ e. refl))
        ∙ rw is.closes refl;
    answered = rw valid refl;
    tagged = λ h. tagged;
    measured = λ h. measured;
  }

  -- A PUT that stores nothing.
  invalid-Puts :
      (written : List Step) (flow : Flow String)
      → IsBody (joined pieces) written
      → is_valid ≡ false
      → flow
        ≡ stop (
            plain (
              if is_sized uploads room request before pieces ctype orig_delete_at new_delete_at
              then Status.unprocessable
              else Status.client_disconnect))
      → Puts (written ++ close_writer ∷ []) flow
  invalid-Puts written flow is invalid answered = record {
    written =
        gathered-append byte_of written (close_writer ∷ [])
        ∙ append-nil (gathered byte_of written)
        ∙ is.bytes;
    stored_once = gathered-append put_of written (close_writer ∷ []) ∙ rw (is.puts, invalid) refl;
    committed =
        gathered-append commit_of written (close_writer ∷ []) ∙ rw (is.commits, invalid) refl;
    told =
        ap length (gathered-append tell_of written (close_writer ∷ []))
        ∙ rw (is.tells, invalid) refl;
    queued = gathered-append queue_of written (close_writer ∷ []) ∙ rw (is.queues, invalid) refl;
    closed = ap length (gathered-append close_of written (close_writer ∷ [])) ∙ rw is.closes refl;
    answered = answered ∙ rw invalid refl;
    tagged = λ h. absurd (ground (arith, invalid));
    measured = λ h. absurd (ground (arith, invalid));
  }

  put_object-valid :
      (read : Read) (written : List Step) (size type_ time : String)
      → pre_create_checks uploads request read ≡ run [] (go before)
      → upload uploads request before
        ≡ after written
            (from_body uploads room request before pieces ctype orig_delete_at new_delete_at true)
      → int_of (rules uploads) (lookup "X-Delete-At" before.metadata) ≡ go orig_delete_at
      → int_of (rules uploads) (lookup "X-Delete-At" request.headers) ≡ go new_delete_at
      → lookup "Content-Length" stored ≡ some size
      → lookup "Content-Type" stored ≡ some type_
      → lookup "X-Timestamp" stored ≡ some time
      → lookup "ETag" stored ≡ some (uploads.digest (joined pieces))
      → (told : Dict String) × (put_object uploads request read
          ≡ run
              (all_steps uploads room request before pieces ctype orig_delete_at new_delete_at
                written told)
              (go (uploads.digest (joined pieces))))
  unfolding put_object
  put_object-valid read written size type_ time checks runs old new ls lt lx le =
      let (told, e) =
        post_commit_updates-run uploads request before.metadata [] stored orig_delete_at
          new_delete_at size type_ time (uploads.digest (joined pieces)) old new ls lt lx le in
      (told, simp (checks, runs, e) refl)

  put_object-invalid :
      (read : Read) (written : List Step) (response : Response)
      → pre_create_checks uploads request read ≡ run [] (go before)
      → upload uploads request before ≡ run written (stop response)
      → put_object uploads request read ≡ run (written ++ close_writer ∷ []) (stop response)
  unfolding put_object
  put_object-invalid read written response checks runs = simp (checks, runs) refl

  stored-some :
      (j w : String)
      → lookup j (
          ("X-Timestamp", uploads.views.rules.internal request.timestamp)
          ∷ ("Content-Type", ctype)
          ∷ ("Content-Length", text_of (length (joined pieces)))
          ∷ ("ETag", uploads.digest (joined pieces))
          ∷ [])
        ≡ some w
      → (x : String) × (lookup j stored ≡ some x)
  unfolding requested_metadata
  stored-some j w h =
      let own =
        ("X-Timestamp", uploads.views.rules.internal request.timestamp)
        ∷ ("Content-Type", ctype)
        ∷ ("Content-Length", text_of (length (joined pieces)))
        ∷ ("ETag", uploads.digest (joined pieces))
        ∷ [] in
      let (x, there) = lookup-update-some (is_stored uploads) j w own request.headers h in
      lookup-copy_headers (rules uploads) (copied_keys (rules uploads) request.headers)
        request.headers (update (is_stored uploads) own request.headers) j x there

  stored_own :
      (j w : String)
      → IsOwn uploads request j
      → lookup j (
          ("X-Timestamp", uploads.views.rules.internal request.timestamp)
          ∷ ("Content-Type", ctype)
          ∷ ("Content-Length", text_of (length (joined pieces)))
          ∷ ("ETag", uploads.digest (joined pieces))
          ∷ [])
        ≡ some w
      → lookup j stored ≡ some w
  stored_own j w own h =
      lookup-requested_metadata uploads request ctype (length (joined pieces))
        (uploads.digest (joined pieces)) j own.0 own.1
      ∙ h

  -- A PUT of one document that passes the checks, whose chunks all come in time and have space, and
  -- that has a content type and times of deletion that are numbers, returns. It writes the bytes of
  -- the chunks. If their number and their digest are those that the request announces, where it does,
  -- it puts the metadata once, with the digest as ETag and the number as Content-Length, commits it at
  -- the time of the request unless that asks for no commit, tells the container once, gives the queue
  -- the entries for the times of deletion, and answers with the digest. Otherwise it does none of
  -- these, and answers that the client has gone, or that the ETag does not match. The writer is closed
  -- once in each case. No header of the request is stored as ETag or Content-Length.
  pub put_object-Puts :
      (read : Read)
      → pre_create_checks uploads request read ≡ run [] (go before)
      → request.chunks ≡ map chunk pieces
      → multi_stage uploads request.headers ≡ go none
      → lookup "Content-Type" request.headers ≡ some ctype
      → int_of (rules uploads) (lookup "X-Delete-At" before.metadata) ≡ go orig_delete_at
      → int_of (rules uploads) (lookup "X-Delete-At" request.headers) ≡ go new_delete_at
      → IsOwn uploads request "ETag"
      → IsOwn uploads request "Content-Length"
      → (steps : List Step) × (flow : Flow String) × (put_object uploads request read
          ≡ run steps flow)
        × Puts steps flow
  unfolding lookup
  put_object-Puts read checks chunked single typed old new own_tag own_size =
      let (written, e, is) = stage_obj_data-run uploads room pieces before.fsize in
      let tagged = stored_own "ETag" (uploads.digest (joined pieces)) own_tag refl in
      let measured = stored_own "Content-Length" (text_of (length (joined pieces))) own_size refl in
      let (type_, lt) = stored-some "Content-Type" ctype refl in
      let (time, lx) =
        stored-some "X-Timestamp" (uploads.views.rules.internal request.timestamp) refl in
      let stores =
        store-run uploads room request before pieces ctype orig_delete_at new_delete_at typed
          tagged in
      let runs =
        upload_flow uploads room request before pieces ctype orig_delete_at new_delete_at _ written
          stores chunked single e in
      elim (Bool-cases
        (is_sized uploads room request before pieces ctype orig_delete_at new_delete_at)) [
          | inr short ↦ (
            _,
            stop (plain Status.client_disconnect),
            put_object-invalid read written (plain Status.client_disconnect) checks
                (runs ∙ rw short refl),
            invalid-Puts written (stop (plain Status.client_disconnect)) is (rw short refl)
                (rw short refl),
          )
          | inl sized ↦
              elim (Bool-cases (
                is_matching uploads room request before pieces ctype orig_delete_at
                  new_delete_at)) [
                    | inr other ↦ (
                      _,
                      stop (plain Status.unprocessable),
                      put_object-invalid read written (plain Status.unprocessable) checks (
                          runs
                          ∙ rw (sized, other)
                              (ap (λ l. run l (stop (plain Status.unprocessable)))
                                (append-nil written))),
                      invalid-Puts written (stop (plain Status.unprocessable)) is
                          (rw (sized, other) refl) (rw sized refl),
                    )
                    | inl same ↦
                        let (told, done) =
                          put_object-valid read written _ _ _ checks (runs ∙ rw (sized, same) refl)
                            old new measured lt lx tagged in
                        (
                          _,
                          _,
                          done,
                          valid-Puts written told is (rw (sized, same) refl) tagged measured,
                        )
                  ]
        ]
