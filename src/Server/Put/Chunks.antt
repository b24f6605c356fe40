-- ===== src/Server/Put/Chunks.antt =====
-- What a PUT writes of its body, and the metadata that it puts.
use mathlib.Core.List.{append-nil, append_assoc}
use swiftacular.Base.{
  ℕ, ◌≡◌, refl, sym, ap, ◌∙◌, Bool, true, false, Option, List, [], ◌∷◌, ◌++◌, map, String,
  if◌then◌else◌, lookup, lookup-update, length, text_of,
}
use swiftacular.Server.{go}
use swiftacular.Server.Handler.{
  Step, write_chunk, open_writer, run, after, pure, lift, gathered, tell_of, queue_of, put_of,
  commit_of, byte_of, close_of,
}
use swiftacular.Server.Rules.{copied_keys, is_spared, lookup-copy_headers_spared}
use swiftacular.Server.Body.{
  Bytes, Uploads, chunk, disconnected, is_size, write_chunks, stage_obj_data,
}
use swiftacular.Server.Put.{Putting, rules, is_stored, requested_metadata}

abbrev pub joined : List Bytes → Bytes
joined [] = []
joined (bytes ∷ pieces) = bytes ++ joined pieces

module _ (uploads : Uploads) where
  -- The metadata of the request keeps what the server puts there.
  pub lookup-requested_metadata :
      (request : Putting) (ctype : String) (size : ℕ) (etag j : String)
      → is_stored uploads j ≡ false
      → is_spared uploads.views.rules j (copied_keys (rules uploads) request.headers) ≡ true
      → lookup j (requested_metadata uploads request ctype size etag)
        ≡ lookup j (
            ("X-Timestamp", uploads.views.rules.internal request.timestamp)
            ∷ ("Content-Type", ctype)
            ∷ ("Content-Length", text_of size)
            ∷ ("ETag", etag)
            ∷ [])
  unfolding requested_metadata
  lookup-requested_metadata request ctype size etag j own spared =
      lookup-copy_headers_spared (rules uploads) (copied_keys (rules uploads) request.headers)
        request.headers _ j spared
      ∙ lookup-update (is_stored uploads) j _ request.headers
      ∙ rw own refl

-- Only bytes of the object are written.
pub record IsBody (body : Bytes) (steps : List Step) : Type 0 where
  pub bytes : gathered byte_of steps ≡ body
  pub puts : gathered put_of steps ≡ []
  pub commits : gathered commit_of steps ≡ []
  pub tells : gathered tell_of steps ≡ []
  pub queues : gathered queue_of steps ≡ []
  pub closes : gathered close_of steps ≡ []

IsBody-write_chunk :
    (bytes rest : Bytes) (steps : List Step)
    → IsBody rest steps
    → IsBody (bytes ++ rest) (write_chunk bytes ∷ steps)
IsBody-write_chunk bytes rest steps is = record {
  bytes = ap (λ l. bytes ++ l) is.bytes;
  puts = is.puts;
  commits = is.commits;
  tells = is.tells;
  queues = is.queues;
  closes = is.closes;
}

module _ (uploads : Uploads) (room : (step : Step) → uploads.refuses step ≡ false) where
  write_chunks-run :
      (pieces : List Bytes) (written : Bytes)
      → (steps : List Step) × (write_chunks uploads (map chunk pieces) written
          ≡ run steps (go (written ++ joined pieces)))
        × IsBody (joined pieces) steps
  unfolding write_chunks
  write_chunks-run [] written = (
    [],
    ap (λ l. run [] (go l)) (sym (append-nil written)),
    record {
      bytes = refl;
      puts = refl;
      commits = refl;
      tells = refl;
      queues = refl;
      closes = refl;
    },
  )
  write_chunks-run (bytes ∷ pieces) written =
      let (steps, e, is) = write_chunks-run pieces (written ++ bytes) in
      (
        write_chunk bytes ∷ steps,
        rw (room (write_chunk bytes), e)
            (ap (λ l. run (write_chunk bytes ∷ steps) (go l))
              (append_assoc written bytes (joined pieces))),
        IsBody-write_chunk bytes (joined pieces) steps is,
      )

  ended :
      (right : Bool) (steps : List Step) (body : Bytes)
      → after (open_writer ∷ []) (after steps (if right then pure body else lift disconnected))
        ≡ run (open_writer ∷ steps) (if right then go body else disconnected)
  ended true steps body = ap (λ l. run (open_writer ∷ l) (go body)) (append-nil steps)
  ended false steps body = ap (λ l. run (open_writer ∷ l) disconnected) (append-nil steps)

  -- All is written, and then the size is compared.
  pub stage_obj_data-run :
      (pieces : List Bytes) (fsize : Option ℕ)
      → (steps : List Step) × (stage_obj_data uploads (map chunk pieces) fsize
          ≡ run steps (
              if is_size uploads fsize (length (joined pieces))
              then go (joined pieces)
              else disconnected))
        × IsBody (joined pieces) steps
  unfolding stage_obj_data
  stage_obj_data-run pieces fsize =
      let (steps, e, is) = write_chunks-run pieces [] in
      (
        open_writer ∷ steps,
        rw (room open_writer, e)
            (ended (is_size uploads fsize (length (joined pieces))) steps (joined pieces)),
        record {
          bytes = is.bytes;
          puts = is.puts;
          commits = is.commits;
          tells = is.tells;
          queues = is.queues;
          closes = is.closes;
        },
      )
