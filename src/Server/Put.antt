-- ===== src/Server/Put.antt =====
-- The PUT of an object.
pub mod Chunks
pub mod Runs
pub mod Steps
pub mod Stores
use Prim.Native.String.{◌++◌ as cat}
use swiftacular.Base.{
  ℕ, Bool, true, false, not, ◌&&◌, ◌||◌, Option, none, some, List, [], ◌∷◌, ◌++◌, map, String,
  str_eq, Result, ok, raise, key_error, leb, ◌==◌, if◌then◌else◌, or_else, Dict, lookup, insert,
  update, length, text_of,
}
use swiftacular.Server.{
  Status, Response, plain, Flow, go, stop, fail, Read, found, expired, deleted, not_exist,
  quarantined, xattr_not_supported, delete_at, conditional_delete_at_update,
}
use swiftacular.Server.Handler.{
  Step, queue, update_container, close_writer, put, commit, Run, run, ◌>>=◌, ◌>>◌, pure, lift,
  answer, take_steps, demand,
}
use swiftacular.Server.Updates.{given, set, get}
use swiftacular.Server.Overrides.{check_container_override}
use swiftacular.Server.Rules.{Rules, int_of, copy_headers, copied_keys}
use swiftacular.Server.Reads.{Views}
use swiftacular.Server.Body.{
  Bytes, Uploads, Chunk, Next, malformed, writer_step, stage_obj_data, read_mime_footers_metadata,
  drain_mime_request, send_multi_stage_continue_headers,
}

-- `creation_error` is what check_object_creation answers; `message_length` may be a ValueError;
-- `if_none_match` says what is in it.
pub record Putting : Type 0 where
  pub timestamp : ℕ
  pub headers : Dict String
  pub has_device : Bool
  pub creation_error : Option Response
  pub message_length : Result (Option ℕ)
  pub if_none_match : Option (Option String → Bool)
  pub chunks : List Chunk
  pub docs : List Next

-- What is known of the object that is there.
pub record Before : Type 0 where
  pub fsize : Option ℕ
  pub metadata : Dict String

-- The flags of a body of several documents.
pub record Stages : Type 0 where
  pub have_metadata_footer : Bool
  pub use_multiphase_commit : Bool

module _ (uploads : Uploads) where
  abbrev pub rules : Rules
  rules = uploads.views.rules

  abbrev sized : Option String → Flow (Option ℕ)
  sized none = go none
  sized (some text) = elim (rules.int text) [ none ↦ malformed | some n ↦ go (some n) ]

  unfoldable pub fsize_of : Dict String → Result (Option ℕ) → Flow (Option ℕ)
  unfolding lookup
  fsize_of headers (raise e) = malformed
  fsize_of headers (ok (some n)) = go (some n)
  fsize_of headers (ok none) = sized (lookup "X-Backend-Obj-Content-Length" headers)

  -- The metadata and the time of the object that is there. DiskFileExpired is a DiskFileDeleted.
  unfoldable pub read_before : Read → Flow (Dict String × ℕ)
  read_before (found metadata t) = go (metadata, t)
  read_before (deleted t) = go ([], t)
  read_before (expired metadata t) = go ([], t)
  read_before not_exist = go ([], 0)
  read_before quarantined = go ([], 0)
  read_before xattr_not_supported = stop (plain Status.insufficient_storage)

  abbrev is_empty : Dict String → Bool
  is_empty [] = true
  is_empty (entry ∷ metadata) = false

  -- Whether If-None-Match forbids the PUT.
  unfoldable pub is_forbidden : Option (Option String → Bool) → Dict String → Bool
  unfolding lookup
  is_forbidden none metadata = false
  is_forbidden (some is_in) metadata =
      not (is_empty metadata) && (is_in (some "*") || is_in (lookup "ETag" metadata))

  abbrev checked_before : Putting → Option ℕ → Dict String → ℕ → Flow Before
  checked_before request fsize metadata orig_timestamp =
      if is_forbidden request.if_none_match metadata
      then stop (plain Status.precondition_failed)
      else if leb request.timestamp orig_timestamp
      then stop (record {
        status = Status.conflict;
        backend_timestamp = some orig_timestamp;
        content_type = none;
      })
      else go (record { fsize = fsize; metadata = metadata })

  unfoldable pub pre_create_checks : Putting → Read → Run Before
  unfolding fsize_of read_before is_forbidden
  pre_create_checks request read = elim request.creation_error [
    | some response ↦ answer response
    | none ↦ do
      fsize ← lift (fsize_of request.headers request.message_length)
      (metadata, orig_timestamp) ← lift (
          if request.has_device then read_before read else stop (plain Status.insufficient_storage))
      lift (checked_before request fsize metadata orig_timestamp)
  ]

  abbrev pub is_set : Option String → Bool
  is_set none = false
  is_set (some text) = rules.remote.config_true_value text

  -- `none` is a body of one document.
  unfoldable pub multi_stage : Dict String → Flow (Option Stages)
  unfolding lookup
  multi_stage headers =
      let footer = is_set (lookup "X-Backend-Obj-Metadata-Footer" headers) in
      let multiphase = is_set (lookup "X-Backend-Obj-Multiphase-Commit" headers) in
      if footer || multiphase
      then elim (given (lookup "X-Backend-Obj-Multipart-Mime-Boundary" headers)) [
        | none ↦ malformed
        | some boundary ↦
            go (some (record { have_metadata_footer = footer; use_multiphase_commit = multiphase }))
      ]
      else go none

  abbrev pub is_stored : String → Bool
  is_stored key = uploads.views.is_sys_or_user_meta key || rules.is_transient key

  unfoldable pub requested_metadata : Putting → String → ℕ → String → Dict String
  unfolding update copy_headers copied_keys text_of
  requested_metadata request ctype upload_size etag =
      copy_headers rules (copied_keys rules request.headers) request.headers (
        update is_stored
          (("X-Timestamp", rules.internal request.timestamp)
            ∷ ("Content-Type", ctype)
            ∷ ("Content-Length", text_of upload_size)
            ∷ ("ETag", etag)
            ∷ [])
          request.headers)

  unfoldable pub get_request_metadata : Putting → ℕ → String → Run (Dict String)
  unfolding lookup requested_metadata
  get_request_metadata request upload_size etag = do
    ctype ← demand key_error (lookup "Content-Type" request.headers)
    pure (requested_metadata request ctype upload_size etag)

  -- The ETag that the client has computed.
  abbrev pub received_etag : Dict String → Dict String → String
  received_etag headers footers =
      uploads.normalize_etag
        (or_else (or_else "" (lookup "ETag" headers)) (get rules.remote "etag" footers))

  unfoldable pub apply_extra_metadata : Putting → Dict String → Dict String → Run (Dict String)
  unfolding lookup update
  apply_extra_metadata request metadata footers =
      let received = received_etag request.headers footers in
      let combined = update is_stored metadata footers in
      if str_eq received "" then pure combined else (do
        etag ← demand key_error (lookup "ETag" combined)
        if str_eq received etag then pure combined else answer (plain Status.unprocessable))

  abbrev footers_of : Putting → Option Stages → Run (Dict String × List Next)
  footers_of request none = pure ([], request.docs)
  footers_of request (some stages) =
      lift (read_mime_footers_metadata uploads stages.have_metadata_footer request.docs)

  abbrev continued : Option Stages → List Next → Run (List Next)
  continued none docs = pure docs
  continued (some stages) docs =
      send_multi_stage_continue_headers uploads stages.use_multiphase_commit docs

  abbrev drained_of : Option Stages → List Next → Run (Unit {0})
  drained_of none docs = pure tt
  drained_of (some stages) docs = lift (drain_mime_request uploads docs)

  abbrev pub commit_steps : Putting → List Step
  commit_steps request =
      if is_set (lookup "X-Backend-No-Commit" request.headers)
      then []
      else commit request.timestamp ∷ []

  -- From the end of the object's bytes on: the metadata that is stored, the footers and the ETag.
  unfoldable pub store : Putting → Option Stages → Bytes → Run (Dict String × Dict String × String)
  unfolding get_request_metadata read_mime_footers_metadata apply_extra_metadata
      send_multi_stage_continue_headers drain_mime_request lookup
  store request stages bytes = do
    requested ← get_request_metadata request (length bytes) (uploads.digest bytes)
    (footers, docs) ← footers_of request stages
    metadata ← apply_extra_metadata request requested footers
    writer_step uploads (put metadata)
    rest ← continued stages docs
    take_steps (commit_steps request)
    drained_of stages rest
    pure (metadata, footers, uploads.digest bytes)

  -- The part under `try`.
  unfoldable pub upload : Putting → Before → Run (Dict String × Dict String × String)
  unfolding multi_stage stage_obj_data store
  upload request before = do
    stages ← lift (multi_stage request.headers)
    bytes ← stage_obj_data uploads request.chunks before.fsize
    store request stages bytes

  -- `finally: writer.close()`
  abbrev pub closing {ℓ} : {A : Type ℓ} → Run A → Run A
  closing (run steps flow) = run (steps ++ close_writer ∷ []) flow

  unfoldable pub commit_headers :
      Dict String → Dict String → String → String → String → String → Dict String
  unfolding check_container_override insert
  commit_headers headers footers size ctype timestamp etag =
      check_container_override rules.remote rules.sysmeta_prefix
        (set rules.remote "x-etag" etag (
          set rules.remote "x-timestamp" timestamp
            (set rules.remote "x-content-type" ctype (set rules.remote "x-size" size []))))
        headers footers

  unfoldable pub post_commit_updates :
      Putting → Dict String → Dict String → Dict String → Run (Unit {0})
  unfolding lookup delete_at conditional_delete_at_update commit_headers
  post_commit_updates request orig_metadata footers metadata = do
    orig_delete_at ← lift (int_of rules (lookup "X-Delete-At" orig_metadata))
    new_delete_at ← lift (int_of rules (lookup "X-Delete-At" request.headers))
    take_steps (map queue (conditional_delete_at_update orig_delete_at new_delete_at))
    size ← demand key_error (lookup "Content-Length" metadata)
    ctype ← demand key_error (lookup "Content-Type" metadata)
    timestamp ← demand key_error (lookup "X-Timestamp" metadata)
    etag ← demand key_error (lookup "ETag" metadata)
    take_steps
        (update_container (commit_headers request.headers footers size ctype timestamp etag) ∷ [])

  -- The ETag of HTTPCreated.
  unfoldable pub put_object : Putting → Read → Run String
  unfolding pre_create_checks upload post_commit_updates
  put_object request read = do
    before ← pre_create_checks request read
    (metadata, footers, etag) ← closing (upload request before)
    post_commit_updates request before.metadata footers metadata
    pure etag
