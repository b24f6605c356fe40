-- ===== src/Server/Put/Runs.antt =====
-- How the parts of a PUT of one document run.
use swiftacular.Base.{
  ℕ, ◌≡◌, refl, inl, inr, Bool, true, false, ◌||◌, none, some, List, [], ◌∷◌, ◌++◌, map, String,
  str_eq, if◌then◌else◌, Bool-cases, Dict, lookup, update, length,
}
use swiftacular.Server.{Status, plain, go, conditional_delete_at_update}
use swiftacular.Server.Handler.{Step, queue, put, update_container, Run, run, after, pure, answer}
use swiftacular.Server.Rules.{is_spared, int_of, copied_keys}
use swiftacular.Server.Body.{Bytes, Uploads, chunk, disconnected, is_size, stage_obj_data}
use swiftacular.Server.Put.{
  Putting, Before, rules, is_stored, multi_stage, requested_metadata, get_request_metadata,
  received_etag, apply_extra_metadata, commit_headers, commit_steps, store, upload,
  post_commit_updates,
}
use swiftacular.Server.Put.Chunks.{joined}

module _ (uploads : Uploads) where
  -- A name whose value is what the server puts there.
  abbrev pub IsOwn : Putting → String → Type 0
  IsOwn request j =
      (is_stored uploads j ≡ false)
      × (is_spared uploads.views.rules j (copied_keys (rules uploads) request.headers) ≡ true)

  apply_extra_metadata-run :
      (request : Putting) (metadata : Dict String) (etag : String)
      → lookup "ETag" metadata ≡ some etag
      → apply_extra_metadata uploads request metadata [] ≡ (
          if str_eq (received_etag uploads request.headers []) ""
            || str_eq (received_etag uploads request.headers []) etag
          then pure metadata
          else answer (plain Status.unprocessable))
  unfolding apply_extra_metadata update
  apply_extra_metadata-run request metadata etag h =
      elim (Bool-cases (str_eq (received_etag uploads request.headers []) "")) [
        | inl none_given ↦ rw none_given refl
        | inr given ↦ elim (Bool-cases (str_eq (received_etag uploads request.headers []) etag)) [
          | inl same ↦ rw (given, h, same) refl
          | inr other ↦ rw (given, h, other) refl
        ]
      ]

  -- Where the metadata says all that the container is told.
  pub post_commit_updates-run :
      (request : Putting) (orig footers metadata : Dict String) (orig_delete_at new_delete_at : ℕ)
      (size ctype timestamp etag : String)
      → int_of (rules uploads) (lookup "X-Delete-At" orig) ≡ go orig_delete_at
      → int_of (rules uploads) (lookup "X-Delete-At" request.headers) ≡ go new_delete_at
      → lookup "Content-Length" metadata ≡ some size
      → lookup "Content-Type" metadata ≡ some ctype
      → lookup "X-Timestamp" metadata ≡ some timestamp
      → lookup "ETag" metadata ≡ some etag
      → (headers : Dict String) × (post_commit_updates uploads request orig footers metadata
          ≡ run
              (map queue (conditional_delete_at_update orig_delete_at new_delete_at)
                ++ update_container headers ∷ [])
              (go tt))
  unfolding post_commit_updates
  post_commit_updates-run request orig footers metadata o n size ctype timestamp etag oe ne se ce te
        ee =
      (
        commit_headers uploads request.headers footers size ctype timestamp etag,
        simp (oe, ne, se, ce, te, ee) refl,
      )

module _ (uploads : Uploads) (room : (step : Step) → uploads.refuses step ≡ false)
    (request : Putting) (before : Before) (pieces : List Bytes) (ctype : String)
    (orig_delete_at new_delete_at : ℕ) where
  abbrev pub body : Bytes
  body = joined pieces

  abbrev pub etag : String
  etag = uploads.digest body

  -- The size that was announced, and the ETag that the client gave, where there is one.
  abbrev pub is_sized : Bool
  is_sized = is_size uploads before.fsize (length body)

  abbrev pub is_matching : Bool
  is_matching =
      str_eq (received_etag uploads request.headers []) ""
      || str_eq (received_etag uploads request.headers []) etag

  abbrev pub stored_metadata : Dict String
  stored_metadata = requested_metadata uploads request ctype (length body) etag

  abbrev pub Stored : Type 0
  Stored = Dict String × Dict String × String

  abbrev pub from_body : Bool → Run Stored
  from_body right =
      if right
      then run (put stored_metadata ∷ (commit_steps uploads request ++ []))
          (go (stored_metadata, [], etag))
      else answer (plain Status.unprocessable)

  pub store-run :
      lookup "Content-Type" request.headers ≡ some ctype
      → lookup "ETag" stored_metadata ≡ some etag
      → store uploads request none body ≡ from_body is_matching
  unfolding store get_request_metadata
  store-run typed tagged =
      let applied = apply_extra_metadata-run uploads request stored_metadata etag tagged in
      elim (Bool-cases is_matching) [
        | inr other ↦ simp (typed, applied, other) refl
        | inl same ↦ simp (typed, applied, same, room (put stored_metadata)) refl
      ]

  pub after_none {ℓ} : {A : Type ℓ} (m : Run A) → after [] m ≡ m
  after_none (run steps flow) = refl

  pub upload_flow :
      (stored : Run Stored) (written : List Step)
      → store uploads request none body ≡ stored
      → request.chunks ≡ map chunk pieces
      → multi_stage uploads request.headers ≡ go none
      → stage_obj_data uploads (map chunk pieces) before.fsize
        ≡ run written (if is_sized then go body else disconnected)
      → upload uploads request before
        ≡ (if is_sized then after written stored else run written disconnected)
  unfolding upload
  upload_flow stored written s chunked single e = elim (Bool-cases is_sized) [
    | inr short ↦ simp (chunked, single, e, short) refl
    | inl sized ↦ simp (chunked, single, e, sized, s) (after_none (after written stored))
  ]
