-- ===== src/Server/Body.antt =====
-- The body of a PUT: the chunks of the object, and the MIME documents that may follow it. In a body
-- of several documents the first is the object, whose chunks stand here as those of the body.
use swiftacular.Base.{
  ℕ, Bool, true, false, Option, none, some, List, [], ◌∷◌, ◌++◌, String, str_eq, ◌==◌,
  if◌then◌else◌, or_else, Dict, lookup, insert, pop, lower, length,
}
use swiftacular.Server.{Status, Response, plain, Flow, go, stop}
use swiftacular.Server.Handler.{
  Step, open_writer, write_chunk, send_continue, Run, ◌>>=◌, ◌>>◌, pure, lift, answer, take_steps,
}
use swiftacular.Server.Updates.{given, set, get}
use swiftacular.Server.Reads.{Views}

abbrev pub Bytes : Type 0
Bytes = List ℕ

-- What the server takes from Swift and the digest.
pub record Uploads : Type 0 where
  pub views : Views
  pub digest : Bytes → String
  -- `json.loads`: `none` is a ValueError
  pub json : Bytes → Option (Dict String)
  pub normalize_etag : String → String
  -- the writer has no space for the step
  pub refuses : Step → Bool

-- What a read of the body finds; a chunk may come after the time for the upload.
pub data Chunk : Type 0 where
  chunk : Bytes → Chunk
  late_chunk : Bytes → Chunk
  chunk_read_error chunk_read_timeout : Chunk

-- The body of a MIME document, and what `next` finds.
pub data Contents : Type 0 where
  contents : Bytes → Contents
  contents_read_error contents_read_timeout : Contents

pub data Next : Type 0 where
  document : Dict String → Contents → Next
  next_read_error next_read_timeout : Next

abbrev pub disconnected {ℓ} : {A : Type ℓ} → Flow A
disconnected = stop (plain Status.client_disconnect)

abbrev pub timed_out {ℓ} : {A : Type ℓ} → Flow A
timed_out = stop (plain Status.request_timeout)

abbrev pub malformed {ℓ} : {A : Type ℓ} → Flow A
malformed = stop (plain Status.bad_request)

infixl 5 ◌then_flow◌
abbrev pub ◌then_flow◌ {κ ℓ} : {A : Type κ} {B : Type ℓ} → Flow A → (A → Flow B) → Flow B
m then_flow k = swiftacular.Server.◌>>=◌ m k

module _ (uploads : Uploads) where
  -- A step of the writer.
  abbrev pub writer_step : Step → Run (Unit {0})
  writer_step step =
      if uploads.refuses step
      then answer (plain Status.insufficient_storage)
      else take_steps (step ∷ [])

  -- What is written, from what was written before.
  unfoldable pub write_chunks : List Chunk → Bytes → Run Bytes
  write_chunks [] written = pure written
  write_chunks (chunk_read_error ∷ chunks) written = lift disconnected
  write_chunks (chunk_read_timeout ∷ chunks) written = lift timed_out
  write_chunks (late_chunk bytes ∷ chunks) written = lift timed_out
  write_chunks (chunk bytes ∷ chunks) written =
      writer_step (write_chunk bytes) >> write_chunks chunks (written ++ bytes)

  abbrev pub is_size : Option ℕ → ℕ → Bool
  is_size none size = true
  is_size (some n) size = n == size

  -- The bytes; their number and their digest are the upload's size and ETag.
  unfoldable pub stage_obj_data : List Chunk → Option ℕ → Run Bytes
  unfolding write_chunks
  stage_obj_data chunks fsize = do
    writer_step open_writer
    bytes ← write_chunks chunks []
    if is_size fsize (length bytes) then pure bytes else lift disconnected

  abbrev checked_footer : Dict String → Bytes → Flow (Dict String)
  checked_footer footer_hdrs body =
      elim (given (get uploads.views.rules.remote "Content-MD5" footer_hdrs)) [
        | none ↦ malformed
        | some footer_md5 ↦
            if str_eq footer_md5 (uploads.digest body)
            then (elim (uploads.json body) [ none ↦ malformed | some footers ↦ go footers ])
            else stop (plain Status.unprocessable)
      ]

  unfoldable pub parse_footer : Dict String → Contents → Flow (Dict String)
  unfolding lookup
  parse_footer footer_hdrs contents_read_error = disconnected
  parse_footer footer_hdrs contents_read_timeout = timed_out
  parse_footer footer_hdrs (contents body) = checked_footer footer_hdrs body

  -- With the documents that are left.
  unfoldable pub read_metadata_footer : List Next → Flow (Dict String × List Next)
  unfolding parse_footer
  read_metadata_footer [] = malformed
  read_metadata_footer (next_read_error ∷ docs) = disconnected
  read_metadata_footer (next_read_timeout ∷ docs) = timed_out
  read_metadata_footer (document footer_hdrs body ∷ docs) =
      parse_footer footer_hdrs body then_flow λ footers. go (footers, docs)

  abbrev with_etag : Dict String → String → Dict String
  with_etag metadata footer_etag =
      if str_eq footer_etag ""
      then metadata
      else set uploads.views.rules.remote "ETag" footer_etag metadata

  -- The ETag of the footers, in lower case.
  unfoldable pub lower_etag : Dict String → Dict String
  unfolding lookup pop insert lower
  lower_etag metadata =
      with_etag (pop (uploads.views.rules.remote.title "etag") metadata)
        (lower (or_else "" (get uploads.views.rules.remote "etag" metadata)))

  unfoldable pub read_mime_footers_metadata : Bool → List Next → Flow (Dict String × List Next)
  unfolding read_metadata_footer lower_etag
  read_mime_footers_metadata false docs = go ([], docs)
  read_mime_footers_metadata true docs =
      read_metadata_footer docs then_flow λ (metadata, rest). go (lower_etag metadata, rest)

  abbrev drained {ℓ} : {A : Type ℓ} → Contents → A → Flow A
  drained contents_read_error x = disconnected
  drained contents_read_timeout x = timed_out
  drained (contents body) x = go x

  abbrev is_commit : Dict String → Bool
  is_commit commit_hdrs =
      str_eq (or_else "" (get uploads.views.rules.remote "X-Document" commit_hdrs)) "put commit"

  unfoldable pub read_put_commit_message : List Next → Flow (Bool × List Next)
  unfolding lookup
  read_put_commit_message [] = malformed
  read_put_commit_message (next_read_error ∷ docs) = disconnected
  read_put_commit_message (next_read_timeout ∷ docs) = timed_out
  read_put_commit_message (document commit_hdrs body ∷ docs) =
      drained body (is_commit commit_hdrs, docs)

  unfoldable pub drain_mime_request : List Next → Flow (Unit {0})
  drain_mime_request [] = go tt
  drain_mime_request (next_read_error ∷ docs) = disconnected
  drain_mime_request (next_read_timeout ∷ docs) = timed_out
  drain_mime_request (document hdrs body ∷ docs) =
      drained body (tt {0}) then_flow λ done. drain_mime_request docs

  -- The second 100-continue response of a PUT in two phases, and the commit that must follow.
  unfoldable pub send_multi_stage_continue_headers : Bool → List Next → Run (List Next)
  unfolding read_put_commit_message
  send_multi_stage_continue_headers false docs = pure docs
  send_multi_stage_continue_headers true docs = do
    take_steps (send_continue ∷ [])
    (rcvd_commit, rest) ← lift (read_put_commit_message docs)
    if rcvd_commit then pure rest else answer (plain Status.server_error)
