-- ===== src/Server/Post.antt =====
-- The POST of an object.
pub mod Stored
pub mod Posted
use swiftacular.Base.{
  ℕ, Bool, not, ◌&&◌, Option, none, some, [], ◌∷◌, String, ltb, leb, ◌==◌, if◌then◌else◌, Dict,
  lookup, update,
}
use swiftacular.Server.{Status, Response, plain, delete_at}
use swiftacular.Server.Handler.{
  write_metadata, update_container, Run, ◌>>=◌, ◌>>◌, pure, lift, answer, take_steps,
}
use swiftacular.Server.Rules.{Rules, int_of}
use swiftacular.Server.Content.{
  Posting, Opened, Content, time_of, ctype_time, base_metadata, content_of, with_content, sent_type,
  container_headers,
}

pub data Found : Type 0 where
  opened : Opened → Found
  unsupported missing : Found

module _ (rules : Rules) where
  abbrev pub accepted_with : String → Response
  accepted_with ctype = record {
    status = Status.accepted;
    backend_timestamp = none;
    content_type = some ctype;
  }

  -- The response, and the system metadata among its headers.
  abbrev pub Accepted : Type 0
  Accepted = Response × Dict String

  -- From the metadata on: it is written, and then the container is told.
  unfoldable pub written : Posting → Opened → Content → Dict String → Run Accepted
  unfolding with_content container_headers lookup update
  written request file content metadata =
      let stored = with_content rules content metadata in
      if request.has_space
      then (do
        take_steps (write_metadata stored ∷ [])
        ctype ← sent_type rules content file
        headers ← container_headers rules file content ctype stored
        take_steps (update_container headers ∷ [])
        pure (accepted_with ctype, update rules.is_sys_meta [] file.metadata))
      else answer (plain Status.insufficient_storage)

  abbrev pub is_stale : Posting → Opened → ℕ → ℕ → Bool
  is_stale request file orig_timestamp ctype_timestamp =
      leb request.timestamp orig_timestamp && leb ctype_timestamp file.content_type_timestamp

  -- What follows once the times are known.
  unfoldable pub post_at : Posting → ℕ → Opened → ℕ → ℕ → Run Accepted
  unfolding base_metadata content_of written
  post_at request new_delete_at file orig_timestamp ctype_timestamp =
      if is_stale request file orig_timestamp ctype_timestamp
      then answer (record {
        status = Status.conflict;
        backend_timestamp = some orig_timestamp;
        content_type = none;
      })
      else (do
        metadata ← base_metadata rules request new_delete_at file orig_timestamp
        written request file (content_of rules request file ctype_timestamp) metadata)

  unfoldable pub post_file : Posting → ℕ → Opened → Run Accepted
  unfolding time_of ctype_time post_at
  post_file request new_delete_at file = do
    orig_timestamp ← lift (time_of rules file.metadata)
    ctype_timestamp ← lift (ctype_time rules request)
    post_at request new_delete_at file orig_timestamp ctype_timestamp

  abbrev pub post_found : Posting → ℕ → Found → Run Accepted
  post_found request new_delete_at (opened file) = post_file request new_delete_at file
  post_found request new_delete_at unsupported = answer (plain Status.insufficient_storage)
  post_found request new_delete_at missing = answer (plain Status.not_found)

  abbrev pub is_past : Posting → ℕ → Bool
  is_past request new_delete_at =
      not (new_delete_at == 0) && ltb (rules.of_int new_delete_at) request.timestamp

  unfoldable pub post_with : Posting → Found → ℕ → Run Accepted
  unfolding post_file
  post_with request found new_delete_at =
      if is_past request new_delete_at
      then answer (plain Status.bad_request)
      else if request.has_device
      then post_found request new_delete_at found
      else answer (plain Status.insufficient_storage)

  unfoldable pub post : Posting → Found → Run Accepted
  unfolding delete_at lookup post_with
  post request found = do
    new_delete_at ← lift (int_of rules (lookup "X-Delete-At" request.headers))
    post_with request found new_delete_at
