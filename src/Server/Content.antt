-- ===== src/Server/Content.antt =====
-- What a POST writes of the metadata, and what it tells the container.
use Prim.Native.String.{◌++◌ as cat}
use swiftacular.Base.{
  ℕ, Bool, true, not, Option, none, some, [], ◌∷◌, map, String, str_eq, key_error, type_error, ltb,
  ◌==◌, if◌then◌else◌, or_else, Dict, lookup, insert, update,
}
use swiftacular.Server.{Flow, go, parsed, conditional_delete_at_update, delete_at}
use swiftacular.Server.Handler.{queue, Run, ◌>>=◌, ◌>>◌, pure, lift, take_steps, demand}
use swiftacular.Server.Updates.{given, set}
use swiftacular.Server.Overrides.{check_container_override}
use swiftacular.Server.Rules.{Rules, int_of, copy_headers, copied_keys}

pub record Posting : Type 0 where
  pub timestamp : ℕ
  pub headers : Dict String
  pub has_device : Bool
  pub has_space : Bool

-- A disk file that was read.
pub record Opened : Type 0 where
  pub metadata : Dict String
  pub content_type : String
  pub content_type_timestamp : ℕ
  pub data_timestamp : ℕ
  pub datafile_metadata : Dict String
  pub metafile_metadata : Option (Dict String)

-- The content type, its time, and whether it goes into the metadata.
pub record Content : Type 0 where
  pub content_type : String
  pub timestamp : ℕ
  pub is_kept : Bool

module _ (rules : Rules) where
  -- `Timestamp(metadata.get('X-Timestamp', 0))`
  unfoldable pub time_of : Dict String → Flow ℕ
  unfolding lookup
  time_of metadata = elim (lookup "X-Timestamp" metadata) [
    | none ↦ go 0
    | some text ↦ parsed rules.parse (rules.parse text)
  ]

  unfoldable pub ctype_time : Posting → Flow ℕ
  unfolding lookup
  ctype_time request = elim (given (lookup "Content-Type" request.headers)) [
    | none ↦ go 0
    | some ctype ↦ parsed rules.parse (
        rules.parse (
          or_else (rules.internal request.timestamp)
            (lookup "Content-Type-Timestamp" request.headers)))
  ]

  unfoldable pub new_metadata : Posting → Dict String
  unfolding copied_keys copy_headers update lookup
  new_metadata request = copy_headers rules (copied_keys rules request.headers) request.headers (
      update rules.is_transient (("X-Timestamp", rules.internal request.timestamp) ∷ [])
        request.headers)

  -- The metadata to write, before the content type, once the queue is told.
  unfoldable pub base_metadata : Posting → ℕ → Opened → ℕ → Run (Dict String)
  unfolding new_metadata delete_at lookup conditional_delete_at_update
  base_metadata request new_delete_at file orig_timestamp =
      if ltb orig_timestamp request.timestamp
      then (do
        orig_delete_at ← lift (int_of rules (lookup "X-Delete-At" file.metadata))
        take_steps (map queue (conditional_delete_at_update orig_delete_at new_delete_at))
        pure (new_metadata request))
      else demand type_error file.metafile_metadata

  unfoldable pub content_of : Posting → Opened → ℕ → Content
  unfolding lookup
  content_of request file ctype_timestamp =
      if ltb file.content_type_timestamp ctype_timestamp
      then record {
        content_type = or_else "" (lookup "Content-Type" request.headers);
        timestamp = ctype_timestamp;
        is_kept = true;
      }
      else record {
        content_type = file.content_type;
        timestamp = file.content_type_timestamp;
        is_kept = not (file.content_type_timestamp == file.data_timestamp);
      }

  unfoldable pub with_content : Content → Dict String → Dict String
  unfolding insert
  with_content content metadata =
      if content.is_kept
      then insert "Content-Type-Timestamp" (rules.internal content.timestamp)
          (insert "Content-Type" content.content_type metadata)
      else metadata

  abbrev with_bytes : String → String → String
  with_bytes ctype swift_bytes =
      if str_eq swift_bytes "" then ctype else cat ctype (cat ";swift_bytes=" swift_bytes)

  -- The `swift_bytes` of the data file's content type go along with another content type.
  abbrev pub sent_type : Content → Opened → Run String
  sent_type content file =
      if content.timestamp == file.data_timestamp then pure content.content_type else (do
        ctype ← demand key_error (lookup "Content-Type" file.datafile_metadata)
        pure (with_bytes content.content_type (rules.swift_bytes ctype)))

  abbrev instead : String → Option String → Dict String → Dict String
  instead key none headers = headers
  instead key (some value) headers = set rules.remote key value headers

  -- What an erasure-coded object says of its size and its ETag.
  abbrev ec_headers : Dict String → Dict String → Dict String
  ec_headers metadata headers =
      instead "X-Size" (lookup "X-Object-Sysmeta-Ec-Content-Length" metadata)
        (instead "X-Etag" (lookup "X-Object-Sysmeta-Ec-Etag" metadata) headers)

  unfoldable pub container_headers : Opened → Content → String → Dict String → Run (Dict String)
  unfolding lookup check_container_override
  container_headers file content ctype metadata = do
    size ← demand key_error (lookup "Content-Length" file.metadata)
    meta_timestamp ← demand key_error (lookup "X-Timestamp" metadata)
    etag ← demand key_error (lookup "ETag" file.metadata)
    pure (
        check_container_override rules.remote rules.sysmeta_prefix
          (ec_headers file.metadata (
            set rules.remote "x-etag" etag (
              set rules.remote "x-meta-timestamp" meta_timestamp (
                set rules.remote "x-content-type-timestamp" (rules.internal content.timestamp) (
                  set rules.remote "x-timestamp" (rules.internal file.data_timestamp) (
                    set rules.remote "x-content-type" ctype
                      (set rules.remote "x-size" size [])))))))
          file.metadata [])
