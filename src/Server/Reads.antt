-- ===== src/Server/Reads.antt =====
-- The GET and the HEAD of an object: the headers of the response, and how a read that fails ends. The
-- two handlers set the headers each on its own.
pub mod Same
use swiftacular.Base.{
  ℕ, Bool, true, false, not, ◌&&◌, ◌||◌, Option, none, some, List, [], ◌∷◌, String, str_eq, Result,
  ok, raise, key_error, value_error, ◌>>=◌, expect, if◌then◌else◌, or_else, is_some, Dict, lookup,
  insert, lower,
}
use swiftacular.Server.{Status, Response, plain, Flow, go, stop, fail}
use swiftacular.Server.Updates.{Remote, set}
use swiftacular.Server.Rules.{Rules}

-- A response with the object's headers. `conditional_etag` is for the conditions of the request.
pub record Served : Type 0 where
  pub headers : Dict String
  pub etag : String
  pub last_modified : ℕ
  pub content_length : ℕ
  pub content_encoding : Option String
  pub conditional_etag : Option String

-- What else these handlers take from Swift.
pub record Views : Type 0 where
  pub rules : Rules
  pub is_sys_or_user_meta : String → Bool
  -- `ts.normal` and `ts.ceil()`
  pub normal : ℕ → String
  pub ceil : ℕ → ℕ
  -- `resolve_etag_is_at_header` of the headers of the request
  pub etag_is_at : Dict String → Dict String → Option String
  pub fragments_header : Option String → String
  -- whether `resolve_ignore_range_header` takes the Range off the request with these headers
  pub ignores_range : Dict String → Dict String → Bool
  -- the status and the response of `request.get_response(response)`, by the Range and the headers
  pub get_response : Option String → Dict String → Served → ℕ × Served

-- An open disk file; `durable_timestamp` may be None.
pub record File : Type 0 where
  pub metadata : Dict String
  pub data_timestamp : ℕ
  pub durable_timestamp : Option ℕ
  pub fragments : Option String

-- How an open ends. The exceptions that say that the object is missing may have a timestamp.
pub data Open : Type 0 where
  readable : File → Open
  unsupported : Open
  missing : Option ℕ → Open

-- The flags of the server about the page cache.
pub record CacheConfig : Type 0 where
  pub keep_cache_private : Bool
  pub keep_cache_slo_manifest : Bool

abbrev is_in : String → List String → Bool
is_in key [] = false
is_in key (k ∷ ks) = str_eq key k || is_in key ks

module _ (views : Views) where
  abbrev is_sent : String → Bool
  is_sent key =
      views.is_sys_or_user_meta key
      || views.rules.is_transient key
      || is_in (lower key) views.rules.allowed_headers

  unfoldable pub sent_headers : Dict String → Dict String → Dict String
  unfolding lower insert
  sent_headers [] headers = headers
  sent_headers ((key, value) ∷ metadata) headers =
      sent_headers metadata
        (if is_sent key then set views.rules.remote key value headers else headers)

  abbrev with_durable : Option ℕ → Dict String → Dict String
  with_durable none headers = headers
  with_durable (some t) headers =
      set views.rules.remote "X-Backend-Durable-Timestamp" (views.rules.internal t) headers

  -- `response.headers` of the GET, once the object's time is known.
  unfoldable pub get_headers : File → ℕ → Dict String
  unfolding sent_headers lookup
  get_headers file ts =
      let typed =
        set views.rules.remote "Content-Type"
          (or_else "application/octet-stream" (lookup "Content-Type" file.metadata)) [] in
      let sent = sent_headers file.metadata typed in
      let stamped = set views.rules.remote "X-Timestamp" (views.normal ts) sent in
      let timed = set views.rules.remote "X-Backend-Timestamp" (views.rules.internal ts) stamped in
      let dated =
        set views.rules.remote "X-Backend-Data-Timestamp" (views.rules.internal file.data_timestamp)
          timed in
      set views.rules.remote "X-Backend-Fragments" (views.fragments_header file.fragments)
        (with_durable file.durable_timestamp dated)

  -- `response.headers` of the HEAD.
  unfoldable pub head_headers : File → ℕ → Dict String
  unfolding sent_headers lookup
  head_headers file ts =
      let typed =
        set views.rules.remote "Content-Type"
          (or_else "application/octet-stream" (lookup "Content-Type" file.metadata)) [] in
      let sent = sent_headers file.metadata typed in
      let stamped = set views.rules.remote "X-Timestamp" (views.normal ts) sent in
      let timed = set views.rules.remote "X-Backend-Timestamp" (views.rules.internal ts) stamped in
      let dated =
        set views.rules.remote "X-Backend-Data-Timestamp" (views.rules.internal file.data_timestamp)
          timed in
      set views.rules.remote "X-Backend-Fragments" (views.fragments_header file.fragments)
        (with_durable file.durable_timestamp dated)

  -- `parse(metadata[key])`
  unfoldable pub value_of : (String → Option ℕ) → String → Dict String → Result ℕ
  unfolding lookup
  value_of parse key metadata = do
    text ← expect key_error (lookup key metadata)
    expect value_error (parse text)

  abbrev keep_slo : CacheConfig → Dict String → Bool
  keep_slo config metadata =
      config.keep_cache_slo_manifest && elim (lookup "X-Static-Large-Object" metadata) [
        | none ↦ false
        | some text ↦ views.rules.remote.config_true_value text
      ]

  unfoldable pub keep_cache : CacheConfig → Dict String → Dict String → Bool
  unfolding lookup
  keep_cache config headers_in metadata =
      config.keep_cache_private
      || (not (is_some (lookup "X-Auth-Token" headers_in))
          && not (is_some (lookup "X-Storage-Token" headers_in)))
      || keep_slo config metadata

  -- The response that the GET makes, before `request.get_response`.
  unfoldable pub get_served : Dict String → File → ℕ → ℕ → String → Served
  unfolding get_headers lookup
  get_served headers_in file obj_size file_x_ts etag = record {
    headers = get_headers file file_x_ts;
    etag = etag;
    last_modified = views.ceil file_x_ts;
    content_length = obj_size;
    content_encoding = lookup "Content-Encoding" file.metadata;
    conditional_etag = views.etag_is_at headers_in file.metadata;
  }

  abbrev range_of : Dict String → File → Option String → Option String
  range_of headers_in file range =
      if views.ignores_range headers_in file.metadata then none else range

  -- With what the reader is told of the page cache.
  unfoldable pub get_file :
      CacheConfig → Dict String → Option String → File → Result ((ℕ × Served) × Bool)
  unfolding value_of get_served keep_cache lookup
  get_file config headers_in range file = do
    obj_size ← value_of views.rules.int "Content-Length" file.metadata
    file_x_ts ← value_of views.rules.parse "X-Timestamp" file.metadata
    etag ← expect key_error (lookup "ETag" file.metadata)
    ok (
      views.get_response (range_of headers_in file range) headers_in
          (get_served headers_in file obj_size file_x_ts etag),
      keep_cache config headers_in file.metadata,
    )

  unfoldable pub head_served : Dict String → File → String → ℕ → ℕ → Served
  unfolding head_headers lookup
  head_served headers_in file etag ts size = record {
    conditional_etag = views.etag_is_at headers_in file.metadata;
    headers = head_headers file ts;
    etag = etag;
    last_modified = views.ceil ts;
    content_length = size;
    content_encoding = lookup "Content-Encoding" file.metadata;
  }

  unfoldable pub head_file : Dict String → File → Result Served
  unfolding value_of head_served lookup
  head_file headers_in file = do
    etag ← expect key_error (lookup "ETag" file.metadata)
    ts ← value_of views.rules.parse "X-Timestamp" file.metadata
    size ← value_of views.rules.int "Content-Length" file.metadata
    ok (head_served headers_in file etag ts size)

  abbrev pub from_result {ℓ} : {A : Type ℓ} → Result A → Flow A
  from_result (raise e) = fail e
  from_result (ok x) = go x

  abbrev pub not_there : Option ℕ → Response
  not_there timestamp = record {
    status = Status.not_found;
    backend_timestamp = timestamp;
    content_type = none;
  }

  abbrev get_open : CacheConfig → Dict String → Option String → Open → Flow ((ℕ × Served) × Bool)
  get_open config headers_in range (readable file) =
      from_result (get_file config headers_in range file)
  get_open config headers_in range unsupported = stop (plain Status.insufficient_storage)
  get_open config headers_in range (missing timestamp) = stop (not_there timestamp)

  -- `range` is the Range header of the request, and `headers_in` the others.
  unfoldable pub get :
      CacheConfig → Dict String → Option String → Bool → Open → Flow ((ℕ × Served) × Bool)
  unfolding get_file
  get config headers_in range has_device opened =
      if has_device
      then get_open config headers_in range opened
      else stop (plain Status.insufficient_storage)

  abbrev head_open : Dict String → Open → Flow Served
  head_open headers_in (readable file) = from_result (head_file headers_in file)
  head_open headers_in unsupported = stop (plain Status.insufficient_storage)
  head_open headers_in (missing timestamp) = stop (not_there timestamp)

  unfoldable pub head : Dict String → Bool → Open → Flow Served
  unfolding head_file
  head headers_in has_device opened =
      if has_device then head_open headers_in opened else stop (plain Status.insufficient_storage)
