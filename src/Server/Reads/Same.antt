-- ===== src/Server/Reads/Same.antt =====
-- A GET answers with what its request makes of the response of a HEAD.
use swiftacular.Base.{
  ℕ, ◌≡◌, refl, ap, Bool, true, false, Option, none, String, Result, ok, raise, key_error, ◌>>=◌,
  expect, Dict, lookup, if◌then◌else◌,
}
use swiftacular.Server.{Flow, go, stop, fail}
use swiftacular.Server.Reads.{
  Views, File, Open, readable, unsupported, missing, Served, CacheConfig, get_headers, head_headers,
  get_served, head_served, value_of, keep_cache, get_file, head_file, from_result, get, head,
}

module _ (views : Views) where
  -- The Range that counts for an object.
  abbrev pub range_for : Dict String → Option String → Open → Option String
  range_for headers_in range (readable file) =
      if views.ignores_range headers_in file.metadata then none else range
  range_for headers_in range _ = range

  -- What is left of a GET's response once a HEAD has answered: `request.get_response` of the same one,
  -- with the Range; or neither has a response.
  abbrev pub AreSame :
      Dict String → Option String → Flow ((ℕ × Served) × Bool) → Flow Served → Type 0
  AreSame headers_in range (go (response, kept)) (go served) =
      response ≡ views.get_response range headers_in served
  AreSame headers_in range (stop response) (stop other) = response ≡ other
  AreSame headers_in range (fail e) (fail f) = Unit
  AreSame headers_in range _ _ = ⊥

  -- The two handlers make the same response of the same values.
  get_served-head_served :
      (headers_in : Dict String) (file : File) (size ts : ℕ) (etag : String)
      → get_served views headers_in file size ts etag
        ≡ head_served views headers_in file etag ts size
  unfolding get_served head_served get_headers head_headers
  get_served-head_served headers_in file size ts etag = refl

  file-AreSame :
      (headers_in : Dict String) (range : Option String) (file : File) (kept : Bool)
      (size ts : Result ℕ) (etag : Result String)
      → AreSame headers_in range
          (from_result views (
            size >>= λ n. ts >>= λ t. etag >>= λ e.
            ok
              (views.get_response range headers_in (get_served views headers_in file n t e), kept)))
          (from_result views
            (etag >>= λ e. ts >>= λ t. size >>= λ n. ok (head_served views headers_in file e t n)))
  file-AreSame headers_in range file kept (ok n) (ok t) (ok e) =
      ap (views.get_response range headers_in) (get_served-head_served headers_in file n t e)
  file-AreSame headers_in range file kept (ok n) (ok t) (raise e) = tt
  file-AreSame headers_in range file kept (ok n) (raise t) (ok e) = tt
  file-AreSame headers_in range file kept (ok n) (raise t) (raise e) = tt
  file-AreSame headers_in range file kept (raise n) (ok t) (ok e) = tt
  file-AreSame headers_in range file kept (raise n) (ok t) (raise e) = tt
  file-AreSame headers_in range file kept (raise n) (raise t) (ok e) = tt
  file-AreSame headers_in range file kept (raise n) (raise t) (raise e) = tt

  -- A GET of an object answers with what `request.get_response` makes, by the Range unless that is to
  -- be ignored, of just the response that a HEAD with the same other headers answers with: the same
  -- headers, ETag, length of the whole object, times and ETag for the conditions. Otherwise both answer
  -- with the same error, or both raise; only the order in which missing metadata is noticed differs.
  pub get-head :
      (config : CacheConfig) (headers_in : Dict String) (range : Option String) (has_device : Bool)
      (opened : Open)
      → AreSame headers_in
          (range_for headers_in range opened)
          (get views config headers_in range has_device opened)
          (head views headers_in has_device opened)
  unfolding get head get_file head_file
  get-head config headers_in range false opened = refl
  get-head config headers_in range true unsupported = refl
  get-head config headers_in range true (missing timestamp) = refl
  get-head config headers_in range true (readable file) =
      file-AreSame headers_in (range_for headers_in range (readable file)) file
        (keep_cache views config headers_in file.metadata)
        (value_of views views.rules.int "Content-Length" file.metadata)
        (value_of views views.rules.parse "X-Timestamp" file.metadata)
        (expect key_error (lookup "ETag" file.metadata))
