-- ===== src/Tests/Put.antt =====
-- Witnesses for PUT, GET and HEAD: an upload in two chunks, with the ETag that its bytes have.
use swiftacular.Base.{
  ℕ, Option, Dict, suc, ◌≡◌, refl, true, false, none, some, List, [], ◌∷◌, map, String, ok, lookup,
  length, fields, pieces,
}
use swiftacular.Server.{Flow, go, not_exist, delete_at}
use swiftacular.Server.Handler.{Step, run}
use swiftacular.Server.Rules.{int_of, copied_keys}
use swiftacular.Server.Reads.{Views, Served, Open, readable, CacheConfig, get, head}
use swiftacular.Server.Reads.Same.{AreSame, range_for, get-head}
use swiftacular.Server.Body.{Bytes, Uploads, chunk}
use swiftacular.Server.Put.{
  Putting, Before, multi_stage, pre_create_checks, fsize_of, read_before, is_forbidden, put_object,
}
use swiftacular.Server.Put.Runs.{IsOwn}
use swiftacular.Server.Put.Stores.{Puts, put_object-Puts}
use swiftacular.Tests.Instance.{letters}
use swiftacular.Tests.Post.{rules}

-- Two bytes of the object answer a Range, and all of them another request.
abbrev respond : Option String → Dict String → Served → ℕ × Served
respond none headers_in served = (200, served)
respond (some range) headers_in served = (206, record served { content_length = 2 })

abbrev views : Views
views = record {
  ignores_range = λ headers_in metadata. false;
  get_response = respond;
  rules = rules;
  is_sys_or_user_meta = λ key. false;
  normal = λ t. letters (suc t);
  ceil = λ t. t;
  etag_is_at = λ headers metadata. lookup "ETag" metadata;
  fragments_header = λ fragments. "";
}

abbrev stored_object : Open
stored_object = readable (record {
  metadata =
      ("X-Timestamp", "xxxxx")
      ∷ ("Content-Length", "xxx")
      ∷ ("ETag", "e")
      ∷ ("X-Object-Meta-Colour", "red")
      ∷ [];
  data_timestamp = 4;
  durable_timestamp = some 4;
  fragments = none;
})

abbrev config : CacheConfig
config = record { keep_cache_private = false; keep_cache_slo_manifest = true }

get-head_example :
    AreSame views []
      (range_for views [] (some "bytes=0-1") stored_object)
      (get views config [] (some "bytes=0-1") true stored_object)
      (head views [] true stored_object)
get-head_example = get-head views config [] (some "bytes=0-1") true stored_object

-- The digest here is one letter for each byte.
abbrev uploads : Uploads
uploads = record {
  views = views;
  digest = λ bytes. letters (length bytes);
  json = λ bytes. none;
  normalize_etag = λ etag. etag;
  refuses = λ step. false;
}

abbrev parts : List Bytes
parts = (1 ∷ 2 ∷ []) ∷ (3 ∷ []) ∷ []

abbrev request : Putting
request = record {
  timestamp = 7;
  headers = ("Content-Type", "text/plain") ∷ ("ETag", "xxx") ∷ ("X-Object-Meta-Colour", "red") ∷ [];
  has_device = true;
  creation_error = none;
  message_length = ok (some 3);
  if_none_match = none;
  chunks = map chunk parts;
  docs = [];
}

abbrev before : Before
before = record { fsize = some 3; metadata = [] }

passes : pre_create_checks uploads request not_exist ≡ run [] (go before)
unfolding pre_create_checks fsize_of read_before is_forbidden
passes = refl

single : multi_stage uploads request.headers ≡ go none
unfolding multi_stage lookup
single = refl

typed : lookup "Content-Type" request.headers ≡ some "text/plain"
unfolding lookup
typed = refl

old_time : int_of rules (lookup "X-Delete-At" before.metadata) ≡ go 0
unfolding lookup delete_at
old_time = refl

new_time : int_of rules (lookup "X-Delete-At" request.headers) ≡ go 0
unfolding lookup delete_at
new_time = refl

IsOwn-tag : IsOwn uploads request "ETag"
unfolding copied_keys fields pieces lookup
IsOwn-tag = (refl, refl)

IsOwn-size : IsOwn uploads request "Content-Length"
unfolding copied_keys fields pieces lookup
IsOwn-size = (refl, refl)

put_object-Puts_example :
    (steps : List Step) × (flow : Flow String) × (put_object uploads request not_exist
      ≡ run steps flow)
    × Puts uploads (λ step. refl) request before parts "text/plain" 0 0 steps flow
put_object-Puts_example =
    put_object-Puts uploads (λ step. refl) request before parts "text/plain" 0 0 not_exist passes
      refl single typed old_time new_time IsOwn-tag IsOwn-size
