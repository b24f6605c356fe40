-- ===== src/Tests/Updates.antt =====
-- Witnesses for the updates of a container and of the expirer's queue.
use swiftacular.Base.{
  ◌≡◌, refl, true, false, some, [], ◌∷◌, String, str_eq, raise, name_error, Dict, lookup, rsplit,
  first, lower, after_prefix, replace, replace_from,
}
use swiftacular.Server.Updates.{
  Answer, failed, answered, unredirected, Sent, Remote, Cause, Place, deliver, async_update,
  update_for, given,
}
use swiftacular.Server.Updates.Queue.{Job}
use swiftacular.Server.Overrides.{
  override, override_of, backend_prefix, check_container_override, get-check_container_override,
}

-- The first server takes the update, the other does not answer.
abbrev answer : Sent → Answer
answer s = elim (str_eq s.ip "10.0.0.1") [ true ↦ answered 201 unredirected | false ↦ failed ]

abbrev pub remote : Remote
remote = record {
  is_bluestore = λ policy. false;
  title = λ k. k;
  user_agent = "object-server 7";
  is_success = λ status. true;
  answer = answer;
  unquote = λ text. text;
  is_path = λ path. true;
  config_true_value = λ text. str_eq text "t";
  normalize_delete_at = λ n. "0000000009";
  normalize_text = λ text. some text;
  expirer_account_and_container = λ at account container obj. (".expiring_objects", at);
  build_task_obj = λ at account container obj. at;
  delete_type = "application/async-deleted";
}

abbrev cause : Cause
cause = record {
  headers =
      ("X-Container-Host", "10.0.0.1:6201, 10.0.0.2:6201")
      ∷ ("X-Container-Device", "sda, sdb")
      ∷ ("X-Container-Partition", "3")
      ∷ [];
  referer = "PUT";
}

abbrev place : Place
place = record { account = "a"; container = "c"; obj = "o"; objdevice = "sdz"; policy = 0 }

named : given (lookup "X-Container-Partition" cause.headers) ≡ some "3"
unfolding lookup
named = refl

-- A host without a port raises, and nothing is saved.
without_port :
    async_update remote (update_for remote "PUT" cause place [] (some "3") ("localhost", "sda"))
    ≡ raise name_error
unfolding async_update deliver rsplit
without_port = refl

-- The queue's entry for a new time of deletion, at the host that the request names.
abbrev entering : Cause
entering = record {
  headers =
      ("X-Delete-At-Host", "10.0.0.3:6201")
      ∷ ("X-Delete-At-Device", "sdc")
      ∷ ("X-Delete-At-Partition", "5")
      ∷ [];
  referer = "PUT";
}

abbrev entry : Job
entry = record {
  container = "0000000009";
  partition = some "5";
  updates = (some "10.0.0.3:6201", some "sdc") ∷ [];
  headers_out =
      ("X-Backend-Storage-Policy-Index", "0")
      ∷ ("x-timestamp", "5")
      ∷ ("x-trans-id", "-")
      ∷ ("referer", "PUT")
      ∷ ("x-size", "0")
      ∷ ("x-content-type", "application/async-deleted")
      ∷ ("x-etag", "d41d8cd98f00b204e9800998ecf8427e")
      ∷ [];
}

-- The footers' system metadata wins over that of the headers.
abbrev from_headers : Dict String
from_headers = ("X-Object-Sysmeta-Container-Update-Override-Etag", "one") ∷ []

abbrev from_footers : Dict String
from_footers =
    ("X-Object-Sysmeta-Container-Update-Override-Etag", "two")
    ∷ ("X-Backend-Container-Update-Override-Etag", "three")
    ∷ []

abbrev pub sysmeta_prefix : String
sysmeta_prefix = "x-object-sysmeta-container-update-override-"

get-check_container_override_example :
    lookup "x-etag" (
      check_container_override remote sysmeta_prefix
        (("x-etag", "four") ∷ [])
        from_headers
        from_footers)
    ≡ first (override remote sysmeta_prefix "x-etag" from_footers) (
        first (override remote sysmeta_prefix "x-etag" from_headers) (
          first (override remote backend_prefix "x-etag" from_footers) (
            first
              (override remote backend_prefix "x-etag" from_headers)
              (lookup "x-etag" (("x-etag", "four") ∷ [])))))
get-check_container_override_example =
    get-check_container_override remote sysmeta_prefix "x-etag" (("x-etag", "four") ∷ [])
      from_headers from_footers

footers_win : override remote sysmeta_prefix "x-etag" from_footers ≡ some "two"
unfolding override override_of lower after_prefix replace replace_from
footers_win = refl
