-- ===== src/Server/Updates/Queue.antt =====
-- delete_at_update: the entries of the expirer's queue. A job is what the updates of one call share.
use swiftacular.Base.{
  ℕ, Bool, true, not, ◌&&◌, Option, none, some, List, [], ◌∷◌, ◌++◌, map, String, str_eq, Result,
  ok, raise, value_error, expect, if◌then◌else◌, or_else, is_some, Dict, lookup, update, zip,
  filter,
}
use swiftacular.Server.Updates.{
  Event, Update, Remote, Cause, Place, given, set, words, async_update,
}

pub record Job : Type 0 where
  pub container : String
  pub partition : Option String
  pub updates : List (Option String × Option String)
  pub headers_out : Dict String

module _ (remote : Remote) where
  -- The container of the proxy, where it names another one.
  unfoldable pub queue_container : String → Option String → Result String
  queue_container expected none = expect value_error (remote.normalize_text expected)
  queue_container expected (some proxy) =
      if str_eq expected proxy
      then ok expected
      else expect value_error (remote.normalize_text (if str_eq proxy "" then expected else proxy))

  abbrev is_usable : Option String → String × String → Bool
  is_usable partition (host, contdevice) =
      not (str_eq host "") && not (str_eq contdevice "") && is_some (given partition)

  abbrev pub as_target : String × String → Option String × Option String
  as_target (host, contdevice) = (some host, some contdevice)

  abbrev pub or_pending :
      List (Option String × Option String) → List (Option String × Option String)
  or_pending [] = (none, none) ∷ []
  or_pending (target ∷ targets) = target ∷ targets

  abbrev pub targets_of : Option String → String → String → List (String × String)
  targets_of partition hosts devices =
      filter (is_usable partition) (zip (words hosts) (words devices))

  abbrev base_headers : Cause → String → Dict String
  base_headers cause timestamp = set remote "referer" cause.referer (
      set remote "x-trans-id" (or_else "-" (lookup "x-trans-id" cause.headers))
        (set remote "x-timestamp" timestamp (set remote "X-Backend-Storage-Policy-Index" "0" [])))

  abbrev entry_headers : Cause → String → Dict String → Dict String
  entry_headers cause timestamp extra_headers =
      update (λ k. true)
        (set remote "x-etag" "d41d8cd98f00b204e9800998ecf8427e" (
          set remote "x-content-type" remote.delete_type
            (set remote "x-size" "0" (base_headers cause timestamp))))
        (map (λ (k, v). (remote.title k, v)) extra_headers)

  abbrev pub job_in : Cause → String → Dict String → String → Result String → Result (Option Job)
  job_in cause timestamp extra_headers hosts (raise e) = raise e
  job_in cause timestamp extra_headers hosts (ok container) = ok (
      some (record {
        container = container;
        partition = lookup "X-Delete-At-Partition" cause.headers;
        updates = or_pending (
            map as_target (
              targets_of (lookup "X-Delete-At-Partition" cause.headers) hosts
                (or_else "" (lookup "X-Delete-At-Device" cause.headers))));
        headers_out = entry_headers cause timestamp extra_headers;
      }))

  -- The job of an update that is no DELETE, given the hosts.
  abbrev pub job_for : Cause → String → Dict String → String → Option String → Result (Option Job)
  job_for cause timestamp extra_headers expected none = ok none
  job_for cause timestamp extra_headers expected (some hosts) =
      job_in cause timestamp extra_headers hosts
        (queue_container expected (lookup "X-Delete-At-Container" cause.headers))

  -- `none` where nothing is to be done.
  unfoldable pub job_of :
      String → String → Cause → Place → String → Dict String → Result (Option Job)
  unfolding queue_container words lookup update
  job_of op delete_at cause place timestamp extra_headers =
      if remote.config_true_value (or_else "f" (lookup "x-backend-replication" cause.headers))
      then ok none
      else let (account, container) =
          remote.expirer_account_and_container delete_at place.account place.container place.obj in
        if str_eq op "DELETE"
        then (if remote.config_true_value
              (or_else "t" (lookup "X-Backend-Clean-Expiring-Object-Queue" cause.headers))
            then ok (
                some (record {
                  container = container;
                  partition = none;
                  updates = (none, none) ∷ [];
                  headers_out = base_headers cause timestamp;
                }))
            else ok none)
        else job_for cause timestamp extra_headers container
            (lookup "X-Delete-At-Host" cause.headers)

  abbrev pub queue_update : String → String → Place → Job → Option String × Option String → Update
  queue_update op delete_at place job (host, contdevice) = record {
    op = op;
    account =
        (remote.expirer_account_and_container delete_at place.account place.container place.obj).0;
    container = job.container;
    obj = remote.build_task_obj delete_at place.account place.container place.obj;
    objdevice = place.objdevice;
    host = host;
    partition = job.partition;
    contdevice = contdevice;
    headers_out = job.headers_out;
    container_path = none;
    db_state = none;
    policy = place.policy;
  }

  abbrev pub queue_updates : String → String → Place → Job → List Update
  queue_updates op delete_at place job = map (queue_update op delete_at place job) job.updates

  -- One after the other, up to the first that raises.
  abbrev after_update :
      Result (List Event) → List Event × Result (Unit {0}) → List Event × Result (Unit {0})
  after_update (raise e) rest = ([], raise e)
  after_update (ok events) (more, outcome) = (events ++ more, outcome)

  abbrev pub update_each : List Update → List Event × Result (Unit {0})
  update_each [] = ([], ok tt)
  update_each (u ∷ us) = after_update (async_update remote u) (update_each us)

  abbrev pub run_job :
      String → String → Place → Result (Option Job) → List Event × Result (Unit {0})
  run_job op delete_at place (raise e) = ([], raise e)
  run_job op delete_at place (ok none) = ([], ok tt)
  run_job op delete_at place (ok (some job)) = update_each (queue_updates op delete_at place job)

  unfoldable pub delete_at_update :
      String → ℕ → Cause → Place → String → Dict String → List Event × Result (Unit {0})
  unfolding job_of async_update
  delete_at_update op at cause place timestamp extra_headers =
      let delete_at = remote.normalize_delete_at at in
      run_job op delete_at place (job_of op delete_at cause place timestamp extra_headers)
