-- ===== src/Server/Updates.antt =====
-- async_update, container_update and delete_at_update: what the object server tells the container
-- servers and the expirer's queue, at once or through a pending file, which BlueStore policies do not
-- keep. The threads of
-- container_update are listed each with what it does; `waited` of them end before its timeout.
pub mod Kept
pub mod Queue
pub mod Entries
use Prim.Native.String.{◌++◌ as cat}
use swiftacular.Base.{
  ℕ, zero, suc, Bool, true, false, ◌&&◌, ◌||◌, Option, none, some, List, [], ◌∷◌, ◌++◌, map, String,
  str_eq, Result, ok, raise, name_error, ◌>>=◌, expect, ◌==◌, if◌then◌else◌, or_else, is_some, Dict,
  text_of, lookup, insert, split, rsplit, strip, zip, first, length,
}

-- `redirect_data` of an answer, and the answer of a container server, if it comes.
pub data Redirect : Type 0 where
  unredirected unreadable : Redirect
  redirected : String → Redirect

pub data Answer : Type 0 where
  failed : Answer
  answered : ℕ → Redirect → Answer

pub record Sent : Type 0 where
  pub ip : String
  pub port : String
  pub contdevice : String
  pub partition : String
  pub op : String
  pub full_path : String
  pub headers : Dict String

pub record Pending : Type 0 where
  pub op : String
  pub account : String
  pub container : String
  pub obj : String
  pub objdevice : String
  pub headers : Dict String
  pub container_path : Option String
  pub db_state : Option String
  pub timestamp : Option String
  pub policy : ℕ

pub data Event : Type 0 where
  sent : Sent → Event
  saved : Pending → Event

pub record Update : Type 0 where
  pub op : String
  pub account : String
  pub container : String
  pub obj : String
  pub objdevice : String
  pub host : Option String
  pub partition : Option String
  pub contdevice : Option String
  pub headers_out : Dict String
  pub container_path : Option String
  pub db_state : Option String
  pub policy : ℕ

-- What the server takes from Swift, the library and the network.
pub record Remote : Type 0 where
  -- the spelling of a key in a HeaderKeyDict
  pub title : String → String
  pub user_agent : String
  pub is_success : ℕ → Bool
  pub answer : Sent → Answer
  -- whether a policy's disk files are BlueStore's
  pub is_bluestore : ℕ → Bool
  pub unquote : String → String
  -- `split_path` takes the path
  pub is_path : String → Bool
  pub config_true_value : String → Bool
  -- of a number, and of a text: `none` is a ValueError
  pub normalize_delete_at : ℕ → String
  pub normalize_text : String → Option String
  pub expirer_account_and_container : String → String → String → String → String × String
  pub build_task_obj : String → String → String → String → String
  pub delete_type : String

-- The request that causes the updates: its headers, and `as_referer()`.
pub record Cause : Type 0 where
  pub headers : Dict String
  pub referer : String

-- Where the object is.
pub record Place : Type 0 where
  pub account : String
  pub container : String
  pub obj : String
  pub objdevice : String
  pub policy : ℕ

-- `[h.strip() for h in text.split(',')]`
unfoldable pub words : String → List String
unfolding split strip
words text = map strip (split "," text)

-- A value that counts as true.
abbrev pub given : Option String → Option String
given none = none
given (some text) = if str_eq text "" then none else some text

abbrev pub full_path : Update → String
full_path u = elim (given u.container_path) [
  | some path ↦ cat "/" (cat path (cat "/" u.obj))
  | none ↦ cat "/" (cat u.account (cat "/" (cat u.container (cat "/" u.obj))))
]

module _ (remote : Remote) where
  abbrev pub set : String → String → Dict String → Dict String
  set key value headers = insert (remote.title key) value headers

  abbrev pub get : String → Dict String → Option String
  get key headers = lookup (remote.title key) headers

  abbrev pub with_agent : Update → Dict String
  with_agent u = set "user-agent" remote.user_agent u.headers_out

  abbrev pub pending : Update → Option String → Pending
  pending u redirect = record {
    op = u.op;
    account = u.account;
    container = u.container;
    obj = u.obj;
    objdevice = u.objdevice;
    headers = with_agent u;
    container_path = given (first redirect u.container_path);
    db_state = u.db_state;
    timestamp = first (get "x-meta-timestamp" (with_agent u)) (get "x-timestamp" (with_agent u));
    policy = u.policy;
  }

  -- BlueStore's manager does nothing here; the others write a pending file.
  abbrev pub pickle_async_update : Pending → List Event
  pickle_async_update p = if remote.is_bluestore p.policy then [] else saved p ∷ []

  abbrev pub request_of : Update → String × String → String → String → Sent
  request_of u (ip, port) partition contdevice = record {
    ip = ip;
    port = port;
    contdevice = contdevice;
    partition = partition;
    op = u.op;
    full_path = full_path u;
    headers = with_agent u;
  }

  abbrev pub redirect_of : Redirect → Option String
  redirect_of (redirected path) = some path
  redirect_of _ = none

  -- What is left to do once the container server has answered.
  unfoldable pub after_answer : Update → Answer → List Event
  after_answer u failed = pickle_async_update (pending u none)
  after_answer u (answered status redirect) =
      if remote.is_success status
      then []
      else pickle_async_update (pending u (if status == 301 then redirect_of redirect else none))

  abbrev pub send : Update → Sent → List Event
  send u s = sent s ∷ after_answer u (remote.answer s)

  -- A host without a port raises before `ip` has a value, which the handler of the exception reads.
  unfoldable pub deliver :
      Update → Option String → Option String → Option String → Result (List Event)
  unfolding rsplit after_answer
  deliver u (some host) (some partition) (some contdevice) = do
    address ← expect name_error (rsplit ":" host)
    ok (send u (request_of u address partition contdevice))
  deliver u _ _ _ = ok (pickle_async_update (pending u none))

  unfoldable pub async_update : Update → Result (List Event)
  unfolding deliver
  async_update u = deliver u (given u.host) (given u.partition) (given u.contdevice)

  abbrev checked_path : Option String → Option String
  checked_path none = none
  checked_path (some path) =
      if str_eq path "" || remote.is_path (cat "/" path) then some path else none

  unfoldable pub container_path_of : Dict String → Option String
  unfolding lookup
  container_path_of headers_in =
      elim (given (lookup "X-Backend-Quoted-Container-Path" headers_in)) [
        | some quoted ↦ checked_path (some (remote.unquote quoted))
        | none ↦ checked_path (lookup "X-Backend-Container-Path" headers_in)
      ]

  -- The headers that an update is sent with.
  abbrev pub with_policy : Cause → ℕ → Dict String → Dict String
  with_policy cause policy headers = set "X-Backend-Storage-Policy-Index" (text_of policy) (
      set "referer" cause.referer
        (set "x-trans-id" (or_else "-" (lookup "x-trans-id" cause.headers)) headers))

  abbrev pub update_for :
      String → Cause → Place → Dict String → Option String → String × String → Update
  update_for op cause place headers_out partition (conthost, contdevice) = record {
    op = op;
    account = place.account;
    container = place.container;
    obj = place.obj;
    objdevice = place.objdevice;
    host = some conthost;
    partition = partition;
    contdevice = some contdevice;
    headers_out = with_policy cause place.policy headers_out;
    container_path = container_path_of cause.headers;
    db_state = lookup "X-Container-Root-Db-State" cause.headers;
    policy = place.policy;
  }

  abbrev pub conthosts : Dict String → List String
  conthosts headers_in = words (or_else "" (lookup "X-Container-Host" headers_in))

  abbrev pub contdevices : Dict String → List String
  contdevices headers_in = words (or_else "" (lookup "X-Container-Device" headers_in))

  -- The updates that container_update starts a thread for.
  unfoldable pub container_updates : String → Cause → Place → Dict String → List Update
  unfolding words lookup container_path_of text_of
  container_updates op cause place headers_out =
      let hosts = conthosts cause.headers in
      let devices = contdevices cause.headers in
      let partition = given (lookup "X-Container-Partition" cause.headers) in
      if length hosts == length devices && is_some partition
      then map (update_for op cause place headers_out partition) (zip hosts devices)
      else []

  -- `gt.wait()` for the threads that end in time.
  abbrev pub wait_for : ℕ → List (Result (List Event)) → Result (Unit {0})
  wait_for zero threads = ok tt
  wait_for (suc waited) [] = ok tt
  wait_for (suc waited) (raise e ∷ threads) = raise e
  wait_for (suc waited) (ok events ∷ threads) = wait_for waited threads

  -- What each thread does, and how the call ends.
  unfoldable pub container_update :
      ℕ → String → Cause → Place → Dict String → List (Result (List Event)) × Result (Unit {0})
  unfolding container_updates async_update
  container_update waited op cause place headers_out =
      let threads = map async_update (container_updates op cause place headers_out) in
      (threads, wait_for waited threads)
