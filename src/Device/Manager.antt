-- ===== src/Device/Manager.antt =====
-- bluestore/src/bluestore/manager.py: one Device for each device and policy, made when a request
-- first wants it. A Device is its number in the order in which they were made. `get_policy_string`
-- is given.
pub mod Slots
pub mod Shared
use Prim.Native.String.{◌++◌ as cat}
use swiftacular.Base.{
  ℕ, Bool, true, false, not, Option, none, some, List, [], ◌∷◌, ◌++◌, String, str_eq, Result, ok,
  raise, value_error, disk_file_device_unavailable, ◌>>=◌, if◌then◌else◌, Dict, lookup, insert,
  length, or_else, guard, ◌>>◌,
}

pub record Policy : Type 0 where
  pub name : String
  pub policy_type : String

pub record Manager : Type 0 where
  pub devices_path : String
  pub devices : Dict (Dict ℕ)
  -- the paths of the Devices that were made
  pub made : List String

unfoldable pub check_policy : Policy → Result (Unit {0})
check_policy policy = guard (str_eq policy.policy_type "bluestore") value_error

-- The directories of the devices path.
unfoldable pub directories : List (String × Bool) → Dict (Dict ℕ)
directories [] = []
directories ((name, is_dir) ∷ entries) =
    let rest = directories entries in if is_dir then (name, []) ∷ rest else rest

-- `__init__`, on `conf.get('devices')` and the entries there
abbrev pub manager : Option String → List (String × Bool) → Manager
manager devices_path entries = record {
  devices_path = or_else "/srv/node" devices_path;
  devices = directories entries;
  made = [];
}

module _ (get_policy_string : String → Policy → String) where
  abbrev pub path_of : Manager → String → Policy → String
  path_of m device policy =
      cat m.devices_path (cat "/" (cat device (cat "/" (get_policy_string "bluestore" policy))))

  unfoldable pub device_of : Manager → String → Policy → Dict ℕ → Option ℕ → Result (Manager × ℕ)
  unfolding insert
  device_of m device policy known (some dev) = ok (m, dev)
  device_of m device policy known none =
      let dev = length m.made in
      ok (
        record m {
          made = m.made ++ path_of m device policy ∷ [];
          devices = insert device (insert policy.name dev known) m.devices;
        },
        dev,
      )

  unfoldable pub devices_of : Manager → String → Policy → Option (Dict ℕ) → Result (Manager × ℕ)
  unfolding device_of lookup
  devices_of m device policy none = raise disk_file_device_unavailable
  devices_of m device policy (some known) =
      device_of m device policy known (lookup policy.name known)

  unfoldable pub get_device : Manager → String → Policy → Result (Manager × ℕ)
  unfolding devices_of lookup
  get_device m device policy = devices_of m device policy (lookup device m.devices)

  -- The manager after a request, which leaves it as it was where it raises.
  unfoldable pub after_request : Manager → String × Policy → Manager
  unfolding get_device
  after_request m (device, policy) = elim (get_device m device policy) [
    | ok (m', dev) ↦ m'
    | raise e ↦ m
  ]

  unfoldable pub after_requests : Manager → List (String × Policy) → Manager
  unfolding after_request
  after_requests m [] = m
  after_requests m (request ∷ requests) = after_requests (after_request m request) requests
