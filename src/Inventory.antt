-- ===== src/Inventory.antt =====
-- bin/libvirt-inventory.py: the Ansible inventory of the machines that run. What libvirt and the
-- leases file say is given: the machines, and the columns of each lease.
pub mod Hosts
pub mod Runs
pub mod Total
use text.Mathlib.Text.{find?}
use swiftacular.Base.{
  Bool, true, false, not, Option, none, some, List, [], ◌∷◌, ◌++◌, String, str_eq, Result, ok,
  raise, index_error, key_error, name_error, ◌>>=◌, expect, is_some, if◌then◌else◌, Dict, lookup,
  insert,
}

-- A machine, with the address of its first interface where it has one.
pub record Machine : Type 0 where
  pub name : String
  pub is_active : Bool
  pub mac : Option String

-- The hosts of each group, `_meta` by its host variables where it has any, and the variable `ip`.
pub record Inventory : Type 0 where
  pub groups : Dict (List String)
  pub hostvars : Option (Dict String)
  pub ip : Option String

abbrev pub contains : String → String → Bool
contains part text = is_some (find? text part)

abbrev pub empty_groups : Dict (List String)
empty_groups =
    ("authentication", [])
    ∷ ("swiftclient", [])
    ∷ ("package_cache", [])
    ∷ ("proxy", [])
    ∷ ("storage", [])
    ∷ []

abbrev pub new_inventory : Inventory
new_inventory = record { groups = empty_groups; hostvars = none; ip = none }

-- `_meta` is filled on first use; its one key is `hostvars`.
abbrev pub opened : Option (Dict String) → Dict String
opened none = []
opened (some hosts) = hosts

-- `addMeta`: a name that is no key of `_meta` gets the address that `ip` holds.
unfoldable pub add_meta : Inventory → String → Result Inventory
unfolding insert
add_meta inventory name =
    if str_eq name "hostvars"
    then ok (record inventory { hostvars = some (opened inventory.hostvars) })
    else (do
      ip ← expect name_error inventory.ip
      ok (record inventory { hostvars = some (insert name ip (opened inventory.hostvars)) }))

unfoldable pub add_host : Inventory → String → String → Result Inventory
unfolding insert lookup
add_host inventory group name = do
  hosts ← expect key_error (lookup group inventory.groups)
  ok (record inventory { groups = insert group (hosts ++ name ∷ []) inventory.groups })

-- The address in the first lease of the machine; without one `ip` keeps what it held.
unfoldable pub find_ip : String → List (List String) → Option String → Result (Option String)
find_ip mac [] ip = ok ip
find_ip mac ([] ∷ leases) ip = raise index_error
find_ip mac ((expiry ∷ []) ∷ leases) ip = raise index_error
find_ip mac ((expiry ∷ address ∷ []) ∷ leases) ip =
    let rest = find_ip mac leases ip in if str_eq address mac then raise index_error else rest
find_ip mac ((expiry ∷ address ∷ host ∷ more) ∷ leases) ip =
    let rest = find_ip mac leases ip in if str_eq address mac then ok (some host) else rest

-- The groups of a machine, by its name.
unfoldable pub groups_of : String → List String
groups_of name =
    if contains "keystone" name
    then "authentication" ∷ []
    else if contains "storage" name
    then "storage" ∷ []
    else if contains "package-cache" name
    then "package_cache" ∷ "swiftclient" ∷ []
    else if contains "proxy" name
    then "proxy" ∷ []
    else []

unfoldable pub add_hosts : Inventory → List String → String → Result Inventory
unfolding add_host
add_hosts inventory [] name = ok inventory
add_hosts inventory (group ∷ groups) name = do
  next ← add_host inventory group name
  add_hosts next groups name

unfoldable pub add_metas : Inventory → List String → String → Result Inventory
unfolding add_meta
add_metas inventory [] name = ok inventory
add_metas inventory (group ∷ groups) name = do
  next ← add_meta inventory name
  add_metas next groups name

unfoldable pub add_machine : List (List String) → Inventory → Machine → Result Inventory
unfolding find_ip groups_of add_hosts add_metas
add_machine leases inventory machine =
    if machine.is_active
    then (do
      mac ← expect index_error machine.mac
      ip ← find_ip mac leases inventory.ip
      with_hosts ← add_hosts (record inventory { ip = ip }) (groups_of machine.name) machine.name
      add_metas with_hosts (groups_of machine.name) machine.name)
    else ok inventory

unfoldable pub add_machines : List (List String) → Inventory → List Machine → Result Inventory
unfolding add_machine
add_machines leases inventory [] = ok inventory
add_machines leases inventory (machine ∷ machines) = do
  next ← add_machine leases inventory machine
  add_machines leases next machines
