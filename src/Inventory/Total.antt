-- ===== src/Inventory/Total.antt =====
-- A run over machines that all have a lease ends without an error.
use swiftacular.Base.{
  ◌≡◌, refl, ◌∙◌, ap, true, false, Option, none, some, List, [], ◌∷◌, ◌++◌, String, str_eq, arith,
  ok, ◌>>=◌, is_some, Bool-cases, Option-cases, inl, inr, lookup, insert, lookup-insert, All,
}
use swiftacular.Inventory.{
  Machine, Inventory, opened, contains, new_inventory, find_ip, groups_of, add_host, add_hosts,
  add_meta, add_metas, add_machine, add_machines,
}
use swiftacular.Inventory.Hosts.{host_of, leased, add_machine-leased}
use swiftacular.Inventory.Runs.{leased_of, add_machines-leased}

-- A line of the leases file: a time, an address, a host and perhaps more.
abbrev pub IsLease : List String → Type 0
IsLease (expiry ∷ address ∷ host ∷ more) = Unit
IsLease _ = ⊥

-- A machine that runs has an interface with a lease.
pub record IsLeased (leases : List (List String)) (machine : Machine) : Type 0 where
  pub mac : String
  pub interface : machine.mac ≡ some mac
  pub host : String
  pub lease : leased mac leases none ≡ some host

find_ip-total :
    (mac : String) (leases : List (List String)) (ip : Option String)
    → All IsLease leases
    → find_ip mac leases ip ≡ ok (leased mac leases ip)
unfolding find_ip
find_ip-total mac [] ip h = refl
find_ip-total mac ([] ∷ leases) ip h = absurd h.0
find_ip-total mac ((a ∷ []) ∷ leases) ip h = absurd h.0
find_ip-total mac ((a ∷ b ∷ []) ∷ leases) ip h = absurd h.0
find_ip-total mac ((a ∷ b ∷ c ∷ more) ∷ leases) ip h = elim (Bool-cases (str_eq b mac)) [
  | inl same ↦ rw same refl
  | inr other ↦ rw other (find_ip-total mac leases ip h.1)
]

abbrev pub IsGroup : Inventory → String → Type 0
IsGroup inventory group = is_some (lookup group inventory.groups) ≡ true

-- The five groups that the inventory begins with are there.
abbrev pub HasGroups : Inventory → Type 0
HasGroups inventory =
    All (IsGroup inventory)
      ("authentication" ∷ "swiftclient" ∷ "package_cache" ∷ "proxy" ∷ "storage" ∷ [])

-- What a step leaves: no group goes, and `ip` stays.
record Keeps (inventory next : Inventory) : Type 0 where
  groups : (g : String) → IsGroup inventory g → IsGroup next g
  address : next.ip ≡ inventory.ip

Keeps-trans : (a b c : Inventory) → Keeps a b → Keeps b c → Keeps a c
Keeps-trans a b c h k = record {
  groups = λ g p. k.groups g (h.groups g p);
  address = k.address ∙ h.address;
}

add_host-total :
    (inventory : Inventory) (group name : String)
    → IsGroup inventory group
    → (next : Inventory) × (add_host inventory group name ≡ ok next) × Keeps inventory next
unfolding add_host
add_host-total inventory group name h = elim (Option-cases (lookup group inventory.groups)) [
  | inl none_there ↦ absurd (ground (arith, rw none_there at h))
  | inr (hosts, e) ↦ (
    record inventory { groups = insert group (hosts ++ name ∷ []) inventory.groups },
    simp e refl,
    record {
      groups = λ g p. ground (arith, lookup-insert group g (hosts ++ name ∷ []) inventory.groups);
      address = refl;
    },
  )
]

add_hosts-total :
    (inventory : Inventory) (groups : List String) (name : String)
    → All (IsGroup inventory) groups
    → (next : Inventory) × (add_hosts inventory groups name ≡ ok next) × Keeps inventory next
unfolding add_hosts
add_hosts-total inventory [] name h =
    (inventory, refl, record { groups = λ g p. p; address = refl })
add_hosts-total inventory (group ∷ groups) name h =
    let (one, e, k) = add_host-total inventory group name h.0 in
    let (next, e', k') = add_hosts-total one groups name (All-kept inventory one groups k h.1) in
    (next, ap (λ m. m >>= λ n. add_hosts n groups name) e ∙ e', Keeps-trans inventory one next k k')
  where
    All-kept :
        (a b : Inventory) (gs : List String) → Keeps a b → All (IsGroup a) gs → All (IsGroup b) gs
    All-kept a b [] k h = tt
    All-kept a b (g ∷ gs) k h = (k.groups g h.0, All-kept a b gs k h.1)

add_meta-total :
    (inventory : Inventory) (name ip : String)
    → inventory.ip ≡ some ip
    → (next : Inventory) × (add_meta inventory name ≡ ok next) × Keeps inventory next
unfolding add_meta
add_meta-total inventory name ip h = elim (Bool-cases (str_eq name "hostvars")) [
  | inl same ↦ (
    record inventory { hostvars = some (opened inventory.hostvars) },
    simp same refl,
    record { groups = λ g p. p; address = refl },
  )
  | inr other ↦ (
    record inventory { hostvars = some (insert name ip (opened inventory.hostvars)) },
    simp (other, h) refl,
    record { groups = λ g p. p; address = refl },
  )
]

add_metas-total :
    (inventory : Inventory) (groups : List String) (name ip : String)
    → inventory.ip ≡ some ip
    → (next : Inventory) × (add_metas inventory groups name ≡ ok next) × Keeps inventory next
unfolding add_metas
add_metas-total inventory [] name ip h =
    (inventory, refl, record { groups = λ g p. p; address = refl })
add_metas-total inventory (group ∷ groups) name ip h =
    let (one, e, k) = add_meta-total inventory name ip h in
    let (next, e', k') = add_metas-total one groups name ip (k.address ∙ h) in
    (next, ap (λ m. m >>= λ n. add_metas n groups name) e ∙ e', Keeps-trans inventory one next k k')

groups_of-IsGroup :
    (inventory : Inventory) (name : String)
    → HasGroups inventory
    → All (IsGroup inventory) (groups_of name)
unfolding groups_of
groups_of-IsGroup inventory name (auth, (client, (cache, (proxy, (storage, _))))) =
    elim (Bool-cases (contains "keystone" name)) [
      | inl a ↦ rw a (auth, tt)
      | inr a ↦ elim (Bool-cases (contains "storage" name)) [
        | inl b ↦ rw (a, b) (storage, tt)
        | inr b ↦ elim (Bool-cases (contains "package-cache" name)) [
          | inl c ↦ rw (a, b, c) (cache, (client, tt))
          | inr c ↦ elim (Bool-cases (contains "proxy" name)) [
            | inl d ↦ rw (a, b, c, d) (proxy, tt)
            | inr d ↦ rw (a, b, c, d) tt
          ]
        ]
      ]
    ]

HasGroups-kept : (a b : Inventory) → Keeps a b → HasGroups a → HasGroups b
HasGroups-kept a b k (auth, (client, (cache, (proxy, (storage, _))))) = (
  k.groups "authentication" auth,
  (
    k.groups "swiftclient" client,
    (k.groups "package_cache" cache, (k.groups "proxy" proxy, (k.groups "storage" storage, tt))),
  ),
)

-- A machine that runs is added when its lease, or the machine before it, gives an address.
active-total :
    (leases : List (List String)) (inventory : Inventory) (machine : Machine) (mac ip : String)
    → All IsLease leases
    → HasGroups inventory
    → machine.is_active ≡ true
    → machine.mac ≡ some mac
    → leased mac leases inventory.ip ≡ some ip
    → (next : Inventory) × (add_machine leases inventory machine ≡ ok next) × HasGroups next
unfolding add_machine
active-total leases inventory machine mac ip lines has active has_mac lease =
    let start : Inventory = record inventory { ip = some ip } in
    let (one, e1, k1) =
      add_hosts-total start (groups_of machine.name) machine.name
        (groups_of-IsGroup start machine.name has) in
    let (next, e2, k2) = add_metas-total one (groups_of machine.name) machine.name ip k1.address in
    (
      next,
      simp (active, has_mac, find_ip-total mac leases inventory.ip lines, lease, e1, e2) refl,
      HasGroups-kept start next (Keeps-trans start one next k1 k2) has,
    )

add_machine-total :
    (leases : List (List String)) (inventory : Inventory) (machine : Machine)
    → All IsLease leases
    → (machine.is_active ≡ true → IsLeased leases machine)
    → HasGroups inventory
    → (next : Inventory) × (add_machine leases inventory machine ≡ ok next) × HasGroups next
unfolding add_machine
add_machine-total leases inventory machine lines h has = elim (Bool-cases machine.is_active) [
  | inr off ↦ (inventory, simp off refl, has)
  | inl active ↦
      let l = h active in
      active-total leases inventory machine l.mac l.host lines has active l.interface
        (leased_of l.mac l.host leases inventory.ip l.lease)
]

-- Where each lease has three columns at least and the inventory has its five groups, a machine that
-- runs, has an interface and has a group, and which has a lease or comes after a machine that had an
-- address, is added without an error; it gets the address in the first lease of its interface, and
-- without a lease that of the machine before it, which is the one for the next machine too; the
-- variables of other hosts stay as they were, and the groups are still there.
pub add_machine-given :
    (leases : List (List String)) (inventory : Inventory) (machine : Machine)
    (mac ip group : String) (groups : List String)
    → All IsLease leases
    → HasGroups inventory
    → machine.is_active ≡ true
    → machine.mac ≡ some mac
    → groups_of machine.name ≡ group ∷ groups
    → leased mac leases inventory.ip ≡ some ip
    → (next : Inventory) × (add_machine leases inventory machine ≡ ok next)
      × (host_of next machine.name ≡ some ip)
      × (next.ip ≡ some ip)
      × ((n : String) → str_eq machine.name n ≡ false → host_of next n ≡ host_of inventory n)
      × HasGroups next
add_machine-given leases inventory machine mac ip group groups lines has active has_mac grouped
      lease =
    let (next, e, kept) =
      active-total leases inventory machine mac ip lines has active has_mac lease in
    let (given, still, others) =
      add_machine-leased leases inventory machine mac group groups next active has_mac grouped e in
    (next, e, given ∙ lease, still ∙ lease, others, kept)

runs :
    (leases : List (List String)) (inventory : Inventory) (machines : List Machine)
    → All IsLease leases
    → All (λ m. m.is_active ≡ true → IsLeased leases m) machines
    → HasGroups inventory
    → (final : Inventory) × (add_machines leases inventory machines ≡ ok final)
unfolding add_machines
runs leases inventory [] lines h has = (inventory, refl)
runs leases inventory (machine ∷ machines) lines h has =
    let (next, e, has') = add_machine-total leases inventory machine lines h.0 has in
    let (final, e') = runs leases next machines lines h.1 has' in
    (final, ap (λ m. m >>= λ n. add_machines leases n machines) e ∙ e')

-- A run from the empty inventory over machines of which each that runs has an interface with a lease,
-- and leases of three columns at least, ends without an error; and a machine that runs and has a
-- group, and whose name no later machine has, is then given the address in the first lease of its
-- interface.
pub add_machines-total :
    (leases : List (List String)) (before : List Machine) (machine : Machine) (later : List Machine)
    → (mac group host : String) (groups : List String) → All IsLease leases
    → All (λ m. m.is_active ≡ true → IsLeased leases m) (before ++ machine ∷ later)
    → machine.is_active ≡ true
    → machine.mac ≡ some mac
    → groups_of machine.name ≡ group ∷ groups
    → leased mac leases none ≡ some host
    → All (λ m. str_eq m.name machine.name ≡ false) later
    → (final : Inventory) × (add_machines leases new_inventory (before ++ machine ∷ later)
        ≡ ok final)
      × (host_of final machine.name ≡ some host)
unfolding lookup
add_machines-total leases before machine later mac group host groups lines h active has_mac grouped
      lease differ =
    let (final, e) =
      runs leases new_inventory (before ++ machine ∷ later) lines h
        (refl, (refl, (refl, (refl, (refl, tt))))) in
    (
      final,
      e,
      add_machines-leased leases new_inventory before machine later mac group host groups final
          active has_mac grouped lease differ e,
    )
