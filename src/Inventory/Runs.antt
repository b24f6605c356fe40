-- ===== src/Inventory/Runs.antt =====
-- A run over all machines: each has its own address, if it has a lease.
use swiftacular.Base.{
  ◌≡◌, refl, sym, ◌∙◌, ap, true, false, Option, none, some, List, [], ◌∷◌, ◌++◌, String, str_eq,
  arith, Result, ok, raise, ◌>>=◌, >>=-eq-ok, Bool-cases, Option-cases, inl, inr, lookup, All,
  index_error,
}
use swiftacular.Inventory.{
  Machine, Inventory, opened, find_ip, groups_of, add_hosts, add_metas, add_machine, add_machines,
}
use swiftacular.Inventory.Hosts.{host_of, leased, add_machine-leased}

pub leased_of :
    (mac host : String) (leases : List (List String)) (ip : Option String)
    → leased mac leases none ≡ some host
    → leased mac leases ip ≡ some host
leased_of mac host [] ip h = absurd (ground arith)
leased_of mac host ([] ∷ leases) ip h = leased_of mac host leases ip h
leased_of mac host ((a ∷ []) ∷ leases) ip h = leased_of mac host leases ip h
leased_of mac host ((a ∷ b ∷ []) ∷ leases) ip h = leased_of mac host leases ip h
leased_of mac host ((a ∷ b ∷ c ∷ more) ∷ leases) ip h = elim (Bool-cases (str_eq b mac)) [
  | inl same ↦ rw same (rw same at h)
  | inr other ↦ rw other (leased_of mac host leases ip (rw other at h))
]

-- A machine in no group leaves the host variables as they were.
ungrouped :
    (leases : List (List String)) (inventory : Inventory) (machine : Machine) (mac : String)
    (next : Inventory)
    → machine.is_active ≡ true
    → machine.mac ≡ some mac
    → groups_of machine.name ≡ []
    → add_machine leases inventory machine ≡ ok next
    → next.hostvars ≡ inventory.hostvars
unfolding add_machine add_hosts add_metas
ungrouped leases inventory machine mac next active has_mac none_there h =
    let run : (find_ip mac leases inventory.ip >>= λ ip. ok (record inventory { ip = ip }))
        ≡ ok next =
      simp (active, has_mac, none_there) at h in
    let (ip, found, is) =
      >>=-eq-ok (find_ip mac leases inventory.ip) (λ ip. ok (record inventory { ip = ip })) run in
    let same : record inventory { ip = ip } ≡ next = ground arith in sym (ap (λ x. x.hostvars) same)

idle :
    (leases : List (List String)) (inventory : Inventory) (machine : Machine) (next : Inventory)
    → machine.is_active ≡ false
    → add_machine leases inventory machine ≡ ok next
    → next.hostvars ≡ inventory.hostvars
unfolding add_machine
idle leases inventory machine next off h =
    let run : ok inventory ≡ ok next = simp off at h in
    let same : inventory ≡ next = ground arith in sym (ap (λ x. x.hostvars) same)

no_mac :
    (leases : List (List String)) (inventory : Inventory) (machine : Machine) (next : Inventory)
    → machine.is_active ≡ true
    → machine.mac ≡ none
    → add_machine leases inventory machine ≡ ok next
    → ⊥
unfolding add_machine
no_mac leases inventory machine next active none_there h =
    let run : ◌≡◌ {A = Result Inventory} (raise index_error) (ok next) =
      simp (active, none_there) at h in
    absurd (ground arith)

grouped_or_not :
    (leases : List (List String)) (inventory : Inventory) (machine : Machine) (mac : String)
    (next : Inventory) (n : String)
    → (groups : List String) → groups_of machine.name ≡ groups
    → machine.is_active ≡ true
    → machine.mac ≡ some mac
    → str_eq machine.name n ≡ false
    → add_machine leases inventory machine ≡ ok next
    → host_of next n ≡ host_of inventory n
grouped_or_not leases inventory machine mac next n [] e active has_mac differ h =
    ap (λ v. lookup n (opened v)) (ungrouped leases inventory machine mac next active has_mac e h)
grouped_or_not leases inventory machine mac next n (group ∷ groups) e active has_mac differ h =
    let (has, still, others) =
      add_machine-leased leases inventory machine mac group groups next active has_mac e h in
    others n differ

add_machine-others :
    (leases : List (List String)) (inventory : Inventory) (machine : Machine) (next : Inventory)
    (n : String)
    → str_eq machine.name n ≡ false
    → add_machine leases inventory machine ≡ ok next
    → host_of next n ≡ host_of inventory n
add_machine-others leases inventory machine next n differ h = elim (Bool-cases machine.is_active) [
  | inr off ↦ ap (λ v. lookup n (opened v)) (idle leases inventory machine next off h)
  | inl active ↦ elim (Option-cases machine.mac) [
    | inl none_there ↦ absurd (no_mac leases inventory machine next active none_there h)
    | inr (mac, has_mac) ↦
        grouped_or_not leases inventory machine mac next n (groups_of machine.name) refl active
          has_mac differ h
  ]
]

add_machines-others :
    (leases : List (List String)) (inventory : Inventory) (machines : List Machine)
    (final : Inventory) (n : String)
    → All (λ m. str_eq m.name n ≡ false) machines
    → add_machines leases inventory machines ≡ ok final
    → host_of final n ≡ host_of inventory n
unfolding add_machines
add_machines-others leases inventory [] final n differ h =
    let same : inventory ≡ final = ground arith in sym (ap (λ x. host_of x n) same)
add_machines-others leases inventory (machine ∷ machines) final n (here, later) h =
    let (next, e, rest) =
      >>=-eq-ok (add_machine leases inventory machine) (λ x. add_machines leases x machines) h in
    add_machines-others leases next machines final n later rest
    ∙ add_machine-others leases inventory machine next n here e

-- In a run that ends, a machine that runs and has a group, and whose name no later machine has, is
-- given the address in the first lease of its interface, if it has a lease.
pub add_machines-leased :
    (leases : List (List String)) (inventory : Inventory) (before : List Machine)
    (machine : Machine) (later : List Machine)
    → (mac group host : String) (groups : List String) (final : Inventory)
    → machine.is_active ≡ true
    → machine.mac ≡ some mac
    → groups_of machine.name ≡ group ∷ groups
    → leased mac leases none ≡ some host
    → All (λ m. str_eq m.name machine.name ≡ false) later
    → add_machines leases inventory (before ++ machine ∷ later) ≡ ok final
    → host_of final machine.name ≡ some host
unfolding add_machines
add_machines-leased leases inventory [] machine later mac group host groups final active has_mac
      grouped lease differ h =
    let (next, e, rest) =
      >>=-eq-ok (add_machine leases inventory machine) (λ x. add_machines leases x later) h in
    let (has, still, others) =
      add_machine-leased leases inventory machine mac group groups next active has_mac grouped e in
    add_machines-others leases next later final machine.name differ rest
    ∙ has
    ∙ leased_of mac host leases inventory.ip lease
add_machines-leased leases inventory (first ∷ before) machine later mac group host groups final
      active has_mac grouped lease differ h =
    let (next, e, rest) =
      >>=-eq-ok (add_machine leases inventory first)
        (λ x. add_machines leases x (before ++ machine ∷ later)) h in
    add_machines-leased leases next before machine later mac group host groups final active has_mac
      grouped lease differ rest
