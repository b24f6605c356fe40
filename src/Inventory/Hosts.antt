-- ===== src/Inventory/Hosts.antt =====
-- The address that the inventory gives to a machine.
use swiftacular.Base.{
  ◌≡◌, refl, sym, ◌∙◌, ap, subst, true, false, Option, none, some, List, [], ◌∷◌, ◌++◌, String,
  str_eq, eq_iff, eq_refl, arith, ok, ◌>>=◌, >>=-eq-ok, if◌then◌else◌, Bool-cases, inl, inr, lookup,
  insert, lookup-insert,
}
use swiftacular.Inventory.{
  Machine, Inventory, opened, add_meta, add_host, find_ip, groups_of, add_hosts, add_metas,
  add_machine,
}

-- What the inventory holds for a host.
abbrev pub host_of : Inventory → String → Option String
host_of inventory name = lookup name (opened inventory.hostvars)

-- The address in the first lease of an address, or else what there was.
abbrev pub leased : String → List (List String) → Option String → Option String
leased mac [] ip = ip
leased mac ((expiry ∷ address ∷ host ∷ more) ∷ leases) ip =
    let rest = leased mac leases ip in if str_eq address mac then some host else rest
leased mac (_ ∷ leases) ip = leased mac leases ip

find_ip-leased :
    (mac : String) (leases : List (List String)) (ip found : Option String)
    → find_ip mac leases ip ≡ ok found
    → found ≡ leased mac leases ip
unfolding find_ip
find_ip-leased mac [] ip found h = ground arith
find_ip-leased mac ([] ∷ leases) ip found h = absurd (ground arith)
find_ip-leased mac ((expiry ∷ []) ∷ leases) ip found h = absurd (ground arith)
find_ip-leased mac ((expiry ∷ address ∷ []) ∷ leases) ip found h =
    elim (Bool-cases (str_eq address mac)) [
      | inl same ↦ absurd (ground arith)
      | inr other ↦ find_ip-leased mac leases ip found (rw other at h)
    ]
find_ip-leased mac ((expiry ∷ address ∷ host ∷ more) ∷ leases) ip found h =
    elim (Bool-cases (str_eq address mac)) [
      | inl same ↦ rw same (ground arith)
      | inr other ↦ rw other (find_ip-leased mac leases ip found (rw other at h))
    ]

-- The hosts of a group are no host variables.
record Same (inventory next : Inventory) : Type 0 where
  vars : next.hostvars ≡ inventory.hostvars
  address : next.ip ≡ inventory.ip

Same-host :
    (inventory : Inventory) (group name : String) (hosts : Option (List String)) (next : Inventory)
    → lookup group inventory.groups ≡ hosts
    → add_host inventory group name ≡ ok next
    → Same inventory next
unfolding add_host
Same-host inventory group name none next e h = absurd (ground arith)
Same-host inventory group name (some hosts) next e h =
    let is : record inventory { groups = insert group (hosts ++ name ∷ []) inventory.groups }
        ≡ next =
      ground arith in
    record { vars = sym (ap (λ x. x.hostvars) is); address = sym (ap (λ x. x.ip) is) }

Same-hosts :
    (inventory : Inventory) (groups : List String) (name : String) (next : Inventory)
    → add_hosts inventory groups name ≡ ok next
    → Same inventory next
unfolding add_hosts
Same-hosts inventory [] name next h = record { vars = ground arith; address = ground arith }
Same-hosts inventory (group ∷ groups) name next h =
    let (one, e, rest) =
      >>=-eq-ok (add_host inventory group name) (λ n. add_hosts n groups name) h in
    let first = Same-host inventory group name (lookup group inventory.groups) one refl e in
    let later = Same-hosts one groups name next rest in
    record { vars = later.vars ∙ first.vars; address = later.address ∙ first.address }

-- The host variables after a step: the machine has the address that `ip` holds, and nothing else
-- changes.
record Given (inventory : Inventory) (name : String) (next : Inventory) : Type 0 where
  has : host_of next name ≡ inventory.ip
  others : (n : String) → str_eq name n ≡ false → host_of next n ≡ host_of inventory n
  still : next.ip ≡ inventory.ip

Given-meta :
    (inventory : Inventory) (name : String) (ip : Option String) (next : Inventory)
    → inventory.ip ≡ ip
    → str_eq name "hostvars" ≡ false
    → add_meta inventory name ≡ ok next
    → Given inventory name next
unfolding add_meta
Given-meta inventory name none next e other h = absurd (ground arith)
Given-meta inventory name (some ip) next e other h =
    let is : record inventory { hostvars = some (insert name ip (opened inventory.hostvars)) }
        ≡ next =
      ground arith in
    subst (Given inventory name) is (record {
      has = lookup-insert name name ip (opened inventory.hostvars) ∙ rw (eq_refl, e) refl;
      others = λ n differ. lookup-insert name n ip (opened inventory.hostvars) ∙ rw differ refl;
      still = refl;
    })

Given-more :
    (inventory one : Inventory) (groups : List String) (name : String) (next : Inventory)
    → str_eq name "hostvars" ≡ false
    → Given inventory name one
    → add_metas one groups name ≡ ok next
    → Given inventory name next
unfolding add_metas
Given-more inventory one [] name next other first h =
    subst (Given inventory name) (ground arith) first
Given-more inventory one (group ∷ groups) name next other first h =
    let (two, e, rest) = >>=-eq-ok (add_meta one name) (λ n. add_metas n groups name) h in
    let second = Given-meta one name one.ip two refl other e in
    let both : Given inventory name two = record {
      has = second.has ∙ first.still;
      others = λ n differ. second.others n differ ∙ first.others n differ;
      still = second.still ∙ first.still;
    } in
    Given-more inventory two groups name next other both rest

Given-metas :
    (inventory : Inventory) (group : String) (groups : List String) (name : String)
    (next : Inventory)
    → str_eq name "hostvars" ≡ false
    → add_metas inventory (group ∷ groups) name ≡ ok next
    → Given inventory name next
unfolding add_metas
Given-metas inventory group groups name next other h =
    let (one, e, rest) = >>=-eq-ok (add_meta inventory name) (λ n. add_metas n groups name) h in
    Given-more inventory one groups name next other
      (Given-meta inventory name inventory.ip one refl other e) rest

-- A machine of that name is in no group.
not_hostvars :
    (name group : String) (groups : List String)
    → groups_of name ≡ group ∷ groups
    → str_eq name "hostvars" ≡ false
not_hostvars name group groups h = elim (Bool-cases (str_eq name "hostvars")) [
  | inl same ↦
      let none_there : groups_of "hostvars" ≡ [] = unfold groups_of in refl in
      absurd (ground (arith, ap groups_of ((eq_iff name "hostvars").0 same)))
  | inr other ↦ other
]

-- Where adding a machine that runs, has an interface and has a group ends without an error, the machine
-- gets the address in the first lease of its interface, and without a lease that of the machine before
-- it; the variables of other hosts stay as they were.
pub add_machine-leased :
    (leases : List (List String)) (inventory : Inventory) (machine : Machine) (mac group : String)
    → (groups : List String) (next : Inventory) → machine.is_active ≡ true
    → machine.mac ≡ some mac
    → groups_of machine.name ≡ group ∷ groups
    → add_machine leases inventory machine ≡ ok next
    → (host_of next machine.name ≡ leased mac leases inventory.ip)
      × (next.ip ≡ leased mac leases inventory.ip)
      × ((n : String) → str_eq machine.name n ≡ false → host_of next n ≡ host_of inventory n)
unfolding add_machine
add_machine-leased leases inventory machine mac group groups next active has_mac grouped h =
    let other = not_hostvars machine.name group groups grouped in
    let run : (do
      ip ← find_ip mac leases inventory.ip
      with_hosts ← add_hosts (record inventory { ip = ip }) (group ∷ groups) machine.name
      add_metas with_hosts (group ∷ groups) machine.name)
        ≡ ok next =
      simp (active, has_mac, grouped) at h in
    let (ip, found, rest) =
      >>=-eq-ok (find_ip mac leases inventory.ip)
        (λ ip. add_hosts (record inventory { ip = ip }) (group ∷ groups) machine.name >>= λ w.
          add_metas w (group ∷ groups) machine.name)
        run in
    let (with_hosts, hosts, metas) =
      >>=-eq-ok (add_hosts (record inventory { ip = ip }) (group ∷ groups) machine.name)
        (λ w. add_metas w (group ∷ groups) machine.name) rest in
    let same =
      Same-hosts (record inventory { ip = ip }) (group ∷ groups) machine.name with_hosts hosts in
    let given = Given-metas with_hosts group groups machine.name next other metas in
    let is = find_ip-leased mac leases inventory.ip ip found in
    (
      given.has ∙ same.address ∙ is,
      given.still ∙ same.address ∙ is,
      λ n differ. given.others n differ ∙ ap (λ v. lookup n (opened v)) same.vars,
    )
