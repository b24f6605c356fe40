-- ===== src/Tests/Inventory.antt =====
-- Witnesses for the inventory: a storage node with a lease, and a proxy without one.
use swiftacular.Base.{
  ◌≡◌, refl, true, false, some, List, [], ◌∷◌, String, ok, lookup, insert, str_eq,
}
use swiftacular.Inventory.{Machine, Inventory, new_inventory, groups_of, add_machine, add_machines}
use swiftacular.Inventory.Hosts.{host_of}
use swiftacular.Inventory.Total.{HasGroups, add_machine-given, add_machines-total}

abbrev storage : Machine
storage = record { name = "swift-storage-01"; is_active = true; mac = some "aa" }

abbrev proxy : Machine
proxy = record { name = "swift-proxy-01"; is_active = true; mac = some "bb" }

abbrev leases : List (List String)
leases = ("1700" ∷ "aa" ∷ "192.168.100.10" ∷ "swift-storage-01" ∷ []) ∷ []

abbrev with_storage : Inventory
with_storage = record {
  groups =
      ("authentication", [])
      ∷ ("swiftclient", [])
      ∷ ("package_cache", [])
      ∷ ("proxy", [])
      ∷ ("storage", "swift-storage-01" ∷ [])
      ∷ [];
  hostvars = some (("swift-storage-01", "192.168.100.10") ∷ []);
  ip = some "192.168.100.10";
}

abbrev with_both : Inventory
with_both = record {
  groups =
      ("authentication", [])
      ∷ ("swiftclient", [])
      ∷ ("package_cache", [])
      ∷ ("proxy", "swift-proxy-01" ∷ [])
      ∷ ("storage", "swift-storage-01" ∷ [])
      ∷ [];
  hostvars =
      some (("swift-storage-01", "192.168.100.10") ∷ ("swift-proxy-01", "192.168.100.10") ∷ []);
  ip = some "192.168.100.10";
}

proxy_ran : add_machine leases with_storage proxy ≡ ok with_both
unfolding add_machine lookup insert
proxy_ran = refl

storage_groups : groups_of "swift-storage-01" ≡ "storage" ∷ []
unfolding groups_of
storage_groups = refl

proxy_groups : groups_of "swift-proxy-01" ≡ "proxy" ∷ []
unfolding groups_of
proxy_groups = refl

abbrev both_leased : List (List String)
both_leased =
    ("1700" ∷ "aa" ∷ "192.168.100.10" ∷ "swift-storage-01" ∷ [])
    ∷ ("1701" ∷ "bb" ∷ "192.168.100.11" ∷ "swift-proxy-01" ∷ [])
    ∷ []

add_machines-total_example :
    (final : Inventory) × (add_machines both_leased new_inventory (proxy ∷ storage ∷ []) ≡ ok final)
    × (host_of final "swift-storage-01" ≡ some "192.168.100.10")
add_machines-total_example =
    add_machines-total both_leased (proxy ∷ []) storage [] "aa" "storage" "192.168.100.10" []
      (tt, (tt, tt))
      (
        λ active. record { mac = "bb"; interface = refl; host = "192.168.100.11"; lease = refl },
        (
          λ active. record { mac = "aa"; interface = refl; host = "192.168.100.10"; lease = refl },
          tt,
        ),
      )
      refl refl storage_groups refl tt

-- The proxy has no lease, and is given the storage node's address.
add_machine-given_example :
    (next : Inventory) × (add_machine leases with_storage proxy ≡ ok next)
    × (host_of next "swift-proxy-01" ≡ some "192.168.100.10")
    × (next.ip ≡ some "192.168.100.10")
    × ((n : String) → str_eq "swift-proxy-01" n ≡ false → host_of next n ≡ host_of with_storage n)
    × HasGroups next
unfolding lookup
add_machine-given_example =
    add_machine-given leases with_storage proxy "bb" "192.168.100.10" "proxy" [] (tt, tt)
      (refl, (refl, (refl, (refl, (refl, tt))))) refl refl proxy_groups refl
