-- ===== src/Tests/Manager.antt =====
-- Witnesses for the manager: a node with one disk and a plain file beside it.
use swiftacular.Base.{
  ◌≡◌, ◌≢◌, refl, true, false, none, some, List, [], ◌∷◌, String, ok, lookup, insert, ℕ, inr, arith,
  eq_iff,
}
use swiftacular.Device.Manager.{Policy, Manager, manager, get_device, after_requests, directories}
use swiftacular.Device.Manager.Slots.{slot}
use swiftacular.Device.Manager.Shared.{get_device-again, after_requests-differ}

abbrev policy_string : String → Policy → String
policy_string base policy = policy.name

abbrev gold : Policy
gold = record { name = "gold"; policy_type = "bluestore" }

abbrev silver : Policy
silver = record { name = "silver"; policy_type = "bluestore" }

abbrev node : Manager
node = manager none (("d1", true) ∷ ("README", false) ∷ [])

abbrev used : Manager
used = after_requests policy_string node (("d1", gold) ∷ [])

first_request : get_device policy_string node "d1" gold ≡ ok (used, 0)
unfolding get_device after_requests lookup insert directories
first_request = refl

get_device-again_example :
    get_device policy_string (after_requests policy_string used (("d1", silver) ∷ [])) "d1" gold
    ≡ ok (after_requests policy_string used (("d1", silver) ∷ []), 0)
get_device-again_example =
    get_device-again policy_string node "d1" gold used 0 (("d1", silver) ∷ []) first_request

abbrev two_requests : List (String × Policy)
two_requests = ("d1", gold) ∷ ("d1", silver) ∷ []

abbrev node_used : Manager
node_used = after_requests policy_string node two_requests

gold_slot : slot node_used "d1" "gold" ≡ some 0
unfolding after_requests lookup insert directories
gold_slot = refl

silver_slot : slot node_used "d1" "silver" ≡ some 1
unfolding after_requests lookup insert directories
silver_slot = refl

names_differ : ◌≢◌ {A = String} "gold" "silver"
names_differ = ground (arith, eq_iff "gold" "silver")

after_requests-differ_example : ◌≢◌ {A = ℕ} 0 1
after_requests-differ_example =
    after_requests-differ policy_string none (("d1", true) ∷ ("README", false) ∷ []) two_requests
      "d1" "gold" "d1" "silver" 0 1 gold_slot silver_slot (inr names_differ)
