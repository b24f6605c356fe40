-- ===== src/Device/Manager/Shared.antt =====
-- All requests for a device and a policy share one Device, and no two pairs have the same.
use swiftacular.Base.{
  ℕ, ◌≡◌, ◌≢◌, refl, sym, ◌∙◌, ap, subst, Bool, true, false, Option, some, List, [], ◌∷◌, String,
  str_eq, arith, Result, ok, raise, Bool-cases, Option-cases, ◌⊎◌, inl, inr, lookup,
}
use swiftacular.Device.Manager.{
  Policy, Manager, manager, directories, device_of, devices_of, get_device, after_request,
  after_requests,
}
use swiftacular.Device.Manager.Slots.{slot_in, slot, IsSeparate, Got, Gets, Gets-get_device}

module _ (get_policy_string : String → Policy → String) where
  got :
      (m : Manager) (device : String) (policy : Policy) (m' : Manager) (dev : ℕ)
      → get_device get_policy_string m device policy ≡ ok (m', dev)
      → Got get_policy_string m device policy m' dev
  got m device policy m' dev e =
      subst (Gets get_policy_string m device policy) e
        (Gets-get_device get_policy_string m device policy)

  -- A slot that holds a Device answers with it, and nothing changes.
  held_again :
      (m : Manager) (device : String) (policy : Policy) (dev : ℕ)
      → slot m device policy.name ≡ some dev
      → get_device get_policy_string m device policy ≡ ok (m, dev)
  unfolding get_device devices_of device_of
  held_again m device policy dev h = elim (Option-cases (lookup device m.devices)) [
    | inl unknown ↦ absurd (ground (arith, ap (slot_in policy.name) unknown))
    | inr (known, found) ↦ rw (found, sym (ap (slot_in policy.name) found) ∙ h) refl
  ]

  -- What requests leave as it was.
  record Stays (m m' : Manager) : Type 0 where
    apart_still : IsSeparate m → IsSeparate m'
    holds_still : (d n : String) (dev : ℕ) → slot m d n ≡ some dev → slot m' d n ≡ some dev

  Stays-out :
      (m : Manager) (device : String) (policy : Policy) (out : Result (Manager × ℕ))
      → Gets get_policy_string m device policy out
      → Stays m (elim out as (λ x. Manager) [ ok (m', dev) ↦ m' | raise e ↦ m ])
  Stays-out m device policy (raise e) h = record {
    apart_still = λ s. s;
    holds_still = λ d n dev e'. e';
  }
  Stays-out m device policy (ok (m', dev)) h = record {
    apart_still = h.separate;
    holds_still = h.kept;
  }

  Stays-requests :
      (m : Manager) (requests : List (String × Policy))
      → Stays m (after_requests get_policy_string m requests)
  unfolding after_requests after_request
  Stays-requests m [] = record { apart_still = λ s. s; holds_still = λ d n dev e. e }
  Stays-requests m ((device, policy) ∷ requests) =
      let out = get_device get_policy_string m device policy in
      let first =
        Stays-out m device policy out (Gets-get_device get_policy_string m device policy) in
      let rest = Stays-requests (after_request get_policy_string m (device, policy)) requests in
      record {
        apart_still = λ s. rest.apart_still (first.apart_still s);
        holds_still = λ d n dev e. rest.holds_still d n dev (first.holds_still d n dev e);
      }

  -- Once a request has been given a Device, every later one for the same device and policy is given
  -- the same, whatever requests come between, and makes none.
  pub get_device-again :
      (m : Manager) (device : String) (policy : Policy) (m' : Manager) (dev : ℕ)
      (requests : List (String × Policy))
      → get_device get_policy_string m device policy ≡ ok (m', dev)
      → get_device get_policy_string (after_requests get_policy_string m' requests) device policy
        ≡ ok (after_requests get_policy_string m' requests, dev)
  get_device-again m device policy m' dev requests e =
      let g = got m device policy m' dev e in
      let stays = Stays-requests m' requests in
      held_again (after_requests get_policy_string m' requests) device policy dev
        (stays.holds_still device policy.name dev g.held)

lookup-directories :
    (device : String) (entries : List (String × Bool))
    → (n : String) (dev : ℕ) → ◌≢◌ (slot_in n (lookup device (directories entries))) (some dev)
unfolding directories lookup
lookup-directories device [] n dev e = absurd (ground arith)
lookup-directories device ((name, false) ∷ entries) n dev e =
    lookup-directories device entries n dev e
lookup-directories device ((name, true) ∷ entries) n dev e =
    elim (Bool-cases (str_eq name device)) [
      | inl same ↦ absurd (ground (arith, rw same at e))
      | inr other ↦ lookup-directories device entries n dev (rw other at e)
    ]

after_requests-separate :
    (get_policy_string : String → Policy → String)
    → (devices_path : Option String) (entries : List (String × Bool))
      (requests : List (String × Policy))
    → (d1 n1 d2 n2 : String) (dev : ℕ)
    → slot (after_requests get_policy_string (manager devices_path entries) requests) d1 n1
      ≡ some dev
    → slot (after_requests get_policy_string (manager devices_path entries) requests) d2 n2
      ≡ some dev
    → (d1 ≡ d2) × (n1 ≡ n2)
after_requests-separate get_policy_string devices_path entries requests d1 n1 d2 n2 dev e1 e2 =
    let m = manager devices_path entries in
    let nothing : IsSeparate m = record {
      made_before = λ d n x e. absurd (lookup-directories d entries n x e);
      apart = λ a b c d x e e'. absurd (lookup-directories a entries b x e);
    } in
    ((Stays-requests get_policy_string m requests).apart_still nothing).apart d1 n1 d2 n2 dev e1 e2

-- After any requests to a new manager, the Devices that are kept for two devices, or for two names of
-- policies, differ.
pub after_requests-differ :
    (get_policy_string : String → Policy → String)
    → (devices_path : Option String) (entries : List (String × Bool))
      (requests : List (String × Policy))
    → (d1 n1 d2 n2 : String) (dev1 dev2 : ℕ)
    → slot (after_requests get_policy_string (manager devices_path entries) requests) d1 n1
      ≡ some dev1
    → slot (after_requests get_policy_string (manager devices_path entries) requests) d2 n2
      ≡ some dev2
    → (d1 ≢ d2) ⊎ (n1 ≢ n2)
    → dev1 ≢ dev2
after_requests-differ get_policy_string devices_path entries requests d1 n1 d2 n2 dev1 dev2 e1 e2
      other same =
    let (d, n) =
      after_requests-separate get_policy_string devices_path entries requests d1 n1 d2 n2 dev2
        (e1 ∙ ap some same) e2 in
    elim other [ inl devices ↦ devices d | inr policies ↦ policies n ]
