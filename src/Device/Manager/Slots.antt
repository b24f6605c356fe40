-- ===== src/Device/Manager/Slots.antt =====
-- What a request does to the Devices that a manager keeps, by device and policy name.
use swiftacular.Base.{
  ℕ, ◌<◌, ◌≡◌, refl, sym, ◌∙◌, ap, subst, Bool, true, false, ◌&&◌, Option, none, some, List, [],
  ◌∷◌, ◌++◌, String, str_eq, eq_iff, eq_refl, arith, Result, ok, raise, if◌then◌else◌, Bool-cases,
  ◌⊎◌, inl, inr, Dict, lookup, insert, lookup-insert, length, length-append,
}
use swiftacular.Device.Manager.{Policy, Manager, path_of, device_of, devices_of, get_device}

abbrev pub slot_in : String → Option (Dict ℕ) → Option ℕ
slot_in name none = none
slot_in name (some known) = lookup name known

-- The Device that is kept for a device and the name of a policy.
abbrev pub slot : Manager → String → String → Option ℕ
slot m device name = slot_in name (lookup device m.devices)

-- No two slots hold the same Device, and each holds one that was made.
pub record IsSeparate (m : Manager) : Type 0 where
  pub made_before :
      (device name : String) (dev : ℕ) → slot m device name ≡ some dev → dev < length m.made
  pub apart :
      (d1 n1 d2 n2 : String) (dev : ℕ)
      → slot m d1 n1 ≡ some dev
      → slot m d2 n2 ≡ some dev
      → (d1 ≡ d2) × (n1 ≡ n2)

module _ (get_policy_string : String → Policy → String) where
  -- What a request does to the slots: it holds its Device, and no other slot changes.
  pub record Got (m : Manager) (device : String) (policy : Policy) (m' : Manager) (dev : ℕ)
      : Type 0 where
    pub held : slot m' device policy.name ≡ some dev
    pub others :
        (d n : String)
        → (str_eq device d && str_eq policy.name n) ≡ false
        → slot m' d n ≡ slot m d n
    pub separate : IsSeparate m → IsSeparate m'
    pub kept : (d n : String) (old : ℕ) → slot m d n ≡ some old → slot m' d n ≡ some old

  slot-insert :
      (m : Manager) (made : List String) (device : String) (known : Dict ℕ) (name : String)
      (dev : ℕ) (d n : String)
      → lookup device m.devices ≡ some known
      → slot
          (record m { made = made; devices = insert device (insert name dev known) m.devices })
          d
          n
        ≡ (if str_eq device d && str_eq name n then some dev else slot m d n)
  slot-insert m made device known name dev d n e = elim (Bool-cases (str_eq device d)) [
    | inl same ↦
        let k : lookup d m.devices ≡ some known =
          subst (λ x. lookup x m.devices ≡ some known) ((eq_iff device d).0 same) e in
        ground (
          arith,
          lookup-insert device d (insert name dev known) m.devices,
          lookup-insert name n dev known,
        )
    | inr other ↦ rw (lookup-insert, other) refl
  ]

  -- A slot of the manager that has made one more Device is the new one, or was there.
  new_or_old :
      (here : Bool) (x dev : ℕ) (old : Option ℕ)
      → (if here then some dev else old) ≡ some x
      → ((here ≡ true) × (x ≡ dev)) ⊎ (old ≡ some x)
  new_or_old true x dev old e = inl (refl, ground arith)
  new_or_old false x dev old e = inr e

  both_true : (a b : Bool) → (a && b) ≡ true → (a ≡ true) × (b ≡ true)
  both_true a b h = (ground arith, ground arith)

  module _ (m : Manager) (device : String) (policy : Policy) (known : Dict ℕ)
      (found : lookup device m.devices ≡ some known) (free : lookup policy.name known ≡ none) where
    abbrev next : Manager
    next = record m {
      made = m.made ++ path_of get_policy_string m device policy ∷ [];
      devices = insert device (insert policy.name (length m.made) known) m.devices;
    }

    abbrev is_here : String → String → Bool
    is_here d n = str_eq device d && str_eq policy.name n

    slot-next :
        (d n : String) → slot next d n ≡ (if is_here d n then some (length m.made) else slot m d n)
    slot-next d n = slot-insert m next.made device known policy.name (length m.made) d n found

    was :
        (d n : String) (x : ℕ)
        → slot next d n ≡ some x
        → ((is_here d n ≡ true) × (x ≡ length m.made)) ⊎ (slot m d n ≡ some x)
    was d n x e = new_or_old (is_here d n) x (length m.made) (slot m d n) (sym (slot-next d n) ∙ e)

    here_is : (d n : String) → is_here d n ≡ true → (device ≡ d) × (policy.name ≡ n)
    here_is d n h =
        let (a, b) = both_true (str_eq device d) (str_eq policy.name n) h in
        ((eq_iff device d).0 a, (eq_iff policy.name n).0 b)

    IsSeparate-next : IsSeparate m → IsSeparate next
    IsSeparate-next h = record {
      made_before = λ d n x e. elim (was d n x e) [
        | inl (here, is) ↦
            omega (arith, length-append m.made (path_of get_policy_string m device policy ∷ []))
        | inr old ↦ omega (
          arith,
          h.made_before d n x old,
          length-append m.made (path_of get_policy_string m device policy ∷ []),
        )
      ];
      apart = λ d1 n1 d2 n2 x e1 e2. elim (was d1 n1 x e1) [
        | inl (here1, is1) ↦ elim (was d2 n2 x e2) [
          | inl (here2, is2) ↦
              let (a1, b1) = here_is d1 n1 here1 in
              let (a2, b2) = here_is d2 n2 here2 in (sym a1 ∙ a2, sym b1 ∙ b2)
          | inr old2 ↦ absurd (omega (arith, h.made_before d2 n2 x old2))
        ]
        | inr old1 ↦ elim (was d2 n2 x e2) [
          | inl (here2, is2) ↦ absurd (omega (arith, h.made_before d1 n1 x old1))
          | inr old2 ↦ h.apart d1 n1 d2 n2 x old1 old2
        ]
      ];
    }

    free_here : (d n : String) → is_here d n ≡ true → slot m d n ≡ none
    free_here d n h =
        let (a, b) = here_is d n h in
        subst (λ x. slot m x n ≡ none) a
          (subst (λ y. slot m device y ≡ none) b (ap (slot_in policy.name) found ∙ free))

    Got-next : Got m device policy next (length m.made)
    Got-next = record {
      held = slot-next device policy.name ∙ ground (arith, eq_refl device, eq_refl policy.name);
      others = λ d n e. slot-next d n ∙ rw e refl;
      separate = IsSeparate-next;
      kept = λ d n old e. elim (Bool-cases (is_here d n)) [
        | inl here ↦ absurd (ground (arith, free_here d n here))
        | inr other ↦ slot-next d n ∙ rw other e
      ];
    }

  abbrev pub Gets : Manager → String → Policy → Result (Manager × ℕ) → Type 0
  Gets m device policy (raise e) = Unit
  Gets m device policy (ok (m', dev)) = Got m device policy m' dev

  Gets-device_of :
      (m : Manager) (device : String) (policy : Policy) (known : Dict ℕ) (kept : Option ℕ)
      → lookup device m.devices ≡ some known
      → lookup policy.name known ≡ kept
      → Gets m device policy (device_of get_policy_string m device policy known kept)
  unfolding device_of
  Gets-device_of m device policy known none found is = Got-next m device policy known found is
  Gets-device_of m device policy known (some dev) found is = record {
    held = ap (slot_in policy.name) found ∙ is;
    others = λ d n e. refl;
    separate = λ h. h;
    kept = λ d n old e. e;
  }

  Gets-devices_of :
      (m : Manager) (device : String) (policy : Policy) (known : Option (Dict ℕ))
      → lookup device m.devices ≡ known
      → Gets m device policy (devices_of get_policy_string m device policy known)
  unfolding devices_of
  Gets-devices_of m device policy none found = tt
  Gets-devices_of m device policy (some known) found =
      Gets-device_of m device policy known (lookup policy.name known) found refl

  pub Gets-get_device :
      (m : Manager) (device : String) (policy : Policy)
      → Gets m device policy (get_device get_policy_string m device policy)
  unfolding get_device
  Gets-get_device m device policy = Gets-devices_of m device policy (lookup device m.devices) refl
