-- ===== src/Ondisk/Opens/Checks.antt =====
-- What holds where an action of the open goes on, and what its checks have found then.
use swiftacular.Base.{
  ℕ, ◌≡◌, refl, sym, ap, ◌∙◌, inl, inr, true, false, not, ◌&&◌, Option, none, some, String, eq_iff,
  leb, ltb, ◌==◌, or_else, Dict, lookup, Bool-cases, Option-cases, arith, subst,
}
use swiftacular.Ondisk.Opens.{
  Opener, DiskFile, Outcome, done, os_failed, raised, Action, continue, quarantine,
}
use swiftacular.Ondisk.Opens.Data.{
  with_length, is_name, checked_name, checked_delete_at, checked_size, verify_name,
  verify_delete_at, verify_size, verify_data_file,
}

-- What holds where an action goes on.
abbrev pub Ensures : {A : Type 0} → (A → DiskFile → Type 0) → Outcome A × DiskFile → Type 0
Ensures Q (done x, s) = Q x s
Ensures Q (os_failed errno, s) = Unit
Ensures Q (raised e, s) = Unit

pub Ensures-continue :
    {A B : Type 0} (P : A → DiskFile → Type 0) (Q : B → DiskFile → Type 0) (k : A → Action B)
    (out : Outcome A × DiskFile)
    → Ensures P out
    → ((x : A) (s : DiskFile) → P x s → Ensures Q (k x s))
    → Ensures Q (continue k out)
Ensures-continue P Q k (done x, s) h next = next x s h
Ensures-continue P Q k (os_failed errno, s) h next = tt
Ensures-continue P Q k (raised e, s) h next = tt

-- The state is as it was, and `R` holds of the result.
abbrev pub Same : {A : Type 0} → (A → Type 0) → DiskFile → A → DiskFile → Type 0
Same R self x s = (s ≡ self) × R x

pub Ensures-continue-Same :
    {A B : Type 0} (R : A → Type 0) (Q : B → DiskFile → Type 0) (k : A → Action B) (self : DiskFile)
    (out : Outcome A × DiskFile)
    → Ensures (Same R self) out
    → ((x : A) → R x → Ensures Q (k x self))
    → Ensures Q (continue k out)
Ensures-continue-Same R Q k self (done x, s) (e, r) next =
    subst (λ t. Ensures Q (k x t)) (sym e) (next x r)
Ensures-continue-Same R Q k self (os_failed errno, s) h next = tt
Ensures-continue-Same R Q k self (raised e, s) h next = tt

pub Ensures-weaker :
    {A : Type 0} (P Q : A → DiskFile → Type 0) (out : Outcome A × DiskFile)
    → ((x : A) (s : DiskFile) → P x s → Q x s)
    → Ensures P out
    → Ensures Q out
Ensures-weaker P Q (done x, s) f h = f x s h
Ensures-weaker P Q (os_failed errno, s) f h = tt
Ensures-weaker P Q (raised e, s) f h = tt

pub some_injective {ℓ} : {A : Type ℓ} {a b : A} → some a ≡ some b → a ≡ b
some_injective {a = a} e = ap (or_else a) e

module _ (o : Opener) where
  pub Ensures-quarantine :
      {A : Type 0} (Q : A → DiskFile → Type 0) (file : String) (self : DiskFile)
      → Ensures Q (quarantine o file self)
  unfolding quarantine
  Ensures-quarantine Q file self = elim (Bool-cases (o.files.can_quarantine file)) [
    | inl can ↦ rw can tt
    | inr cannot ↦ rw cannot tt
  ]

  abbrev pub IsNamed : Option String → Dict String → Type 0
  IsNamed own metadata = (n : String) × (lookup "name" metadata ≡ some n) × (own ≡ some n)

  is_name→eq : (own : Option String) (n : String) → is_name own n ≡ true → own ≡ some n
  is_name→eq none n h = absurd (ground arith)
  is_name→eq (some m) n h = ap (λ k. some k) (sym ((eq_iff n m).0 h))

  pub Ensures-checked_name :
      (data_file : String) (mname : Option String) (self : DiskFile)
      → Ensures
          (Same (λ x. (n : String) × (mname ≡ some n) × (self.name ≡ some n)) self)
          (checked_name o data_file mname self)
  Ensures-checked_name data_file none self =
      Ensures-quarantine (Same (λ x. (n : String) × (none ≡ some n) × (self.name ≡ some n)) self)
        data_file self
  Ensures-checked_name data_file (some n) self = elim (Bool-cases (is_name self.name n)) [
    | inl same ↦ rw same (refl, (n, refl, is_name→eq self.name n same))
    | inr other ↦ rw other tt
  ]

  -- It has not expired, where that counts.
  abbrev pub Lives : Dict String → Type 0
  Lives metadata =
      (text : String) (t : ℕ)
      → lookup "X-Delete-At" metadata ≡ some text
      → o.int text ≡ some t
      → o.open_expired ≡ false
      → ltb o.current_time t ≡ true

  pub Ensures-checked_delete_at :
      (data_file : String) (metadata : Dict String) (given : Option String) (self : DiskFile)
      → lookup "X-Delete-At" metadata ≡ given
      → Ensures
          (Same (λ x. Lives metadata) self)
          (checked_delete_at o data_file metadata given self)
  Ensures-checked_delete_at data_file metadata none self e =
      (refl, λ text t h. absurd (ground arith))
  Ensures-checked_delete_at data_file metadata (some text) self e =
      elim (Option-cases (o.int text)) [
        | inl bad ↦ rw bad (Ensures-quarantine (Same (λ x. Lives metadata) self) data_file self)
        | inr (t, is) ↦ elim (Bool-cases (leb t o.current_time && not o.open_expired)) [
          | inl expired ↦ rw (is, expired) tt
          | inr alive ↦
              rw (is, alive)
                (
                  refl,
                  λ text' t' h h' shut.
                      let same_text = some_injective (sym e ∙ h) in
                      let same_time = some_injective (sym is ∙ ap o.int same_text ∙ h') in
                      ground arith,
                )
        ]
      ]

  abbrev pub IsSized : String → Dict String → ℕ → Type 0
  IsSized data_file metadata n =
      (text : String) × (lookup "Content-Length" metadata ≡ some text)
      × (o.int text ≡ some n)
      × (o.files.size data_file ≡ some n)

  pub Ensures-checked_size :
      (data_file : String) (metadata : Dict String) (given : Option String) (self : DiskFile)
      → lookup "Content-Length" metadata ≡ given
      → Ensures (Same (IsSized data_file metadata) self) (checked_size o data_file given self)
  Ensures-checked_size data_file metadata none self e =
      Ensures-quarantine (Same (IsSized data_file metadata) self) data_file self
  Ensures-checked_size data_file metadata (some text) self e =
      let gone = Ensures-quarantine (Same (IsSized data_file metadata) self) data_file self in
      elim (Option-cases (o.int text)) [
        | inl bad ↦ rw bad gone
        | inr (n, is) ↦ elim (Option-cases (o.files.size data_file)) [
          | inl unknown ↦ rw (is, unknown) gone
          | inr (m, has) ↦ elim (Bool-cases (m == n)) [
            | inl same ↦
                let equal : m ≡ n = ground arith in
                rw (is, has, same) (refl, (text, e, is ∙ ap (λ k. some k) (sym equal), has))
            | inr other ↦ rw (is, has, other) gone
          ]
        ]
      ]

  -- The object that has been read passes its checks.
  pub record Passed (data_file : String) (metadata : Dict String) (self s : DiskFile) : Type 0 where
    pub size : ℕ
    pub measured : s ≡ with_length size self
    pub is_named : (n : String) × (lookup "name" metadata ≡ some n) × (self.name ≡ some n)
    pub lives : Lives metadata
    pub sized : IsSized data_file metadata size

  pub Ensures-verify_data_file :
      (data_file : String) (metadata : Dict String) (self : DiskFile)
      → Ensures
          (λ x s. Passed data_file metadata self s)
          (verify_data_file o data_file metadata self)
  unfolding verify_data_file verify_name verify_delete_at verify_size
  Ensures-verify_data_file data_file metadata self =
      Ensures-continue-Same
        (λ x. (n : String) × (lookup "name" metadata ≡ some n) × (self.name ≡ some n))
        (λ x s. Passed data_file metadata self s) _ self _
        (Ensures-checked_name data_file (lookup "name" metadata) self)
        (λ x is_named.
          Ensures-continue-Same (λ x. Lives metadata) (λ x s. Passed data_file metadata self s) _
            self _
            (Ensures-checked_delete_at data_file metadata (lookup "X-Delete-At" metadata) self refl)
            (λ x lives.
              Ensures-continue-Same (IsSized data_file metadata)
                (λ x s. Passed data_file metadata self s) _ self _
                (Ensures-checked_size data_file metadata (lookup "Content-Length" metadata) self
                  refl)
                (λ size sized. record {
                  size = size;
                  measured = refl;
                  is_named = is_named;
                  lives = lives;
                  sized = sized;
                })))
