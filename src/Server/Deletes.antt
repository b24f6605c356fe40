-- ===== src/Server/Deletes.antt =====
-- When a DELETE writes a tombstone, tells the container and clears the expirer's queue.
use swiftacular.Base.{
  ℕ, ◌≡◌, refl, sym, subst, ◌∙◌, Bool, true, false, not, ◌&&◌, Option, none, some, List, [], ◌∷◌,
  String, arith, ltb, leb, ◌==◌, if◌then◌else◌, Bool-cases, inl, inr, lookup,
}
use swiftacular.Server.{
  Status, Response, plain, Flow, go, ◌>>=◌, Read, found, expired, deleted, not_exist, quarantined,
  xattr_not_supported, Original, Effect, schedule, unschedule, tombstone, update_container, Request,
  original, delete_at, checked_if, checked, carried_out, handled, delete,
  conditional_delete_at_update,
}

-- The times of the tombstones among the effects, of the container updates, and the queue entries that
-- are cleared.
abbrev pub tombstones : List Effect → List ℕ
tombstones [] = []
tombstones (tombstone t ∷ effects) = t ∷ tombstones effects
tombstones (schedule t ∷ effects) = tombstones effects
tombstones (unschedule t ∷ effects) = tombstones effects
tombstones (update_container t ∷ effects) = tombstones effects

abbrev pub updates : List Effect → List ℕ
updates [] = []
updates (tombstone t ∷ effects) = updates effects
updates (schedule t ∷ effects) = updates effects
updates (unschedule t ∷ effects) = updates effects
updates (update_container t ∷ effects) = t ∷ updates effects

abbrev pub unscheduled : List Effect → List ℕ
unscheduled [] = []
unscheduled (tombstone t ∷ effects) = unscheduled effects
unscheduled (schedule t ∷ effects) = unscheduled effects
unscheduled (unschedule t ∷ effects) = t ∷ unscheduled effects
unscheduled (update_container t ∷ effects) = unscheduled effects

module _ (parse : String → Option ℕ) where
  abbrev pub names_it : ℕ → Option ℕ → Bool
  names_it orig_delete_at none = false
  names_it orig_delete_at (some t) = orig_delete_at == t

  -- Whether the condition of the request holds: none is given, or there is an older object whose
  -- time of deletion is the one that is given.
  abbrev pub condition_holds : Request → Original → ℕ → Option String → Bool
  condition_holds request orig orig_delete_at none = true
  condition_holds request orig orig_delete_at (some text) =
      not (orig.timestamp == 0)
      && ltb orig.timestamp request.timestamp
      && names_it orig_delete_at (parse text)

  abbrev pub when : Bool → ℕ → List ℕ
  when test t = if test then t ∷ [] else []

  -- What a DELETE does where `condition` says whether its condition holds.
  pub record Deletes (request : Request) (orig : Original) (orig_delete_at : ℕ) (condition : Bool)
      (effects : List Effect) (response : Response) : Type 0 where
    pub dead :
        tombstones effects
        ≡ when
            (condition && ltb orig.timestamp request.timestamp && request.has_space)
            request.timestamp
    pub told : updates effects ≡ tombstones effects
    pub cleared : unscheduled effects ≡ when (condition && not (orig_delete_at == 0)) orig_delete_at
    -- success is not claimed for an object that was not deleted
    pub honest : response.status ≡ Status.no_content → tombstones effects ≡ request.timestamp ∷ []

  -- A status that claims success only over an older object.
  abbrev IsFair : Request → Original → Status → Type 0
  IsFair request orig status =
      status ≡ Status.no_content → ltb orig.timestamp request.timestamp ≡ true

  Deletes-carried_out :
      (request : Request) (orig : Original) (orig_delete_at : ℕ) (status : Status)
      → IsFair request orig status
      → Deletes request orig orig_delete_at true
          (carried_out parse request orig orig_delete_at status).0
          (carried_out parse request orig orig_delete_at status).1
  unfolding carried_out conditional_delete_at_update
  Deletes-carried_out request orig orig_delete_at status fair = record {
    dead = ground arith;
    told = ground arith;
    cleared = ground arith;
    honest = λ e. elim (Bool-cases (ltb orig.timestamp request.timestamp)) [
      | inl older ↦ ground arith
      | inr newer ↦ absurd (ground (arith, fair (rw newer at e)))
    ];
  }

  -- What a DELETE does that its condition stops.
  Deletes-stopped :
      (request : Request) (orig : Original) (orig_delete_at : ℕ) (status : Status)
      → (status ≡ Status.no_content → ⊥)
      → Deletes request orig orig_delete_at false [] (plain status)
  Deletes-stopped request orig orig_delete_at status h = record {
    dead = refl;
    told = refl;
    cleared = refl;
    honest = λ e. absurd (h e);
  }

  abbrev Outcome : Request → Original → ℕ → Bool → Flow (List Effect × Response) → Type 0
  Outcome request orig orig_delete_at condition out =
      (effects : List Effect) × (response : Response) × (out ≡ go (effects, response))
      × Deletes request orig orig_delete_at condition effects response

  abbrev from_status : Request → Original → ℕ → Flow Status → Flow (List Effect × Response)
  from_status request orig orig_delete_at status =
      handled parse (status >>= λ s. go (carried_out parse request orig orig_delete_at s))

  stopped :
      (request : Request) (orig : Original) (orig_delete_at : ℕ) (condition : Bool)
      (status : Status)
      → condition ≡ false
      → (status ≡ Status.no_content → ⊥)
      → Outcome request orig orig_delete_at condition (go ([], plain status))
  stopped request orig orig_delete_at condition status e h = (
    [],
    plain status,
    refl,
    subst (λ c. Deletes request orig orig_delete_at c [] (plain status)) (sym e)
        (Deletes-stopped request orig orig_delete_at status h),
  )

  passed :
      (request : Request) (orig : Original) (orig_delete_at : ℕ) (condition : Bool)
      (status : Status)
      → condition ≡ true
      → IsFair request orig status
      → Outcome request orig orig_delete_at condition
          (go (carried_out parse request orig orig_delete_at status))
  passed request orig orig_delete_at condition status e fair =
      let (effects, response) = carried_out parse request orig orig_delete_at status in
      (
        effects,
        response,
        refl,
        subst (λ c. Deletes request orig orig_delete_at c effects response) (sym e)
            (Deletes-carried_out request orig orig_delete_at status fair),
      )

  Outcome-checked_if :
      (request : Request) (orig : Original) (orig_delete_at : ℕ) (given : Option ℕ)
      (condition : Bool)
      → condition ≡ (
          not (orig.timestamp == 0)
          && ltb orig.timestamp request.timestamp
          && names_it orig_delete_at given)
      → Outcome request orig orig_delete_at condition (
          from_status request orig orig_delete_at
            (checked_if parse request.timestamp orig orig_delete_at given))
  unfolding checked_if
  Outcome-checked_if request orig orig_delete_at none condition e =
      stopped request orig orig_delete_at condition Status.bad_request (ground arith)
        (λ h. absurd (ground arith))
  Outcome-checked_if request orig orig_delete_at (some t) condition e =
      elim (Bool-cases (orig.timestamp == 0)) [
        | inl nothing ↦ rw nothing (
            stopped request orig orig_delete_at condition Status.not_found (ground arith)
              (λ h. absurd (ground arith)))
        | inr there ↦ elim (Bool-cases (leb request.timestamp orig.timestamp)) [
          | inl newer ↦
              rw (there, newer)
                (stopped request orig orig_delete_at condition Status.conflict (ground arith)
                  (λ h. absurd (ground arith)))
          | inr older ↦ elim (Bool-cases (orig_delete_at == t)) [
            | inl same ↦
                rw (there, older, same)
                  (passed request orig orig_delete_at condition Status.no_content (ground arith)
                    (λ h. ground arith))
            | inr other ↦
                rw (there, older, other)
                  (stopped request orig orig_delete_at condition Status.precondition_failed
                    (ground arith) (λ h. absurd (ground arith)))
          ]
        ]
      ]

  -- A read claims success only for an object that is older than the request.
  original-IsFair :
      (request : Request) (read : Read) (orig : Original)
      → original request.timestamp read ≡ go orig
      → IsFair request orig orig.status
  unfolding original
  original-IsFair request xattr_not_supported orig e h = absurd (ground arith)
  original-IsFair request (expired metadata t) orig e h = absurd (ground arith)
  original-IsFair request (deleted t) orig e h = absurd (ground arith)
  original-IsFair request not_exist orig e h = absurd (ground arith)
  original-IsFair request quarantined orig e h = absurd (ground arith)
  original-IsFair request (found metadata t) orig e h = ground arith

  Outcome-checked :
      (request : Request) (orig : Original) (orig_delete_at : ℕ) (given : Option String)
      → IsFair request orig orig.status
      → Outcome request orig orig_delete_at (condition_holds request orig orig_delete_at given) (
          from_status request orig orig_delete_at
            (checked parse request.timestamp orig orig_delete_at given))
  unfolding checked
  Outcome-checked request orig orig_delete_at none fair =
      passed request orig orig_delete_at true orig.status refl fair
  Outcome-checked request orig orig_delete_at (some text) fair =
      Outcome-checked_if request orig orig_delete_at (parse text)
        (condition_holds request orig orig_delete_at (some text)) refl

  delete_run :
      (request : Request) (read : Read) (orig : Original) (orig_delete_at : ℕ)
      → request.has_device ≡ true
      → original request.timestamp read ≡ go orig
      → delete_at parse (lookup "X-Delete-At" orig.metadata) ≡ go orig_delete_at
      → delete parse request read
        ≡ from_status request orig orig_delete_at
            (checked parse request.timestamp orig orig_delete_at request.if_delete_at)
  unfolding delete carried_out
  delete_run request read orig orig_delete_at device is at = simp (device, is, at) refl

  -- A DELETE on a device that is there, where the object's metadata can be read and its time of
  -- deletion is a timestamp, returns; it writes a tombstone at the time of the request, and tells the
  -- container so, exactly if its condition holds, the object is older and there is space; it clears
  -- the queue's entry exactly if the condition holds and the object has a time of deletion; and it
  -- answers 204 only if it wrote the tombstone.
  pub delete-Deletes :
      (request : Request) (read : Read) (orig : Original) (orig_delete_at : ℕ)
      → request.has_device ≡ true
      → original request.timestamp read ≡ go orig
      → delete_at parse (lookup "X-Delete-At" orig.metadata) ≡ go orig_delete_at
      → (effects : List Effect) × (response : Response) × (delete parse request read
          ≡ go (effects, response))
        × Deletes request orig orig_delete_at
            (condition_holds request orig orig_delete_at request.if_delete_at)
            effects
            response
  delete-Deletes request read orig orig_delete_at device is at =
      let (effects, response, e, deletes) =
        Outcome-checked request orig orig_delete_at request.if_delete_at
          (original-IsFair request read orig is) in
      (effects, response, delete_run request read orig orig_delete_at device is at ∙ e, deletes)
