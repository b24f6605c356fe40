-- ===== src/Server/Put/Steps.antt =====
-- What is among the steps of a PUT that is stored.
use mathlib.Core.List.{append-nil, append_assoc}
use swiftacular.Base.{
  ℕ, ◌≡◌, refl, inl, inr, Bool, false, ◌&&◌, List, [], ◌∷◌, ◌++◌, map, String, if◌then◌else◌,
  Bool-cases, Dict, lookup,
}
use swiftacular.Server.{Effect, conditional_delete_at_update}
use swiftacular.Server.Handler.{
  Step, queue, commit, put, update_container, close_writer, gathered, queue_of, commit_of,
}
use swiftacular.Server.Body.{Bytes, Uploads}
use swiftacular.Server.Put.{Putting, Before, is_set, commit_steps}
use swiftacular.Server.Post.Stored.{gathered-append, gathered-queue}
use swiftacular.Server.Put.Runs.{is_sized, is_matching, stored_metadata}

module _ (uploads : Uploads) (room : (step : Step) → uploads.refuses step ≡ false)
    (request : Putting) (before : Before) (pieces : List Bytes) (ctype : String)
    (orig_delete_at new_delete_at : ℕ) where
  abbrev pub stored : Dict String
  stored = stored_metadata uploads room request before pieces ctype orig_delete_at new_delete_at

  -- The size and the ETag are as announced, where they are.
  abbrev pub is_valid : Bool
  is_valid =
      is_sized uploads room request before pieces ctype orig_delete_at new_delete_at
      && is_matching uploads room request before pieces ctype orig_delete_at new_delete_at

  -- The steps of a PUT that is stored.
  abbrev pub all_steps : List Step → Dict String → List Step
  all_steps written told =
      ((written ++ put stored ∷ (commit_steps uploads request ++ [])) ++ close_writer ∷ [])
      ++ ((map queue (conditional_delete_at_update orig_delete_at new_delete_at)
            ++ update_container told ∷ [])
          ++ [])

  gathered-commit_steps {ℓ} :
      {A : Type ℓ} (f : Step → List A)
      → f (commit request.timestamp) ≡ []
      → gathered f (commit_steps uploads request) ≡ []
  gathered-commit_steps f h =
      elim (Bool-cases (is_set uploads (lookup "X-Backend-No-Commit" request.headers))) [
        | inl kept ↦ rw kept refl
        | inr committed ↦ rw (committed, h) refl
      ]

  gathered-queue_none {ℓ} :
      {A : Type ℓ} (f : Step → List A) (effects : List Effect)
      → ((e : Effect) → f (queue e) ≡ [])
      → gathered f (map queue effects) ≡ []
  gathered-queue_none f [] h = refl
  gathered-queue_none f (e ∷ effects) h = rw (h e, gathered-queue_none f effects h) refl

  pub gathered-all_steps {ℓ} :
      {A : Type ℓ} (f : Step → List A) (written : List Step) (told : Dict String)
      → f (commit request.timestamp) ≡ []
      → ((e : Effect) → f (queue e) ≡ [])
      → gathered f (all_steps written told)
        ≡ gathered f written ++ (f (put stored) ++ (f close_writer ++ f (update_container told)))
  gathered-all_steps f written told hc hq =
      simp
        (
          gathered-append f,
          gathered-commit_steps f hc,
          gathered-queue_none f (conditional_delete_at_update orig_delete_at new_delete_at) hq,
          append-nil,
          append_assoc,
        )
        refl

  pub gathered-all_commits :
      (written : List Step) (told : Dict String)
      → gathered commit_of written ≡ []
      → gathered commit_of (all_steps written told) ≡ (
          if is_set uploads (lookup "X-Backend-No-Commit" request.headers)
          then []
          else request.timestamp ∷ [])
  gathered-all_commits written told h =
      elim (Bool-cases (is_set uploads (lookup "X-Backend-No-Commit" request.headers))) [
        | inl kept ↦
            simp
              (
                gathered-append commit_of,
                gathered-queue_none commit_of
                    (conditional_delete_at_update orig_delete_at new_delete_at) (λ e. refl),
                h,
                kept,
              )
              refl
        | inr committed ↦
            simp
              (
                gathered-append commit_of,
                gathered-queue_none commit_of
                    (conditional_delete_at_update orig_delete_at new_delete_at) (λ e. refl),
                h,
                committed,
              )
              refl
      ]

  pub gathered-all_queues :
      (written : List Step) (told : Dict String)
      → gathered queue_of written ≡ []
      → gathered queue_of (all_steps written told)
        ≡ conditional_delete_at_update orig_delete_at new_delete_at
  gathered-all_queues written told h =
      let effects = conditional_delete_at_update orig_delete_at new_delete_at in
      let (queues, writes, tells) = gathered-queue effects in
      simp (gathered-append queue_of, gathered-commit_steps queue_of refl, queues, append-nil, h)
        refl
