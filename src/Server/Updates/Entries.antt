-- ===== src/Server/Updates/Entries.antt =====
-- The updates of the expirer's queue are all made, or go to the manager to be kept for later.
use swiftacular.Base.{◌≡◌, ◌≤◌, Option, none, some, List, [], ◌∷◌, ◌++◌, Result, ok, raise, length}
use swiftacular.Server.Updates.{Event, Update, Remote}
use swiftacular.Server.Updates.Kept.{IsTold}
use swiftacular.Server.Updates.Queue.{Job}

module _ (remote : Remote) where
  -- What the threads of some updates do together.
  abbrev pub IsMade : List Update → List Event → Type 0
  IsMade [] events = events ≡ []
  IsMade (u ∷ us) events =
      (mine : List Event) × (others : List Event) × (events ≡ mine ++ others)
      × IsTold remote u (ok mine)
      × IsMade us others

  -- The job that there may be has an update.
  abbrev IsFull : Result (Option Job) → Type 0
  IsFull (raise e) = Unit
  IsFull (ok none) = Unit
  IsFull (ok (some job)) = 1 ≤ length job.updates
