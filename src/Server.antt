-- ===== src/Server.antt =====
-- swift_patches/obj/bs_server.py: the DELETE of an object. A request runs to a response, and what it
-- does on the way is a list of effects. A `Timestamp` is its place in the order of timestamps, and 0
-- is `Timestamp(0)`, which counts as false.
pub mod Deletes
pub mod Handler
pub mod Updates
pub mod Overrides
pub mod Rules
pub mod Reads
pub mod Body
pub mod Put
pub mod Content
pub mod Post
use swiftacular.Base.{
  ℕ, max, Bool, true, false, not, ◌&&◌, Option, none, some, List, [], ◌∷◌, ◌++◌, String, str_eq,
  Error, value_error, ltb, leb, ◌==◌, if◌then◌else◌, or_else, Dict, lookup,
}

pub data Status : Type 0 where
  no_content not_found conflict bad_request precondition_failed insufficient_storage : Status
  accepted created forbidden unprocessable server_error method_not_allowed : Status
  request_timeout client_disconnect : Status

-- The status, `X-Backend-Timestamp` and `X-Backend-Content-Type`.
pub record Response : Type 0 where
  pub status : Status
  pub backend_timestamp : Option ℕ
  pub content_type : Option String

abbrev pub plain : Status → Response
plain status = record { status = status; backend_timestamp = none; content_type = none }

-- A handler goes on, returns a response early, or raises.
pub data Flow {ℓ} (A : Type ℓ) : Type ℓ where
  go : A → Flow A
  stop : Response → Flow A
  fail : Error → Flow A

infixl 5 ◌>>=◌
abbrev pub ◌>>=◌ {κ ℓ} : {A : Type κ} {B : Type ℓ} → Flow A → (A → Flow B) → Flow B
go x >>= k = k x
stop r >>= k = stop r
fail e >>= k = fail e

-- How `disk_file.read_metadata` ends.
pub data Read : Type 0 where
  found : Dict String → ℕ → Read
  expired : Dict String → ℕ → Read
  deleted : ℕ → Read
  not_exist quarantined xattr_not_supported : Read

-- What the handler knows of the object: its time, its metadata and the status if nothing intervenes.
pub record Original : Type 0 where
  pub timestamp : ℕ
  pub metadata : Dict String
  pub status : Status

-- The updates of the expirer's queue and of the container, and the tombstone, in order.
pub data Effect : Type 0 where
  schedule unschedule : ℕ → Effect
  tombstone : ℕ → Effect
  update_container : ℕ → Effect

-- `request.headers['x-if-delete-at']`, whether the device is there, and whether it has space.
pub record Request : Type 0 where
  pub timestamp : ℕ
  pub if_delete_at : Option String
  pub has_device : Bool
  pub has_space : Bool

unfoldable pub original : ℕ → Read → Flow Original
original req_timestamp xattr_not_supported = stop (plain Status.insufficient_storage)
original req_timestamp (expired metadata t) =
    go (record { timestamp = t; metadata = metadata; status = Status.not_found })
original req_timestamp (deleted t) =
    go (record { timestamp = t; metadata = []; status = Status.not_found })
original req_timestamp not_exist =
    go (record { timestamp = 0; metadata = []; status = Status.not_found })
original req_timestamp quarantined =
    go (record { timestamp = 0; metadata = []; status = Status.not_found })
original req_timestamp (found metadata t) = go (record {
  timestamp = t;
  metadata = metadata;
  status = if ltb t req_timestamp then Status.no_content else Status.conflict;
})

-- `_conditional_delete_at_update`
unfoldable pub conditional_delete_at_update : ℕ → ℕ → List Effect
conditional_delete_at_update orig_delete_at new_delete_at =
    (if new_delete_at == 0 then [] else Effect.schedule new_delete_at ∷ [])
    ++ (if not (orig_delete_at == 0) && not (orig_delete_at == new_delete_at)
        then Effect.unschedule orig_delete_at ∷ []
        else [])

-- `Timestamp(text)` is given; `none` is a ValueError.
module _ (parse : String → Option ℕ) where
  abbrev pub parsed : Option ℕ → Flow ℕ
  parsed none = fail value_error
  parsed (some t) = go t

  -- `Timestamp(orig_metadata.get('X-Delete-At') or 0)`
  unfoldable pub delete_at : Option String → Flow ℕ
  delete_at none = go 0
  delete_at (some text) = if str_eq text "" then go 0 else parsed (parse text)

  -- The checks of `x-if-delete-at`, and the status that they leave.
  unfoldable pub checked_if : ℕ → Original → ℕ → Option ℕ → Flow Status
  checked_if req_timestamp orig orig_delete_at none = stop (plain Status.bad_request)
  checked_if req_timestamp orig orig_delete_at (some req_if_delete_at) =
      if orig.timestamp == 0
      then stop (plain Status.not_found)
      else if leb req_timestamp orig.timestamp
      then stop (plain Status.conflict)
      else if orig_delete_at == req_if_delete_at
      then go Status.no_content
      else stop (plain Status.precondition_failed)

  unfoldable pub checked : ℕ → Original → ℕ → Option String → Flow Status
  unfolding checked_if
  checked req_timestamp orig orig_delete_at none = go orig.status
  checked req_timestamp orig orig_delete_at (some text) =
      checked_if req_timestamp orig orig_delete_at (parse text)

  abbrev response_of : Request → Original → Status → Response
  response_of request orig status = record {
    status = status;
    backend_timestamp = some (max orig.timestamp request.timestamp);
    content_type = some (or_else "" (lookup "Content-Type" orig.metadata));
  }

  -- What is done once the checks pass, and the response.
  unfoldable pub carried_out : Request → Original → ℕ → Status → List Effect × Response
  unfolding conditional_delete_at_update
  carried_out request orig orig_delete_at status =
      let updates = conditional_delete_at_update orig_delete_at 0 in
      if ltb orig.timestamp request.timestamp
      then (if request.has_space
          then (
            updates
                ++ Effect.tombstone request.timestamp
                  ∷ Effect.update_container request.timestamp
                  ∷ [],
            response_of request orig status,
          )
          else (updates, plain Status.insufficient_storage))
      else (updates, response_of request orig status)

  abbrev pub handled : Flow (List Effect × Response) → Flow (List Effect × Response)
  handled (go x) = go x
  handled (stop r) = go ([], r)
  handled (fail e) = fail e

  unfoldable pub delete : Request → Read → Flow (List Effect × Response)
  unfolding original delete_at checked carried_out lookup
  delete request read = handled (
      if request.has_device
      then (do
        orig ← original request.timestamp read
        orig_delete_at ← delete_at (lookup "X-Delete-At" orig.metadata)
        status ← checked request.timestamp orig orig_delete_at request.if_delete_at
        go (carried_out request orig orig_delete_at status))
      else stop (plain Status.insufficient_storage))
