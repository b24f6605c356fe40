-- ===== src/Tests/Server.antt =====
-- Witnesses for the object server: the expirer deletes an object whose time of deletion it names.
use swiftacular.Base.{ℕ, ◌≡◌, refl, true, Option, some, List, [], ◌∷◌, String, lookup}
use swiftacular.Server.{
  Effect, Response, Request, Read, Original, Status, go, found, original, delete_at, delete,
  unschedule, tombstone, update_container, checked, carried_out,
}
use swiftacular.Server.Deletes.{Deletes, condition_holds, delete-Deletes}
use swiftacular.Tests.Instance.{parse_size, size}

abbrev parse : String → Option ℕ
parse text = parse_size (size text)

-- At time 7, of an object of time 4 that is to be deleted at time 5.
abbrev expiry : Request
expiry = record { timestamp = 7; if_delete_at = some "xxxxxx"; has_device = true; has_space = true }

abbrev due : Read
due = found (("X-Delete-At", "xxxxxx") ∷ ("Content-Type", "text/plain") ∷ []) 4

abbrev known : Original
known = record {
  timestamp = 4;
  metadata = ("X-Delete-At", "xxxxxx") ∷ ("Content-Type", "text/plain") ∷ [];
  status = Status.no_content;
}

due-known : original 7 due ≡ go known
unfolding original
due-known = refl

due_at : delete_at parse (lookup "X-Delete-At" known.metadata) ≡ go 5
unfolding delete_at lookup
due_at = refl

delete-Deletes_example :
    (effects : List Effect) × (response : Response) × (delete parse expiry due
      ≡ go (effects, response))
    × Deletes parse expiry known 5
        (condition_holds parse expiry known 5 (some "xxxxxx"))
        effects
        response
delete-Deletes_example = delete-Deletes parse expiry due known 5 refl due-known due_at

-- The queue first, then the tombstone, then the container.
deleted_in_order :
    delete parse expiry due
    ≡ go (
      unschedule 5 ∷ tombstone 7 ∷ update_container 7 ∷ [],
      record {
        status = Status.no_content;
        backend_timestamp = some 7;
        content_type = some "text/plain";
      },
    )
unfolding delete original delete_at lookup checked carried_out
deleted_in_order = refl
