-- ===== src/Tests/Opening.antt =====
-- Witnesses for the loops of the Device: a metadata read that a POST interrupts, and an open that a
-- search and a put delay.
use swiftacular.Base.{
  ℕ, zero, suc, ◌≡◌, refl, true, false, Option, none, some, List, [], ◌∷◌, ◌++◌, Result, ok, arith,
}
use swiftacular.Engine.{Bytes}
use swiftacular.Metadata.{Entry}
use swiftacular.Device.Opening.{
  ReadTurn, read_loop, OpenTurn, Slot, empty, finding, resolved, open_loop,
}
use swiftacular.Device.Opening.Whole.{Whole, read_loop-Whole}
use swiftacular.Device.Opening.Current.{Answered, open_loop-Answered}

abbrev written : ℕ → Bytes
written zero = 1 ∷ 2 ∷ 3 ∷ []
written (suc n) = 7 ∷ 8 ∷ []

abbrev read_of : ℕ → Bytes → ReadTurn
read_of version header = record { header = header; version = version }

-- A POST comes in after the second chunk.
abbrev posted : List ReadTurn
posted = read_of 0 (written 0) ∷ read_of 1 (written 0) ∷ []

abbrev calm : List ReadTurn
calm =
    read_of 1 (written 1)
    ∷ read_of 1 (written 1)
    ∷ read_of 1 (written 1)
    ∷ read_of 1 (written 1)
    ∷ []

read_loop-Whole_example :
    (bytes_read : Bytes) × (read_loop 2 0 [] (posted ++ calm) ≡ some bytes_read)
    × Whole written 0 (posted ++ calm) bytes_read
read_loop-Whole_example =
    read_loop-Whole written 2 0 1 posted calm (omega arith)
      (λ e. refl, (λ e. refl, (λ e. refl, (λ e. refl, (λ e. refl, (λ e. refl, tt))))))
      (refl, (refl, (refl, (refl, tt)))) (omega arith)

read_posted : read_loop 2 0 [] (posted ++ calm) ≡ some (7 ∷ 8 ∷ [])
unfolding read_loop
read_posted = refl

abbrev no_headers : Entry
no_headers = record {
  data_section = [];
  meta_section = none;
  merged = [];
  meta_ts = none;
  data_ts = some 3;
  type_ts = 3;
}

abbrev open_of : Slot → Slot → OpenTurn
open_of slot slot_after = record {
  slot = slot;
  search = ok tt;
  missing = false;
  read = ok no_headers;
  slot_after = slot_after;
}

-- A search, and then an Object that a put replaces while it is read.
abbrev delayed : List OpenTurn
delayed =
    open_of empty finding ∷ open_of finding (resolved 4) ∷ open_of (resolved 4) (resolved 5) ∷ []

open_loop-Answered_example :
    (r : Result (ℕ × Option Entry)) × (open_loop true
        (delayed ++ open_of (resolved 5) (resolved 5) ∷ [])
      ≡ some r)
    × Answered (delayed ++ open_of (resolved 5) (resolved 5) ∷ []) r
open_loop-Answered_example =
    open_loop-Answered delayed (open_of (resolved 5) (resolved 5)) []
      (record { object = 5; before_read = refl; after_it = refl })
