-- ===== src/Tests/Device.antt =====
-- Witnesses for the Device: two PUTs and a DELETE of one name, and its reads.
use swiftacular.Base.{
  ℕ, zero, suc, ◌≡◌, ◌≢◌, refl, ◌<◌, false, none, some, List, [], ◌∷◌, String, Result, ok, raise,
  changed_error, disk_file_deleted, arith, lookup, insert, flatten, take, eq_iff, All,
}
use swiftacular.Metadata.{Headers, Blob, x_timestamp}
use swiftacular.Metadata.Stamps.{untyped}
use swiftacular.Engine
use swiftacular.Device
use swiftacular.Metadata
use swiftacular.Engine.{Object, Bytes, absent, active}
use swiftacular.Device.{Device, open_object, write_metadata_of}
use swiftacular.Device.Readable.{IsSound, gone}
use swiftacular.Device.Races.{
  Write, put_of, delete_of, IsStampedWrite, perform, perform_all, perform_all-newest,
  perform_all-newest_wins, Outcome, newest, view, view_of_write,
}
use swiftacular.Device.Reader.Ranges.{Streams, stream}
use swiftacular.Device.Retry.{retry, retry-first, retry-gives_up, durations}
use swiftacular.Device.Writer.{Writer, writer, write_all, put}
use swiftacular.Device.Writer.Bodies.{Serves, put-stream}
use swiftacular.Device.Frame.{open_object-perform, view-write_metadata}
use swiftacular.Device.DiskFile.{diskfile, open_file, delete}
use swiftacular.Device.DiskFile.Opens.{Opens, open-IsReadable, open_file-delete}
use swiftacular.Tests.Instance.{swift, letters}
use swiftacular.Tests.Metadata.{fixed_stamp, fixed_type}

abbrev stamped_at : ℕ → Headers
stamped_at t = (x_timestamp, letters (suc t)) ∷ []

abbrev put_4 : Write
put_4 = put_of 1 (1 ∷ 2 ∷ []) 4 (stamped_at 4)

abbrev put_6 : Write
put_6 = put_of 2 (3 ∷ 4 ∷ 5 ∷ []) 6 (stamped_at 6)

abbrev delete_5 : Write
delete_5 = delete_of 3 5 (stamped_at 5)

put_4-IsStampedWrite : IsStampedWrite swift put_4
unfolding lookup
put_4-IsStampedWrite = record {
  time = 4;
  type_time = 0;
  dict = (refl, tt);
  stamped = refl;
  type_at = untyped refl refl;
}

put_6-IsStampedWrite : IsStampedWrite swift put_6
unfolding lookup
put_6-IsStampedWrite = record {
  time = 6;
  type_time = 0;
  dict = (refl, tt);
  stamped = refl;
  type_at = untyped refl refl;
}

delete_5-IsStampedWrite : IsStampedWrite swift delete_5
unfolding lookup
delete_5-IsStampedWrite = record {
  time = 5;
  type_time = 0;
  dict = (refl, tt);
  stamped = refl;
  type_at = untyped refl refl;
}

abbrev empty : Device
empty = []

empty-IsSound : IsSound swift empty "a/c/o"
unfolding open_object lookup
empty-IsSound = record { named = refl; readable = gone refl refl }

empty-lt : (t : ℕ) → (open_object empty "a/c/o").ts < suc t
unfolding open_object lookup
empty-lt t = omega arith

All-stamped : All (IsStampedWrite swift) (put_4 ∷ put_6 ∷ delete_5 ∷ [])
All-stamped = (put_4-IsStampedWrite, (put_6-IsStampedWrite, (delete_5-IsStampedWrite, tt)))

perform_all-newest_example :
    Outcome swift fixed_stamp fixed_type empty "a/c/o"
      (newest (view empty "a/c/o") (put_4 ∷ put_6 ∷ delete_5 ∷ []))
      (perform_all swift empty "a/c/o" (put_4 ∷ put_6 ∷ delete_5 ∷ []))
perform_all-newest_example =
    perform_all-newest swift fixed_stamp fixed_type empty "a/c/o" (put_4 ∷ put_6 ∷ delete_5 ∷ [])
      empty-IsSound All-stamped

perform_all-newest_wins_example :
    Outcome swift fixed_stamp fixed_type empty "a/c/o"
      (view_of_write put_6)
      (perform_all swift empty "a/c/o" (put_4 ∷ put_6 ∷ delete_5 ∷ []))
perform_all-newest_wins_example =
    perform_all-newest_wins swift fixed_stamp fixed_type empty "a/c/o" put_6 (put_4 ∷ [])
      (delete_5 ∷ []) empty-IsSound All-stamped (empty-lt 5) (omega arith) (omega arith)

abbrev chunks : List Bytes
chunks = (1 ∷ 2 ∷ []) ∷ (3 ∷ []) ∷ (4 ∷ 5 ∷ 6 ∷ []) ∷ []

put-stream_example :
    (w : Writer) × (write_all (writer "a/c/o" 9) chunks ≡ ok w)
    × (dev' : Device) × (put swift empty w (stamped_at 4) ≡ ok dev')
    × ((open_object dev' "a/c/o").deleted ≡ false)
    × Serves swift fixed_stamp fixed_type 4 (flatten chunks) dev' "a/c/o"
unfolding lookup
put-stream_example =
    put-stream swift fixed_stamp fixed_type empty "a/c/o" 9 4 4 0 chunks (stamped_at 4)
      empty-IsSound (empty-lt 3) (omega arith) (refl, tt) refl (untyped refl refl)

abbrev body : Object
body = record (absent "a/c/o") { state = active; written = flatten chunks }

stream_example : Streams body 4 refl (omega arith) 7 2 (some 5)
stream_example = stream body 4 refl (omega arith) 7 2 (some 5) (omega arith)

abbrev races_twice : ℕ → Result ℕ
races_twice zero = raise changed_error
races_twice (suc zero) = raise changed_error
races_twice (suc (suc n)) = ok n

raced : (i : ℕ) → i < 2 → races_twice i ≡ raise changed_error
raced zero h = refl
raced (suc zero) h = refl
raced (suc (suc i)) h = absurd (omega arith)

retry-first_example : retry races_twice ≡ (races_twice 2, take 2 durations)
retry-first_example = retry-first 2 races_twice (omega arith) raced (λ e. cc)

abbrev always_races : ℕ → Result ℕ
always_races i = raise changed_error

retry-gives_up_example : retry always_races ≡ (raise changed_error, durations)
retry-gives_up_example = retry-gives_up always_races (λ i h. refl)

open-IsReadable_example :
    Opens swift fixed_stamp fixed_type (record { object = absent "a/c/o"; metadata = none })
unfolding absent
open-IsReadable_example =
    open-IsReadable swift fixed_stamp fixed_type (absent "a/c/o") none (gone refl refl)

open_file-delete_example :
    (dev' : Device) × (delete swift empty (diskfile empty "a/c/o") 9 4 ≡ ok dev')
    × (open_file swift (diskfile dev' "a/c/o")
        ≡ raise (disk_file_deleted ((x_timestamp, letters 5) ∷ [])))
open_file-delete_example =
    open_file-delete swift fixed_stamp fixed_type empty "a/c/o" 9 4 empty-IsSound (empty-lt 3)

abbrev after_put : Device
after_put =
    (
      "a/c/o",
      record {
        name = "a/c/o";
        ts = 4;
        deleted = false;
        state = active;
        written = 1 ∷ 2 ∷ [];
        header = Blob.sections (some (stamped_at 4)) none;
      },
    )
    ∷ []

performed : perform swift empty "a/c/o" put_4 ≡ ok after_put
unfolding perform Engine.create Engine.write Device.put lookup Metadata.put Engine.write_metadata
    Engine.put insert
performed = refl

names_differ : ◌≢◌ {A = String} "a/c/o" "a/c/p"
names_differ = ground (arith, eq_iff "a/c/o" "a/c/p")

open_object-perform_example : open_object after_put "a/c/p" ≡ open_object empty "a/c/p"
open_object-perform_example =
    open_object-perform swift empty after_put "a/c/o" "a/c/p" put_4 performed names_differ

abbrev after_post : Device
after_post =
    (
      "a/c/o",
      record {
        name = "a/c/o";
        ts = 4;
        deleted = false;
        state = active;
        written = 1 ∷ 2 ∷ [];
        header = Blob.sections (some (stamped_at 4)) (some (stamped_at 7));
      },
    )
    ∷ []

post_written : write_metadata_of swift after_put "a/c/o" (stamped_at 7) ≡ ok after_post
unfolding write_metadata_of Engine.write_metadata lookup Metadata.post Metadata.get insert
post_written = refl

after_put_named : (open_object after_put "a/c/o").name ≡ "a/c/o"
unfolding open_object lookup
after_put_named = refl

view-write_metadata_example : view after_post "a/c/o" ≡ view after_put "a/c/o"
view-write_metadata_example =
    view-write_metadata swift after_put after_post "a/c/o" "a/c/o" (stamped_at 7) after_put_named
      post_written
