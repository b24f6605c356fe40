-- ===== src/Device/Reader.antt =====
-- `read` of device.py and bluestore/src/bluestore/reader.py: a body, or a range of one, a chunk at a
-- time.
pub mod Ranges
use swiftacular.Base.{
  ℕ, zero, suc, ◌+◌, ◌-◌, ◌≤◌, ◌<◌, ◌≡◌, ◌≢◌, refl, ap, min, Bool, true, false, not, Option, none,
  some, List, [], ◌∷◌, ◌++◌, Result, ok, raise, ◌>>=◌, ◌>>◌, arith, ltb, leb, ◌==◌, if◌then◌else◌,
  or_else, length, take, drop, is_nil, flatten, attribute_error,
}
use swiftacular.Engine.{Object, Bytes, State, active, old, require}
use swiftacular.Engine

-- `end - offset if end else float("inf")`, at most a chunk
abbrev pub size_of_read : ℕ → ℕ → Option ℕ → ℕ
size_of_read chunk_size offset none = chunk_size
size_of_read chunk_size offset (some zero) = chunk_size
size_of_read chunk_size offset (some (suc e)) = min (suc e - offset) chunk_size

-- `BluestoreDevice.read`: a chunk, and whether it is the last.
unfoldable pub read : Object → ℕ → ℕ → Option ℕ → Result (Bytes × Bool)
read obj chunk_size offset end =
    let size = size_of_read chunk_size offset end in
    do chunk ← Engine.read obj offset size; ok (chunk, not (length chunk == size))

-- `stop is None or offset < stop`
abbrev pub in_range : ℕ → Option ℕ → Bool
in_range offset none = true
in_range offset (some stop) = ltb offset stop

abbrev pub yield_chunk :
    Bytes → Option (List Bytes × Result (Unit {0})) → Option (List Bytes × Result (Unit {0}))
yield_chunk chunk none = none
yield_chunk chunk (some (chunks, r)) = some (chunk ∷ chunks, r)

-- What the rest of a round does with the chunk that was read, given the rounds after it.
abbrev pub take_chunk :
    Result (Bytes × Bool)
    → (Bytes → Option (List Bytes × Result (Unit {0})))
    → Option (List Bytes × Result (Unit {0}))
take_chunk (raise e) next = some ([], raise e)
take_chunk (ok (chunk, eof)) next =
    if is_nil chunk
    then some ([], ok tt)
    else yield_chunk chunk (if eof then some ([], ok tt) else next chunk)

-- The loop of `app_iter_range`: the chunks that are yielded, and how it ends. `none`: out of fuel.
unfoldable pub iterate : ℕ → Object → ℕ → ℕ → Option ℕ → Option (List Bytes × Result (Unit {0}))
unfolding read
iterate zero obj chunk_size offset stop = none
iterate (suc fuel) obj chunk_size offset stop =
    let next = λ (chunk : Bytes). iterate fuel obj chunk_size (offset + length chunk) stop in
    if in_range offset stop
    then take_chunk (read obj chunk_size offset stop) next
    else some ([], ok tt)

pub record Reader : Type 0 where
  pub object : Option Object
  pub auto_close : Bool

abbrev pub close : Reader → Reader
close r = record r { object = none }

-- Without an object the first read fails.
abbrev stream_of : ℕ → ℕ → ℕ → Option ℕ → Option Object → Option (List Bytes × Result (Unit {0}))
stream_of fuel chunk_size offset stop none =
    some ([], if in_range offset stop then raise attribute_error else ok tt)
stream_of fuel chunk_size offset stop (some obj) = iterate fuel obj chunk_size offset stop

-- The reader is closed behind a loop that ends by itself.
abbrev finish :
    Reader
    → Option (List Bytes × Result (Unit {0}))
    → Option ((List Bytes × Result (Unit {0})) × Reader)
finish r none = none
finish r (some (chunks, ok u)) = some ((chunks, ok u), if r.auto_close then close r else r)
finish r (some (chunks, raise e)) = some ((chunks, raise e), r)

unfoldable pub app_iter_range :
    ℕ → ℕ → Reader → Option ℕ → Option ℕ → Option ((List Bytes × Result (Unit {0})) × Reader)
unfolding iterate
app_iter_range fuel chunk_size r start stop =
    finish r (stream_of fuel chunk_size (or_else 0 start) stop r.object)

-- `multi` is Swift's `multi_range_iterator`: what it yields, given what each range yields.
unfoldable pub app_iter_ranges :
    (List (Option ℕ × Option ℕ)
      → (Option ℕ → Option ℕ → Option ((List Bytes × Result (Unit {0})) × Reader))
      → List Bytes × Result (Unit {0}))
    → ℕ
    → ℕ
    → Reader
    → List (Option ℕ × Option ℕ)
    → (List Bytes × Result (Unit {0})) × Reader
unfolding app_iter_range
app_iter_ranges multi fuel chunk_size r [] = (([] ∷ [], ok tt), r)
app_iter_ranges multi fuel chunk_size r (range ∷ ranges) =
    let r' = record r { auto_close = false } in
    (
      multi (range ∷ ranges) (app_iter_range fuel chunk_size r'),
      close (record r' { auto_close = true }),
    )
