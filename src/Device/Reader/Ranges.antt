-- ===== src/Device/Reader/Ranges.antt =====
-- The chunks of a reader, put together, are the range that was asked for.
use mathlib.Core.List.{append-nil}
use swiftacular.Base.{
  ℕ, zero, suc, ◌+◌, ◌-◌, ◌≤◌, ◌<◌, ◌≡◌, refl, ap, sym, ◌∙◌, true, false, not, Option, none, some,
  List, [], ◌∷◌, ◌++◌, Result, ok, arith, ◌==◌, Bool-cases, inl, inr, length, take, drop, flatten,
  drop-drop, take-split, take-append-drop, take-long, length-take, length-drop, eq_nil_of_length,
}
use swiftacular.Engine.{Object, Bytes, State, active, old, is_in}
use swiftacular.Engine
use swiftacular.Device.Reader.{read, iterate, size_of_read, in_range, take_chunk}

-- `xs[:limit]`
abbrev pub cut : Option ℕ → Bytes → Bytes
cut none xs = xs
cut (some k) xs = take k xs

abbrev left : ℕ → Option ℕ → Option ℕ
left offset none = none
left offset (some stop) = some (stop - offset)

-- `body[start:stop]`
abbrev pub range : Bytes → ℕ → Option ℕ → Bytes
range body start stop = cut (left start stop) (drop start body)

AtMost : ℕ → Option ℕ → Type 0
AtMost n none = Unit
AtMost n (some k) = n ≤ k

abbrev minus : Option ℕ → ℕ → Option ℕ
minus none n = none
minus (some k) n = some (k - n)

cut_short :
    (n : ℕ) (limit : Option ℕ) (xs : Bytes)
    → AtMost n limit
    → (length (take n xs) == n) ≡ false
    → take n xs ≡ cut limit xs
unfolding AtMost
cut_short n none xs h e = take-long xs n (ground (arith, length-take n xs))
cut_short n (some k) xs h e =
    let le : length xs ≤ n = ground (arith, length-take n xs) in
    take-long xs n le ∙ sym (take-long xs k (omega arith))

cut_full :
    (n : ℕ) (limit : Option ℕ) (xs : Bytes)
    → AtMost n limit
    → cut limit xs ≡ take n xs ++ cut (minus limit n) (drop n xs)
unfolding AtMost
cut_full n none xs h = sym (take-append-drop n xs)
cut_full n (some k) xs h = take-split n (k - n) k xs (omega arith)

take_last :
    (chunk : Bytes) (next : Bytes → Option (List Bytes × Result (Unit {0})))
    → (chunks : List Bytes) × (take_chunk (ok (chunk, true)) next ≡ some (chunks, ok tt))
      × (flatten chunks ≡ chunk)
take_last [] next = ([], refl, refl)
take_last (x ∷ xs) next = ((x ∷ xs) ∷ [], refl, append-nil (x ∷ xs))

take_more :
    (chunk : Bytes) (chunks : List Bytes) (next : Bytes → Option (List Bytes × Result (Unit {0})))
    → 0 < length chunk
    → next chunk ≡ some (chunks, ok tt)
    → take_chunk (ok (chunk, false)) next ≡ some (chunk ∷ chunks, ok tt)
take_more [] chunks next h e = absurd (omega arith)
take_more (x ∷ xs) chunks next h e = rw e

module _ (obj : Object) (chunk_size : ℕ) (held : is_in obj.state (active ∷ old ∷ []) ≡ true)
    (positive : 0 < chunk_size) where
  read_lem :
      (offset : ℕ) (stop : Option ℕ)
      → let n = size_of_read chunk_size offset stop in
        let chunk = take n (drop offset obj.written) in
        read obj chunk_size offset stop ≡ ok (chunk, not (length chunk == n))
  unfolding read Engine.read
  read_lem offset stop = rw held

  size-AtMost :
      (offset : ℕ) (stop : Option ℕ)
      → in_range offset stop ≡ true
      → AtMost (size_of_read chunk_size offset stop) (left offset stop)
        × (0 < size_of_read chunk_size offset stop)
  unfolding AtMost
  size-AtMost offset none h = (tt, positive)
  size-AtMost offset (some zero) h = absurd (ground arith)
  size-AtMost offset (some (suc e)) h = (omega arith, ground arith)

  past_end :
      (offset : ℕ) (stop : Option ℕ)
      → in_range offset stop ≡ false
      → range obj.written offset stop ≡ []
  past_end offset none h = absurd (ground arith)
  past_end offset (some e) h =
      eq_nil_of_length _ (omega (arith, length-take (e - offset) (drop offset obj.written), out))
    where
      out : e ≤ offset
      out = ground arith

  range_step :
      (offset n k : ℕ) (stop : Option ℕ)
      → k ≡ n
      → range obj.written (offset + k) stop
        ≡ cut (minus (left offset stop) n) (drop n (drop offset obj.written))
  range_step offset n k none e = drop-drop offset n (offset + k) obj.written (omega arith)
  range_step offset n k (some stop) e =
      let d = drop-drop offset n (offset + k) obj.written (omega arith) in
      let l : stop - (offset + k) ≡ stop - offset - n = omega arith in rw (d, l)

  abbrev pub Streams : ℕ → ℕ → Option ℕ → Type 0
  Streams fuel offset stop =
      (chunks : List Bytes) × (iterate fuel obj chunk_size offset stop ≡ some (chunks, ok tt))
      × (flatten chunks ≡ range obj.written offset stop)

  stream_chunk :
      (fuel offset : ℕ) (stop : Option ℕ) (n : ℕ) (chunk : Bytes)
      → in_range offset stop ≡ true
      → n ≡ size_of_read chunk_size offset stop
      → chunk ≡ take n (drop offset obj.written)
      → AtMost n (left offset stop)
      → 0 < n
      → ((length chunk == n) ≡ true → 0 < length chunk → Streams fuel (offset + length chunk) stop)
      → Streams (suc fuel) offset stop
  unfolding iterate
  stream_chunk fuel offset stop n chunk inside en ec fits pos next =
      let xs = drop offset obj.written in
      let r : read obj chunk_size offset stop ≡ ok (chunk, not (length chunk == n)) =
        rw (ec, en) (read_lem offset stop) in
      elim (Bool-cases (length chunk == n)) [
        | inr short ↦
            let whole = ec ∙ cut_short n (left offset stop) xs fits (rw ec at short) in
            let (chunks, e, p) =
              take_last chunk (λ c. iterate fuel obj chunk_size (offset + length c) stop) in
            (chunks, rw (inside, r, short) e, p ∙ whole)
        | inl full ↦
            let (chunks, e, p) = next full (ground arith) in
            (
              chunk ∷ chunks,
              rw (inside, r, full)
                  (take_more chunk chunks
                    (λ c. iterate fuel obj chunk_size (offset + length c) stop) (ground arith) e),
              ap (λ rest. chunk ++ rest)
                    (p ∙ range_step offset n (length chunk) stop (ground arith))
                  ∙ ap (λ c. c ++ cut (minus (left offset stop) n) (drop n xs)) ec
                  ∙ sym (cut_full n (left offset stop) xs fits),
            )
      ]

  -- Read from any offset up to any stop, with a round left for each byte that is left.
  pub stream :
      (fuel offset : ℕ) (stop : Option ℕ)
      → length obj.written - offset < fuel
      → Streams fuel offset stop
  stream zero offset stop h = absurd (omega arith)
  stream (suc fuel) offset stop h = elim (Bool-cases (in_range offset stop)) [
    | inr outside ↦ ([], unfold iterate in rw outside, sym (past_end offset stop outside))
    | inl inside ↦
        let n = size_of_read chunk_size offset stop in
        let chunk = take n (drop offset obj.written) in
        let (fits, pos) = size-AtMost offset stop inside in
        stream_chunk fuel offset stop n chunk inside refl refl fits pos (λ full some_bytes.
          stream fuel (offset + length chunk) stop (
            omega (
              arith,
              length-take n (drop offset obj.written),
              length-drop offset obj.written,
              some_bytes,
            )))
  ]
