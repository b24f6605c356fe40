-- ===== src/Device/Retry.antt =====
-- `retry` of device.py: a read that raced a put is tried again after each delay, and once more.
-- Delays are in tenths of a millisecond. An attempt is numbered by how many were made before it.
use swiftacular.Base.{
  ℕ, zero, suc, ◌+◌, ◌≤◌, ◌<◌, ◌≡◌, ◌≢◌, List, [], ◌∷◌, Error, Result, raise, changed_error, arith,
  length, take, ap,
}

abbrev pub durations : List ℕ
durations = 0 ∷ 1 ∷ 10 ∷ 100 ∷ []

module _ {ℓ} {A : Type ℓ} where
  -- `except ChangedError: eventlet.sleep(delay)`
  abbrev again : Result A → ℕ → Result A × List ℕ → Result A × List ℕ
  again (raise Error.changed_error) delay rest = (rest.0, delay ∷ rest.1)
  again r delay rest = (r, [])

  unfoldable pub retry_from : List ℕ → ℕ → (ℕ → Result A) → Result A × List ℕ
  retry_from [] n fn = (fn n, [])
  retry_from (delay ∷ delays) n fn = again (fn n) delay (retry_from delays (suc n) fn)

  -- The result, and the delays that were slept.
  unfoldable pub retry : (ℕ → Result A) → Result A × List ℕ
  unfolding retry_from
  retry fn = retry_from durations 0 fn

  again_done :
      (r : Result A) (delay : ℕ) (rest : Result A × List ℕ)
      → r ≢ raise changed_error
      → again r delay rest ≡ (r, [])
  again_done r delay rest h = ground arith

  retry_from_lem :
      (delays : List ℕ) (n k m : ℕ) (fn : ℕ → Result A)
      → m ≡ n + k
      → k ≤ length delays
      → ((i : ℕ) → n ≤ i → i < m → fn i ≡ raise changed_error)
      → fn m ≢ raise changed_error
      → retry_from delays n fn ≡ (fn m, take k delays)
  unfolding retry_from
  retry_from_lem [] n zero m fn e le h stop = let p : n ≡ m = omega arith in ap (λ i. (fn i, [])) p
  retry_from_lem [] n (suc k) m fn e le h stop = absurd (omega arith)
  retry_from_lem (delay ∷ delays) n zero m fn e le h stop =
      let p : n ≡ m = omega arith in
      rw p (again_done (fn m) delay (retry_from delays (suc m) fn) stop)
  retry_from_lem (delay ∷ delays) n (suc k) m fn e le h stop = ground (
    arith,
    h n (omega arith) (omega arith),
    retry_from_lem delays (suc n) k m fn (omega arith) (omega arith)
        (λ i lo hi. h i (omega arith) hi) stop,
  )

  -- The result is that of the first attempt that does not race a put, if it is among the first five:
  -- `k` attempts raced, and the first `k` delays were slept.
  pub retry-first :
      (k : ℕ) (fn : ℕ → Result A)
      → k ≤ 4
      → ((i : ℕ) → i < k → fn i ≡ raise changed_error)
      → fn k ≢ raise changed_error
      → retry fn ≡ (fn k, take k durations)
  unfolding retry
  retry-first k fn le h stop =
      retry_from_lem durations 0 k k fn (omega arith) le (λ i lo hi. h i hi) stop

  -- Five races are one too many: the error is the caller's.
  pub retry-gives_up :
      (fn : ℕ → Result A)
      → ((i : ℕ) → i < 5 → fn i ≡ raise changed_error)
      → retry fn ≡ (raise changed_error, durations)
  unfolding retry retry_from
  retry-gives_up fn h = rw (
    h 0 (omega arith),
    h 1 (omega arith),
    h 2 (omega arith),
    h 3 (omega arith),
    h 4 (omega arith),
  )
