-- ===== src/Device/Opening/Whole.antt =====
-- `read_metadata` of device.py never mixes two versions of an Object's metadata.
use swiftacular.Base.{
  ℕ, suc, ◌+◌, ◌-◌, ◌≤◌, ◌<◌, ◌≡◌, refl, sym, ◌∙◌, ap, subst, true, false, ◌⊎◌, inl, inr,
  Bool-cases, some, List, [], ◌∷◌, ◌++◌, arith, ltb, ◌==◌, length, take, drop, All, take-split,
  take-long, length-take, length-drop, length-append, min,
}
use swiftacular.Engine.{Bytes}
use swiftacular.Device.Opening.{ReadTurn, chunk_of, read_loop}

-- The versions that the Object has from the start of the read on.
abbrev pub Seen : ℕ → ℕ → List ReadTurn → Type 0
Seen w version [] = w ≡ version
Seen w version (turn ∷ turns) = (w ≡ version) ⊎ Seen w turn.version turns

Seen-first : (version : ℕ) (turns : List ReadTurn) → Seen version version turns
Seen-first version [] = refl
Seen-first version (turn ∷ turns) = inl refl

module _ (written : ℕ → Bytes) where
  -- `sync` has put into the store what was written before a read began: while the version is still
  -- the one at the start, the store holds the bytes of that version.
  abbrev pub IsSynced : ℕ → List ReadTurn → Type 0
  IsSynced version [] = Unit
  IsSynced version (turn ∷ turns) =
      (turn.version ≡ version → turn.header ≡ written version) × IsSynced turn.version turns

  -- The whole metadata of one version that the Object had.
  abbrev pub Whole : ℕ → List ReadTurn → Bytes → Type 0
  Whole version turns bytes = (w : ℕ) × Seen w version turns × (bytes ≡ written w)

  -- What has been read so far is the front of the version that is being read.
  abbrev IsFront : ℕ → Bytes → Type 0
  IsFront version bytes = bytes ≡ take (length bytes) (written version)

  front_on :
      (chunk_size version : ℕ) (bytes : Bytes) (turn : ReadTurn)
      → IsFront version bytes
      → turn.header ≡ written version
      → bytes ++ chunk_of chunk_size bytes turn ≡ take (length bytes + chunk_size) (written version)
  front_on chunk_size version bytes turn front e =
      ap (λ b. b ++ chunk_of chunk_size bytes turn) front
      ∙ ap (λ h. take (length bytes) (written version) ++ take chunk_size (drop (length bytes) h)) e
      ∙ sym
          (take-split (length bytes) chunk_size (length bytes + chunk_size) (written version) refl)

  front_length : (n : ℕ) (xs ys : Bytes) → ys ≡ take n xs → n ≤ length ys → ys ≡ take (length ys) xs
  front_length n xs ys e le =
      let eq : length ys ≡ n = omega (arith, ap length e, length-take n xs) in rw eq e

  chunk_length :
      (chunk_size version : ℕ) (bytes : Bytes) (turn : ReadTurn)
      → turn.header ≡ written version
      → length (chunk_of chunk_size bytes turn)
        ≡ min chunk_size (length (written version) - length bytes)
  chunk_length chunk_size version bytes turn e =
      length-take chunk_size (drop (length bytes) turn.header)
      ∙ ap (λ n. min chunk_size n)
          (length-drop (length bytes) turn.header ∙ ap (λ h. length h - length bytes) e)

  -- A short chunk ends the metadata.
  last_chunk :
      (chunk_size version : ℕ) (bytes : Bytes) (turn : ReadTurn)
      → IsFront version bytes
      → turn.header ≡ written version
      → ltb (length (chunk_of chunk_size bytes turn)) chunk_size ≡ true
      → bytes ++ chunk_of chunk_size bytes turn ≡ written version
  last_chunk chunk_size version bytes turn front e short =
      let n = chunk_length chunk_size version bytes turn e in
      let lt : length (chunk_of chunk_size bytes turn) < chunk_size = ground arith in
      front_on chunk_size version bytes turn front e
      ∙ take-long (written version) (length bytes + chunk_size) (omega arith)

  -- A full one goes on.
  full_chunk :
      (chunk_size version : ℕ) (bytes : Bytes) (turn : ReadTurn)
      → IsFront version bytes
      → turn.header ≡ written version
      → ltb (length (chunk_of chunk_size bytes turn)) chunk_size ≡ false
      → IsFront version (bytes ++ chunk_of chunk_size bytes turn)
  full_chunk chunk_size version bytes turn front e long =
      let le : chunk_size ≤ length (chunk_of chunk_size bytes turn) = ground arith in
      front_length (length bytes + chunk_size) (written version)
        (bytes ++ chunk_of chunk_size bytes turn) (front_on chunk_size version bytes turn front e)
        (omega (arith, length-append bytes (chunk_of chunk_size bytes turn)))

  full_left :
      (chunk_size version : ℕ) (bytes : Bytes) (turn : ReadTurn)
      → 0 < chunk_size
      → ltb (length (chunk_of chunk_size bytes turn)) chunk_size ≡ false
      → suc (length bytes) ≤ length (bytes ++ chunk_of chunk_size bytes turn)
  full_left chunk_size version bytes turn pos long =
      let le : chunk_size ≤ length (chunk_of chunk_size bytes turn) = ground arith in
      omega (arith, length-append bytes (chunk_of chunk_size bytes turn))

  -- The rounds at the end, in all of which the version is `u`.
  abbrev pub IsQuiet : ℕ → List ReadTurn → Type 0
  IsQuiet u turns = All (λ turn. turn.version ≡ u) turns

  -- How a read ends.
  abbrev Ends : ℕ → ℕ → Bytes → List ReadTurn → Type 0
  Ends chunk_size version bytes turns =
      (bytes_read : Bytes) × (read_loop chunk_size version bytes turns ≡ some bytes_read)
      × Whole version turns bytes_read

  -- One round, by how the rest of the rounds end.
  round :
      (chunk_size version : ℕ) (bytes : Bytes) (turn : ReadTurn) (turns : List ReadTurn)
      → IsFront version bytes
      → (turn.version ≡ version → turn.header ≡ written version)
      → ((turn.version == version) ≡ false → Ends chunk_size turn.version [] turns)
      → (turn.version ≡ version
          → IsFront version (bytes ++ chunk_of chunk_size bytes turn)
          → ltb (length (chunk_of chunk_size bytes turn)) chunk_size ≡ false
          → Ends chunk_size turn.version (bytes ++ chunk_of chunk_size bytes turn) turns)
      → Ends chunk_size version bytes (turn ∷ turns)
  unfolding read_loop
  round chunk_size version bytes turn turns front synced again on =
      elim (Bool-cases (turn.version == version)) [
        | inr other ↦
            let (result, e, (w, seen, is)) = again other in (result, rw other e, (w, inr seen, is))
        | inl same ↦
            let v : turn.version ≡ version = ground arith in
            elim (Bool-cases (ltb (length (chunk_of chunk_size bytes turn)) chunk_size)) [
              | inl short ↦ (
                bytes ++ chunk_of chunk_size bytes turn,
                rw (same, short),
                (
                  version,
                  inl refl,
                  last_chunk chunk_size version bytes turn front (synced v) short,
                ),
              )
              | inr long ↦
                  let (result, e, (w, seen, is)) =
                    on v (full_chunk chunk_size version bytes turn front (synced v) long) long in
                  (
                    result,
                    rw (same, long)
                        (ap
                            (λ n.
                              read_loop chunk_size n (bytes ++ chunk_of chunk_size bytes turn)
                                turns)
                            (sym v)
                          ∙ e),
                    (w, inr seen, is),
                  )
            ]
      ]

  IsFront-nil : (version : ℕ) → IsFront version []
  IsFront-nil version = refl

  read_quiet :
      (chunk_size version : ℕ) (bytes : Bytes) (turns : List ReadTurn)
      → 0 < chunk_size
      → IsFront version bytes
      → IsSynced version turns
      → IsQuiet version turns
      → length (written version) < length bytes + length turns
      → Ends chunk_size version bytes turns
  read_quiet chunk_size version bytes [] pos front synced quiet enough =
      absurd (omega (arith, ap length front, length-take (length bytes) (written version)))
  read_quiet chunk_size version bytes (turn ∷ turns) pos front synced quiet enough =
      round chunk_size version bytes turn turns front synced.0
        (λ other. absurd (ground (arith, quiet.0)))
        (λ v new long.
          subst (λ n. Ends chunk_size n (bytes ++ chunk_of chunk_size bytes turn) turns) (sym v)
            (read_quiet chunk_size version (bytes ++ chunk_of chunk_size bytes turn) turns pos new
              (subst (λ n. IsSynced n turns) v synced.1) quiet.1
              (omega (arith, full_left chunk_size version bytes turn pos long))))

  -- From any front, as the rest of the rounds begins.
  read_settling :
      (chunk_size u version : ℕ) (bytes : Bytes) (turns : List ReadTurn)
      → 0 < chunk_size
      → IsFront version bytes
      → IsSynced version turns
      → IsQuiet u turns
      → suc (length (written u)) < length turns
      → Ends chunk_size version bytes turns
  read_settling chunk_size u version bytes [] pos front synced quiet enough = absurd (omega arith)
  read_settling chunk_size u version bytes (turn ∷ turns) pos front synced quiet enough =
      let rest : IsQuiet turn.version turns = subst (λ n. IsQuiet n turns) (sym quiet.0) quiet.1 in
      let len : length (written turn.version) ≡ length (written u) =
        ap (λ n. length (written n)) quiet.0 in
      round chunk_size version bytes turn turns front synced.0
        (λ other.
          read_quiet chunk_size turn.version [] turns pos (IsFront-nil turn.version) synced.1 rest
            (omega arith))
        (λ v new long.
          read_quiet chunk_size turn.version (bytes ++ chunk_of chunk_size bytes turn) turns pos
            (subst (λ n. IsFront n (bytes ++ chunk_of chunk_size bytes turn)) (sym v) new) synced.1
            rest (omega arith))

  read_on :
      (chunk_size u version : ℕ) (bytes : Bytes) (before quiet : List ReadTurn)
      → 0 < chunk_size
      → IsFront version bytes
      → IsSynced version (before ++ quiet)
      → IsQuiet u quiet
      → suc (length (written u)) < length quiet
      → Ends chunk_size version bytes (before ++ quiet)
  read_on chunk_size u version bytes [] quiet pos front synced is enough =
      read_settling chunk_size u version bytes quiet pos front synced is enough
  read_on chunk_size u version bytes (turn ∷ before) quiet pos front synced is enough =
      round chunk_size version bytes turn (before ++ quiet) front synced.0
        (λ other.
          read_on chunk_size u turn.version [] before quiet pos (IsFront-nil turn.version) synced.1
            is enough)
        (λ v new long.
          read_on chunk_size u turn.version (bytes ++ chunk_of chunk_size bytes turn) before quiet
            pos (subst (λ n. IsFront n (bytes ++ chunk_of chunk_size bytes turn)) (sym v) new)
            synced.1 is enough)

  -- However the version changes during a read, if it then stays the same for two rounds more than
  -- its metadata has bytes, the read ends, and what it yields is the whole metadata of one version
  -- that the Object had from the start of the read on. While the version is the one at the start of
  -- a pass, the store holds the bytes of that version.
  pub read_loop-Whole :
      (chunk_size version u : ℕ) (before quiet : List ReadTurn)
      → 0 < chunk_size
      → IsSynced version (before ++ quiet)
      → IsQuiet u quiet
      → suc (length (written u)) < length quiet
      → (bytes_read : Bytes) × (read_loop chunk_size version [] (before ++ quiet) ≡ some bytes_read)
        × Whole version (before ++ quiet) bytes_read
  read_loop-Whole chunk_size version u before quiet pos synced is enough =
      read_on chunk_size u version [] before quiet pos (IsFront-nil version) synced is enough
