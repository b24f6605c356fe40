-- ===== src/Device/Opening/Current.antt =====
-- `open` of device.py answers with what was current in one of its rounds.
use swiftacular.Base.{
  ℕ, ◌≡◌, refl, sym, subst, Bool, true, false, ◌⊎◌, inl, inr, Bool-cases, Option, none, some, List,
  [], ◌∷◌, ◌++◌, arith, Result, ok, raise, ◌==◌,
}
use swiftacular.Metadata.{Entry}
use swiftacular.Device.Opening.{
  OpenTurn, Slot, empty, finding, resolved, is_object, after_read, after_wait, open_turn, open_loop,
}

-- That a round entitles `open` to a result: the name resolved to the Object, which was missing, or
-- whose metadata could not be read, or to which the name resolved before and after the read; or that
-- there was none and the search for it failed.
pub data Answers (turn : OpenTurn) : Result (ℕ × Option Entry) → Type 0 where
  not_found :
      (e : swiftacular.Base.Error)
      → (turn.slot ≡ empty) ⊎ (turn.slot ≡ finding)
      → turn.search ≡ raise e
      → Answers turn (raise e)
  gone : (o : ℕ) → turn.slot ≡ resolved o → turn.missing ≡ true → Answers turn (ok (o, none))
  current :
      (o : ℕ) (entry : Entry)
      → turn.slot ≡ resolved o
      → turn.missing ≡ false
      → turn.read ≡ ok entry
      → is_object o turn.slot_after ≡ true
      → Answers turn (ok (o, some entry))
  failed :
      (o : ℕ) (e : swiftacular.Base.Error)
      → turn.slot ≡ resolved o
      → turn.missing ≡ false
      → turn.read ≡ raise e
      → Answers turn (raise e)

-- One of the rounds entitles `open` to the result.
abbrev pub Answered : List OpenTurn → Result (ℕ × Option Entry) → Type 0
Answered [] r = ⊥
Answered (turn ∷ turns) r = Answers turn r ⊎ Answered turns r

-- A round that finds an Object to which the name still resolves after the read.
pub record IsSettled (turn : OpenTurn) : Type 0 where
  pub object : ℕ
  pub before_read : turn.slot ≡ resolved object
  pub after_it : turn.slot_after ≡ resolved object

abbrev Returns : List OpenTurn → Option (Result (ℕ × Option Entry)) → Type 0
Returns turns out = (r : Result (ℕ × Option Entry)) × (out ≡ some r) × Answered turns r

returns_later :
    (turn : OpenTurn) (turns : List OpenTurn) (out : Option (Result (ℕ × Option Entry)))
    → Returns turns out
    → Returns (turn ∷ turns) out
returns_later turn turns out (r, e, h) = (r, e, inr h)

-- A read that is made ends the round, or the round is passed over.
read_ends :
    (turn : OpenTurn) (turns : List OpenTurn) (o : ℕ) (rest : Option (Result (ℕ × Option Entry)))
    → turn.slot ≡ resolved o
    → turn.missing ≡ false
    → (got : Result Entry) → turn.read ≡ got
    → (is_object o turn.slot_after ≡ true) ⊎ Returns turns rest
    → Returns (turn ∷ turns) (after_read o turn.slot_after got rest)
unfolding after_read
read_ends turn turns o rest slot here (raise e) got on =
    (raise e, refl, inl (Answers.failed o e slot here got))
read_ends turn turns o rest slot here (ok entry) got (inl still) =
    rw still (ok (o, some entry), refl, inl (Answers.current o entry slot here got still))
read_ends turn turns o rest slot here (ok entry) got (inr (r, e, h)) =
    elim (Bool-cases (is_object o turn.slot_after)) [
      | inl still ↦
          rw still (ok (o, some entry), refl, inl (Answers.current o entry slot here got still))
      | inr moved ↦ rw moved (r, e, inr h)
    ]

-- A round that finds an Object answers, or is passed over.
found :
    (turn : OpenTurn) (turns : List OpenTurn) (o : ℕ) (rest : Option (Result (ℕ × Option Entry)))
    → turn.slot ≡ resolved o
    → (is_object o turn.slot_after ≡ true) ⊎ Returns turns rest
    → Returns (turn ∷ turns) (open_turn true turn (resolved o) rest)
unfolding open_turn
found turn turns o rest slot on = elim (Bool-cases turn.missing) [
  | inl m ↦ (ok (o, none), ground arith, inl (Answers.gone o slot m))
  | inr here ↦
      let (r, e, h) = read_ends turn turns o rest slot here turn.read refl on in
      (r, ground arith, h)
]

settled :
    (turn : OpenTurn) (turns : List OpenTurn)
    → IsSettled turn
    → Returns (turn ∷ turns) (open_loop true (turn ∷ turns))
unfolding open_loop
settled turn turns h =
    subst (λ slot. Returns (turn ∷ turns) (open_turn true turn slot (open_loop true turns)))
      (sym h.before_read)
      (found turn turns h.object (open_loop true turns) h.before_read
        (inl (ground (arith, h.after_it))))

-- A search that fails ends the loop, and one that does not lets it go on.
waited :
    (turn : OpenTurn) (turns : List OpenTurn)
    → (turn.slot ≡ empty) ⊎ (turn.slot ≡ finding)
    → (search : Result (Unit {0})) → turn.search ≡ search
    → Returns turns (open_loop true turns)
    → Returns (turn ∷ turns) (after_wait search (open_loop true turns))
waited turn turns slot (raise e) ended later = (raise e, refl, inl (Answers.not_found e slot ended))
waited turn turns slot (ok done) ended later = returns_later turn turns (open_loop true turns) later

passed :
    (turn : OpenTurn) (turns : List OpenTurn) (slot : Slot)
    → turn.slot ≡ slot
    → Returns turns (open_loop true turns)
    → Returns (turn ∷ turns) (open_turn true turn slot (open_loop true turns))
unfolding open_turn
passed turn turns empty e later = waited turn turns (inl e) turn.search refl later
passed turn turns finding e later = waited turn turns (inr e) turn.search refl later
passed turn turns (resolved o) e later = found turn turns o (open_loop true turns) e (inr later)

-- However searches and puts change what the name resolves to, an open with metadata returns by the
-- first round in which the name resolves to one Object before and after the read; and its result is
-- always one to which some round entitles it: the Object of that round, missing, or with the metadata
-- that was read of it while the name resolved to it before and after, or the error of that read, or the
-- error of a search that the round waited for.
pub open_loop-Answered :
    (before : List OpenTurn) (turn : OpenTurn) (later : List OpenTurn)
    → IsSettled turn
    → (r : Result (ℕ × Option Entry)) × (open_loop true (before ++ turn ∷ later) ≡ some r)
      × Answered (before ++ turn ∷ later) r
unfolding open_loop
open_loop-Answered [] turn later h = settled turn later h
open_loop-Answered (first ∷ before) turn later h =
    passed first (before ++ turn ∷ later) first.slot refl (open_loop-Answered before turn later h)
