-- ===== src/Base/Dicts.antt =====
-- A Python dict with text keys, in insertion order. `insert` keeps the place of a key that is there,
-- as `d[k] = v` does.
use Prim.Native.String.{String}
use mathlib.Core.Path.{◌≡◌, refl}
use mathlib.Core.Logic.{inl, inr}
use mathlib.Core.Bool.{Bool, true, false, ◌&&◌}
use mathlib.Core.Option.{Option, none, some}
use mathlib.Core.List.{List, [], ◌∷◌}
use native.Mathlib.Omega.{arith}
use text.Mathlib.Text.{◌==◌ as str_eq}
use text.Mathlib.TextEquality.{eq_iff}
use text.Mathlib.TextPositions.{eq_refl}
use swiftacular.Base.Tests.{Option-cases, if◌then◌else◌}

abbrev pub Dict {ℓ} : Type ℓ → Type ℓ
Dict V = List (String × V)

module _ {ℓ} {V : Type ℓ} where
  -- `d.get(k)`
  unfoldable pub lookup : String → Dict V → Option V
  lookup k [] = none
  lookup k ((j, v) ∷ d) = if str_eq j k then some v else lookup k d

  -- `d[k] = v`
  unfoldable pub insert : String → V → Dict V → Dict V
  insert k v [] = (k, v) ∷ []
  insert k v ((j, w) ∷ d) = if str_eq j k then (j, v) ∷ d else (j, w) ∷ insert k v d

  -- `d.pop(k, None)`, for its effect
  unfoldable pub pop : String → Dict V → Dict V
  pop k [] = []
  pop k ((j, v) ∷ d) = let rest = pop k d in if str_eq j k then rest else (j, v) ∷ rest

  -- `d.update((k, v) for k, v in e.items() if p(k))`
  unfoldable pub update : (String → Bool) → Dict V → Dict V → Dict V
  update p d [] = d
  update p d ((k, v) ∷ e) = update p (if p k then insert k v d else d) e

  pub lookup-insert :
      (k j : String) (v : V) (d : Dict V)
      → lookup j (insert k v d) ≡ (if str_eq k j then some v else lookup j d)
  unfolding lookup insert
  lookup-insert k j v [] = refl
  lookup-insert k j v ((i, w) ∷ d) =
      ground (arith, eq_iff k j, eq_iff i k, eq_iff i j, lookup-insert k j v d)

  pub lookup-pop :
      (k j : String) (d : Dict V) → lookup j (pop k d) ≡ (if str_eq k j then none else lookup j d)
  unfolding lookup pop
  lookup-pop k j [] = ground arith
  lookup-pop k j ((i, v) ∷ d) = ground (arith, lookup-pop k j d, eq_iff i k, eq_iff i j, eq_iff k j)

  -- A dict has one entry for a key: the last one that is written wins.
  unfoldable pub last : String → Dict V → Option V → Option V
  last k [] old = old
  last k ((j, v) ∷ d) old = last k d (if str_eq j k then some v else old)

  pub lookup-update :
      (p : String → Bool) (j : String) (d e : Dict V)
      → lookup j (update p d e) ≡ (if p j then last j e (lookup j d) else lookup j d)
  unfolding update last
  lookup-update p j d [] = ground arith
  lookup-update p j d ((k, v) ∷ e) = ground (
    arith,
    eq_iff k j,
    lookup-update p j (if p k then insert k v d else d) e,
    lookup-insert k j v d,
  )

abbrev pub opt_eq : Option String → Option String → Bool
opt_eq none none = true
opt_eq (some a) (some b) = str_eq a b
opt_eq _ _ = false

-- `a == b`: each key of the one has its value in the other, both ways.
unfoldable pub agrees : Dict String → Dict String → Dict String → Bool
agrees a b [] = true
agrees a b ((k, _) ∷ d) = opt_eq (lookup k a) (lookup k b) && agrees a b d

unfoldable pub same : Dict String → Dict String → Bool
unfolding agrees
same a b = agrees a b a && agrees a b b

opt_eq_refl : (o : Option String) → opt_eq o o ≡ true
opt_eq_refl none = refl
opt_eq_refl (some a) = eq_refl a

agrees_refl : (a d : Dict String) → agrees a a d ≡ true
unfolding agrees
agrees_refl a [] = refl
agrees_refl a ((k, _) ∷ d) = ground (arith, opt_eq_refl (lookup k a), agrees_refl a d)

pub same_refl : (a : Dict String) → same a a ≡ true
unfolding same
same_refl a = ground (arith, agrees_refl a a)

opt_eq→eq : (a b : Option String) → opt_eq a b ≡ true → a ≡ b
opt_eq→eq none none h = refl
opt_eq→eq (some a) (some b) h = ground (arith, eq_iff a b)
opt_eq→eq none (some b) h = absurd (ground arith)
opt_eq→eq (some a) none h = absurd (ground arith)

-- A key of `d` has been compared.
agrees-lookup :
    (a b d : Dict String) (k v : String)
    → agrees a b d ≡ true
    → lookup k d ≡ some v
    → lookup k a ≡ lookup k b
unfolding agrees lookup
agrees-lookup a b [] k v h p = absurd (ground arith)
agrees-lookup a b ((j, w) ∷ d) k v h p =
    ground (arith, eq_iff j k, opt_eq→eq (lookup j a) (lookup j b), agrees-lookup a b d k v)

-- Equal dicts have the same value at every key.
pub same-lookup : (a b : Dict String) (k : String) → same a b ≡ true → lookup k a ≡ lookup k b
unfolding same
same-lookup a b k h = elim (Option-cases (lookup k a)) [
  | inr (v, p) ↦ agrees-lookup a b a k v (ground arith) p
  | inl p ↦ elim (Option-cases (lookup k b)) [
    | inr (w, q) ↦ agrees-lookup a b b k w (ground arith) q
    | inl q ↦ rw (p, q)
  ]
]

-- No key has two entries.
abbrev pub IsDict {ℓ} : {V : Type ℓ} → Dict V → Type ℓ
IsDict [] = Unit
IsDict ((k, v) ∷ d) = (lookup k d ≡ none) × IsDict d

abbrev pub first {ℓ} : {V : Type ℓ} → Option V → Option V → Option V
first none o = o
first (some v) o = some v

pub last-lookup {ℓ} :
    {V : Type ℓ} (k : String) (d : Dict V) (old : Option V)
    → IsDict d
    → last k d old ≡ first (lookup k d) old
unfolding last lookup
last-lookup k [] old h = refl
last-lookup k ((j, v) ∷ d) old h =
    ground (arith, eq_iff j k, last-lookup k d (if str_eq j k then some v else old) h.1)
