-- ===== src/Ondisk/Sorting.antt =====
-- Membership of lists of files, and what a sort in descending order puts first.
use swiftacular.Base.{
  ℕ, ◌≡◌, ◌≤◌, refl, sym, ◌⊎◌, inl, inr, List, [], ◌∷◌, arith, leb, Bool-cases, All, subst,
}
use swiftacular.Ondisk.Names.{FileInfo}
use swiftacular.Ondisk.{sort_desc, insert_desc}

abbrev pub In : FileInfo → List FileInfo → Type 0
In x [] = ⊥
In x (y ∷ ys) = (x ≡ y) ⊎ In x ys

pub All_at : (P : FileInfo → Type 0) (x : FileInfo) (xs : List FileInfo) → In x xs → All P xs → P x
All_at P x [] h all = absurd h
All_at P x (y ∷ ys) (inl e) all = subst P (sym e) all.0
All_at P x (y ∷ ys) (inr h) all = All_at P x ys h all.1

pub All-of_In :
    (P : FileInfo → Type 0) (xs : List FileInfo) → ((x : FileInfo) → In x xs → P x) → All P xs
All-of_In P [] h = tt
All-of_In P (x ∷ xs) h = (h x (inl refl), All-of_In P xs (λ y k. h y (inr k)))

-- `h` is among the files, and no other has a greater key.
pub record IsTop (key : FileInfo → ℕ) (h : FileInfo) (xs : List FileInfo) : Type 0 where
  pub among : In h xs
  pub greatest : All (λ y. key y ≤ key h) xs

-- What a sort puts first, for each form of its result.
abbrev pub Heads : (FileInfo → ℕ) → List FileInfo → List FileInfo → Type 0
Heads key xs [] = xs ≡ []
Heads key xs (h ∷ rest) = IsTop key h xs

All-le :
    (key : FileInfo → ℕ) (m n : ℕ) (xs : List FileInfo)
    → m ≤ n
    → All (λ y. key y ≤ m) xs
    → All (λ y. key y ≤ n) xs
All-le key m n [] h all = tt
All-le key m n (x ∷ xs) h all = (omega arith, All-le key m n xs h all.1)

module _ (key : FileInfo → ℕ) where
  insert_desc-Heads :
      (x : FileInfo) (xs ys : List FileInfo)
      → Heads key xs ys
      → Heads key (x ∷ xs) (insert_desc key x ys)
  unfolding insert_desc
  insert_desc-Heads x xs [] h = record { among = inl refl; greatest = (omega arith, rw h tt) }
  insert_desc-Heads x xs (y ∷ ys) h = elim (Bool-cases (leb (key y) (key x))) [
    | inl e ↦ rw e (record {
      among = inl refl;
      greatest = (omega arith, All-le key (key y) (key x) xs (ground arith) h.greatest);
    })
    | inr e ↦ rw e (record { among = inr h.among; greatest = (ground arith, h.greatest) })
  ]

  -- A sort in descending order puts a file with the greatest key first.
  pub sort_desc-Heads : (xs : List FileInfo) → Heads key xs (sort_desc key xs)
  unfolding sort_desc
  sort_desc-Heads [] = refl
  sort_desc-Heads (x ∷ xs) = insert_desc-Heads x xs (sort_desc key xs) (sort_desc-Heads xs)
