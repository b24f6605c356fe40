-- ===== src/Ondisk/Cleanup/Removal.antt =====
-- The removal of files that are listed: each takes its name out once.
use swiftacular.Base.{
  ℕ, ◌+◌, ◌≤◌, ◌≡◌, refl, ◌∙◌, ap, Bool, List, [], ◌∷◌, ◌++◌, String, str_eq, eq_iff, eq_refl,
  arith, Result, ok, ◌>>=◌, Bool-cases, inl, inr, count, count-append,
}
use swiftacular.Ondisk.Names.{FileInfo}
use swiftacular.Ondisk.Cleanup.{
  Cleaned, text_le, insert_name, sort_names, remove, remove_file, remove_files,
}

-- How often a name is listed, and how often files have it.
abbrev pub times : String → List String → ℕ
times n names = count (λ x. str_eq n x) names

abbrev pub named : String → FileInfo → Bool
named n info = str_eq n info.filename

times-insert_name :
    (n x : String) (ys : List String) → times n (insert_name x ys) ≡ times n (x ∷ ys)
unfolding insert_name
times-insert_name n x [] = refl
times-insert_name n x (y ∷ ys) = elim (Bool-cases (text_le y x)) [
  | inl e ↦ rw e refl
  | inr e ↦ rw e (omega (arith, times-insert_name n x ys))
]

pub times-sort_names : (n : String) (xs : List String) → times n (sort_names xs) ≡ times n xs
unfolding sort_names
times-sort_names n [] = refl
times-sort_names n (x ∷ xs) =
    omega (arith, times-insert_name n x (sort_names xs), times-sort_names n xs)

-- A name that is listed is taken out once.
times-remove :
    (name : String) (xs : List String)
    → 1 ≤ times name xs
    → (ys : List String) × (remove name xs ≡ ok ys)
      × ((n : String) → times n ys + times n (name ∷ []) ≡ times n xs)
unfolding remove
times-remove name [] h = absurd (omega arith)
times-remove name (x ∷ xs) h = elim (Bool-cases (str_eq name x)) [
  | inl same ↦ (xs, rw same refl, λ n. rw ((eq_iff name x).0 same) (omega arith))
  | inr other ↦
      let (ys, e, all) = times-remove name xs (ground arith) in
      (x ∷ ys, rw (other, e) refl, λ n. omega (arith, all n))
]

-- From one state of a cleanup to a later one, by the files that were removed between.
pub record Removed (c : Cleaned) (infos : List FileInfo) (c' : Cleaned) : Type 0 where
  pub left : (n : String) → times n c'.files + count (named n) infos ≡ times n c.files
  pub taken : (n : String) → times n c'.removed ≡ times n c.removed + count (named n) infos
  pub same_results : c'.results ≡ c.results

abbrev pub Removes : Cleaned → List FileInfo → Result Cleaned → Type 0
Removes c infos out = (c' : Cleaned) × (out ≡ ok c') × Removed c infos c'

pub Removes-one :
    (c : Cleaned) (info : FileInfo)
    → 1 ≤ times info.filename c.files
    → Removes c (info ∷ []) (remove_file c info)
unfolding remove_file
Removes-one c info h =
    let (ys, e, all) = times-remove info.filename c.files h in
    (
      record c { files = ys; removed = c.removed ++ info.filename ∷ [] },
      rw e refl,
      record {
        left = all;
        taken = λ n. count-append (λ x. str_eq n x) c.removed (info.filename ∷ []);
        same_results = refl;
      },
    )

pub has_name :
    (info : FileInfo) (infos : List FileInfo) → 1 ≤ count (named info.filename) (info ∷ infos)
has_name info infos = ground (arith, eq_refl info.filename)

pub removes :
    (c : Cleaned) (infos : List FileInfo)
    → ((n : String) → count (named n) infos ≤ times n c.files)
    → Removes c infos (remove_files c infos)
unfolding remove_files
removes c [] h =
    (c, refl, record { left = λ n. omega arith; taken = λ n. omega arith; same_results = refl })
removes c (info ∷ infos) h =
    let (c1, e1, r1) = Removes-one c info (omega (arith, has_name info infos, h info.filename)) in
    let (c2, e2, r2) = removes c1 infos (λ n. omega (arith, h n, r1.left n)) in
    (
      c2,
      ap (λ m. m >>= λ c'. remove_files c' infos) e1 ∙ e2,
      record {
        left = λ n. omega (arith, r1.left n, r2.left n);
        taken = λ n. omega (arith, r1.taken n, r2.taken n);
        same_results = r2.same_results ∙ r1.same_results;
      },
    )
