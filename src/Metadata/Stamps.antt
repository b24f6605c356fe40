-- ===== src/Metadata/Stamps.antt =====
-- Sections as the code writes them: a timestamp in its internal form, and a content type with the
-- time at which it was set.
use swiftacular.Base.{
  ℕ, ◌≡◌, none, some, ok, arith, ltb, max, subst, true, false, Bool-cases, inl, inr, String, lookup,
  insert, lookup-insert,
}
use swiftacular.Swift.{Swift}
use swiftacular.Metadata.{
  Headers, x_timestamp, content_type, content_type_timestamp, time_of, ctype_timestamp, combine,
}

module _ (s : Swift) where
  open s use {internal, parse-internal, internal-ne-empty}

  abbrev pub IsStamped : Headers → ℕ → Type 0
  IsStamped h t = lookup x_timestamp h ≡ some (internal t)

  -- The content type was set at `c`; 0 where the section says nothing of it.
  pub data TypeAt (h : Headers) (c : ℕ) : Type 0 where
    untyped : lookup content_type_timestamp h ≡ none → c ≡ 0 → TypeAt h c
    typed :
        (type : String)
        → lookup content_type h ≡ some type
        → lookup content_type_timestamp h ≡ some (internal c)
        → TypeAt h c

  pub record IsPosted (h : Headers) (t c : ℕ) : Type 0 where
    pub stamped : IsStamped h t
    pub type_at : TypeAt h c

  pub time_of-IsStamped : (h : Headers) (t : ℕ) → IsStamped h t → time_of s h ≡ ok (some t)
  unfolding time_of
  time_of-IsStamped h t e = ground (arith, parse-internal t, internal-ne-empty t)

  pub ctype_timestamp-TypeAt : (h : Headers) (c : ℕ) → TypeAt h c → ctype_timestamp s h ≡ ok c
  unfolding ctype_timestamp
  ctype_timestamp-TypeAt h c (untyped e z) = ground arith
  ctype_timestamp-TypeAt h c (typed type e f) = ground (arith, parse-internal c)

  abbrev pub retyped : Headers → String → ℕ → Headers
  retyped newest type c =
      insert content_type_timestamp (internal c) (insert content_type type newest)

  pub retyped-IsPosted :
      (newest : Headers) (type : String) (t c : ℕ)
      → IsStamped newest t
      → IsPosted (retyped newest type c) t c
  retyped-IsPosted newest type t c h = record {
    stamped = simp lookup-insert h;
    type_at = typed type (simp lookup-insert) (simp lookup-insert);
  }

  pub IsPosted-at : (h : Headers) (t c d : ℕ) → IsPosted h t c → c ≡ d → IsPosted h t d
  IsPosted-at h t c d p e = subst (λ k. IsPosted h t k) e p

  combine_older :
      (newest oldest : Headers) (t c d : ℕ)
      → ltb c d ≡ true
      → IsPosted newest t c
      → TypeAt oldest d
      → (m : Headers) × (combine s newest oldest ≡ ok m) × IsPosted m t d
  combine_older newest oldest t c d later h (untyped e z) = absurd (ground arith)
  combine_older newest oldest t c d later h (typed type e f) = (
    retyped newest type d,
    unfold combine in
        ground (
          arith,
          ctype_timestamp-TypeAt newest c h.type_at,
          ctype_timestamp-TypeAt oldest d (typed type e f),
        ),
    retyped-IsPosted newest type t d h.stamped,
  )

  pub combine_newer :
      (newest oldest : Headers) (c d : ℕ)
      → ltb c d ≡ false
      → TypeAt newest c
      → TypeAt oldest d
      → combine s newest oldest ≡ ok newest
  unfolding combine
  combine_newer newest oldest c d later h k =
      ground (arith, ctype_timestamp-TypeAt newest c h, ctype_timestamp-TypeAt oldest d k)

  -- The combined section has the time of the newer one, and the later of the two content types.
  pub combine-IsPosted :
      (newest oldest : Headers) (t u c d : ℕ)
      → IsPosted newest t c
      → IsPosted oldest u d
      → (m : Headers) × (combine s newest oldest ≡ ok m) × IsPosted m t (max c d)
  combine-IsPosted newest oldest t u c d h k = elim (Bool-cases (ltb c d)) [
    | inl later ↦
        let (m, e, p) = combine_older newest oldest t c d later h k.type_at in
        (m, e, IsPosted-at m t d (max c d) p (ground arith))
    | inr sooner ↦ (
      newest,
      combine_newer newest oldest c d sooner h.type_at k.type_at,
      IsPosted-at newest t c (max c d) h (ground arith),
    )
  ]
