-- ===== src/Metadata/Posts.antt =====
-- What a POST does to the metadata that is stored.
use swiftacular.Base.{
  ℕ, ◌≡◌, refl, ◌≤◌, ◌<◌, Option, none, some, ok, Result, arith, ltb, max, if◌then◌else◌, true,
  Bool-cases, inl, inr, lookup, same, same_refl, same-lookup, subst, sym, ◌∙◌, [],
}
use swiftacular.Swift.{Swift}
use swiftacular.Metadata.{
  Headers, Entry, Blob, x_timestamp, content_type, content_type_timestamp, post, post_onto, ranked,
  combine,
}
use swiftacular.Metadata.Stamps.{
  IsStamped, TypeAt, untyped, typed, IsPosted, time_of-IsStamped, combine-IsPosted, combine_newer,
  IsPosted-at,
}

-- The "meta" section once the result of a POST is written.
abbrev pub posted : Entry → Option Blob → Option Headers
posted e none = e.meta_section
posted e (some Blob.garbled) = none
posted e (some (Blob.sections d m)) = m

module _ (s : Swift) where
  open s use {newer-some, not_newer-some}

  TypeAt-same : (a b : Headers) (c : ℕ) → same a b ≡ true → TypeAt s a c → TypeAt s b c
  TypeAt-same a b c h (untyped e z) = untyped (sym (same-lookup a b content_type_timestamp h) ∙ e) z
  TypeAt-same a b c h (typed type e f) =
      typed type (sym (same-lookup a b content_type h) ∙ e)
        (sym (same-lookup a b content_type_timestamp h) ∙ f)

  IsPosted-same : (a b : Headers) (t c : ℕ) → same a b ≡ true → IsPosted s a t c → IsPosted s b t c
  IsPosted-same a b t c h p = record {
    stamped = sym (same-lookup a b x_timestamp h) ∙ p.stamped;
    type_at = TypeAt-same a b c h p.type_at;
  }

  ranked_lem :
      (meta p : Headers) (t u : ℕ)
      → IsStamped s p t
      → IsStamped s meta u
      → ranked s (some meta) p ≡ ok (if ltb u t then (p, meta) else (meta, p))
  unfolding ranked
  ranked_lem meta p t u ht hu =
      ground (arith, time_of-IsStamped s p t ht, time_of-IsStamped s meta u hu, newer-some t u)

  -- What is stored after a POST over an older one.
  abbrev pub Latest : Entry → Result (Option Blob) → ℕ → ℕ → Type 0
  Latest e r t c =
      (b : Option Blob) × (r ≡ ok b) × (h : Headers) × (posted e b ≡ some h) × IsPosted s h t c

  post_onto-combined :
      (e : Entry) (meta p a b m : Headers) (t c : ℕ)
      → e.meta_section ≡ some meta
      → ranked s (some meta) p ≡ ok (a, b)
      → combine s a b ≡ ok m
      → IsPosted s m t c
      → Latest e (post_onto s e p) t c
  post_onto-combined e meta p a b m t c he hr hc hm = elim (Bool-cases (same m meta)) [
    | inl eq ↦ (none, unfold post_onto in ground arith, meta, he, IsPosted-same m meta t c eq hm)
    | inr ne ↦ (
      some (Blob.sections (some e.data_section) (some m)),
      unfold post_onto in ground arith,
      m,
      refl,
      hm,
    )
  ]

  post-fresh :
      (e : Entry) (p : Headers) (n t : ℕ)
      → e.data_ts ≡ some n
      → IsStamped s p t
      → n < t
      → post s (some e) p ≡ post_onto s e p
  unfolding post
  post-fresh e p n t he hp lt = ground (arith, time_of-IsStamped s p t hp, not_newer-some t n)

  -- A POST that is not newer than what the PUT wrote changes nothing.
  pub post-stale :
      (e : Entry) (p : Headers) (n t : ℕ)
      → e.data_ts ≡ some n
      → IsStamped s p t
      → t ≤ n
      → post s (some e) p ≡ ok none
  unfolding post
  post-stale e p n t he hp le = ground (arith, time_of-IsStamped s p t hp, not_newer-some t n)

  post_over :
      (e : Entry) (meta p : Headers) (t u c d : ℕ)
      → e.meta_section ≡ some meta
      → IsPosted s meta u d
      → IsPosted s p t c
      → Latest e (post_onto s e p) (max t u) (max c d)
  post_over e meta p t u c d he hm hp = elim (Bool-cases (ltb u t)) [
    | inl newer ↦
        let (m, hc, k) = combine-IsPosted s p meta t u c d hp hm in
        post_onto-combined e meta p p meta m (max t u) (max c d) he
          (ranked_lem meta p t u hp.stamped hm.stamped ∙ ground arith) hc
          (subst (λ v. IsPosted s m v (max c d)) (ground arith) k)
    | inr older ↦
        let (m, hc, k) = combine-IsPosted s meta p u t d c hm hp in
        post_onto-combined e meta p meta p m (max t u) (max c d) he
          (ranked_lem meta p t u hp.stamped hm.stamped ∙ ground arith) hc
          (subst (λ v. IsPosted s m v (max c d)) (ground arith)
            (IsPosted-at s m u (max d c) (max c d) k (omega arith)))
  ]

  -- A POST newer than what the PUT wrote never fails over an earlier POST. What is stored then has
  -- the later time of the two, and the content type that was set last, whichever came first.
  pub post-Latest :
      (e : Entry) (meta p : Headers) (n t u c d : ℕ)
      → e.meta_section ≡ some meta
      → e.data_ts ≡ some n
      → IsPosted s meta u d
      → IsPosted s p t c
      → n < t
      → Latest e (post s (some e) p) (max t u) (max c d)
  post-Latest e meta p n t u c d he hn hm hp lt =
      subst (λ r. Latest e r (max t u) (max c d)) (sym (post-fresh e p n t hn hp.stamped lt))
        (post_over e meta p t u c d he hm hp)

  -- A POST that neither is newer nor sets a newer content type changes nothing.
  post-absorbed :
      (e : Entry) (meta p : Headers) (n t u c d : ℕ)
      → e.meta_section ≡ some meta
      → e.data_ts ≡ some n
      → IsPosted s meta u d
      → IsPosted s p t c
      → t ≤ u
      → c ≤ d
      → post s (some e) p ≡ ok none
  unfolding post post_onto
  post-absorbed e meta p n t u c d he hn hm hp tu cd = ground (
    arith,
    time_of-IsStamped s p t hp.stamped,
    not_newer-some t n,
    ranked_lem meta p t u hp.stamped hm.stamped,
    combine_newer s meta p d c (ground arith) hm.type_at hp.type_at,
    same_refl meta,
  )

  Latest-absorbs :
      (e e' : Entry) (p : Headers) (b : Option Blob) (n t u c d : ℕ)
      → e'.meta_section ≡ posted e b
      → e'.data_ts ≡ some n
      → IsPosted s p t c
      → post s (some e) p ≡ ok b
      → Latest e (post s (some e) p) (max t u) (max c d)
      → post s (some e') p ≡ ok none
  Latest-absorbs e e' p b n t u c d hm hn hp hb (b', hb', h, hh, posted_at) =
      post-absorbed e' h p n t (max t u) c (max c d) (hm ∙ (ground arith)) hn posted_at hp
        (omega arith) (omega arith)

  -- Where an object has an earlier POST, that POST and a new one have each a timestamp and perhaps a
  -- content type with its time, the new one is newer than the PUT, and it is written or changes nothing,
  -- the same POST once more, on an entry whose POST section is what that left and whose data time is the
  -- same, writes nothing.
  pub post_twice :
      (e e' : Entry) (meta p : Headers) (b : Option Blob) (n t u c d : ℕ)
      → e.meta_section ≡ some meta
      → e.data_ts ≡ some n
      → IsPosted s meta u d
      → IsPosted s p t c
      → n < t
      → post s (some e) p ≡ ok b
      → e'.meta_section ≡ posted e b
      → e'.data_ts ≡ e.data_ts
      → post s (some e') p ≡ ok none
  post_twice e e' meta p b n t u c d he hn hm hp lt hb hm' hn' =
      Latest-absorbs e e' p b n t u c d hm' (hn' ∙ hn) hp hb
        (post-Latest e meta p n t u c d he hn hm hp lt)

  -- A POST that is written leaves the PUT's section alone.
  pub post-sections :
      (e : Entry) (p : Headers) (b : Blob)
      → post s (some e) p ≡ ok (some b)
      → (m : Headers) × (b ≡ Blob.sections (some e.data_section) (some m))
  unfolding post post_onto
  post-sections e p b h = ground arith

  -- The first POST after a PUT is stored as it is.
  pub post_first :
      (e : Entry) (p : Headers) (n t c : ℕ)
      → e.meta_section ≡ none
      → e.data_ts ≡ some n
      → IsPosted s p t c
      → n < t
      → post s (some e) p ≡ ok (some (Blob.sections (some e.data_section) (some p)))
  unfolding post post_onto ranked
  post_first e p n t c hm hn hp lt = ground (
    arith,
    time_of-IsStamped s p t hp.stamped,
    not_newer-some t n,
    combine_newer s p [] c 0 (ground arith) hp.type_at (untyped (unfold lookup in refl) refl),
  )
