-- ===== src/Metadata/RoundTrip.antt =====
-- What is read back of a blob after a PUT or a DELETE.
use swiftacular.Base.{
  ℕ, ◌≡◌, refl, false, Option, none, some, ok, arith, ltb, if◌then◌else◌, lookup, ◌∙◌, IsDict,
  Bool-cases, inl, inr, Result, ◌⊎◌, String,
}
use swiftacular.Swift.{Swift}
use swiftacular.Metadata.{
  Headers, Entry, Blob, x_timestamp, content_type, content_type_timestamp, get, put, merge,
  previous_post, fixed,
}
use swiftacular.Metadata.Stamps.{IsStamped, TypeAt, untyped, typed, IsPosted, time_of-IsStamped}
use swiftacular.Metadata.Merge.{typed_value, merge_value}

module _ (s : Swift) where
  open s use {internal, parse-internal, newer, newer-some}

  -- The POST that is left: the one before the PUT, if it is newer.
  abbrev pub kept : Headers → ℕ → ℕ → Option Headers
  kept meta t u = if ltb t u then some meta else none

  put-kept :
      (prev : Entry) (meta d : Headers) (t u : ℕ)
      → prev.meta_section ≡ some meta
      → IsStamped s meta u
      → IsStamped s d t
      → put s (some prev) d ≡ ok (Blob.sections (some d) (kept meta t u))
  unfolding put
  put-kept prev meta d t u hp hm hd =
      ground (arith, time_of-IsStamped s meta u hm, time_of-IsStamped s d t hd, newer-some u t)

  -- `get` of these sections succeeds, and gives them back.
  abbrev pub Reads : Headers → Option Headers → ℕ → Result Entry → Type 0
  Reads d m t r =
      (e : Entry) × (r ≡ ok e) × (e.data_section ≡ d) × (e.meta_section ≡ m) × (e.data_ts ≡ some t)

  get_plain :
      (d : Headers) (t c : ℕ)
      → IsStamped s d t
      → TypeAt s d c
      → Reads d none t (get s (Blob.sections (some d) none))
  get_plain d t c hd (untyped e z) = (
    record {
      data_section = d;
      meta_section = none;
      merged = d;
      meta_ts = some t;
      data_ts = some t;
      type_ts = t;
    },
    unfold get in ground (arith, time_of-IsStamped s d t hd, parse-internal t),
    refl,
    refl,
    refl,
  )
  get_plain d t c hd (typed type e f) = (
    record {
      data_section = d;
      meta_section = none;
      merged = d;
      meta_ts = some t;
      data_ts = some t;
      type_ts = c;
    },
    unfold get in ground (arith, time_of-IsStamped s d t hd, parse-internal c),
    refl,
    refl,
    refl,
  )

  get_merged :
      (d meta m : Headers) (t u c : ℕ)
      → merge s d meta ≡ ok m
      → IsStamped s d t
      → IsStamped s m u
      → (lookup content_type_timestamp m ≡ none)
        ⊎ (lookup content_type_timestamp m ≡ some (internal c))
      → Reads d (some meta) t (get s (Blob.sections (some d) (some meta)))
  get_merged d meta m t u c hm hd hu (inl e) = (
    record {
      data_section = d;
      meta_section = some meta;
      merged = m;
      meta_ts = some u;
      data_ts = some t;
      type_ts = t;
    },
    unfold get in
        ground (arith, time_of-IsStamped s d t hd, time_of-IsStamped s m u hu, parse-internal t),
    refl,
    refl,
    refl,
  )
  get_merged d meta m t u c hm hd hu (inr e) = (
    record {
      data_section = d;
      meta_section = some meta;
      merged = m;
      meta_ts = some u;
      data_ts = some t;
      type_ts = c;
    },
    unfold get in
        ground (arith, time_of-IsStamped s d t hd, time_of-IsStamped s m u hu, parse-internal c),
    refl,
    refl,
    refl,
  )

  module _ (stamp_free : fixed s x_timestamp ≡ false)
      (type_free : fixed s content_type_timestamp ≡ false) where
    typed_value-stamp :
        (d meta : Headers) (t c : ℕ) (type : Option String)
        → typed_value s d meta t c type x_timestamp ≡ lookup x_timestamp meta
    typed_value-stamp d meta t c none = ground arith
    typed_value-stamp d meta t c (some type) = ground arith

    typed_value-type :
        (d meta : Headers) (t c : ℕ) (type : Option String)
        → TypeAt s meta c
        → (typed_value s d meta t c type content_type_timestamp ≡ none)
          ⊎ (typed_value s d meta t c type content_type_timestamp ≡ some (internal c))
    typed_value-type d meta t c none (untyped e z) = inl (ground arith)
    typed_value-type d meta t c none (typed type e f) = inr (ground arith)
    typed_value-type d meta t c (some type) (untyped e z) = inl (ground arith)
    typed_value-type d meta t c (some type) (typed type' e f) = elim (Bool-cases (ltb c t)) [
      | inl h ↦ inl (ground arith)
      | inr h ↦ inr (ground arith)
    ]

    get_posted :
        (d meta : Headers) (t u c : ℕ)
        → IsDict d
        → IsStamped s d t
        → IsPosted s meta u c
        → Reads d (some meta) t (get s (Blob.sections (some d) (some meta)))
    get_posted d meta t u c h hd hm =
        let (m, hr, view) = merge_value s d meta t c h hd hm.type_at in
        let type = lookup content_type d in
        get_merged d meta m t u c hr hd
          (view x_timestamp ∙ typed_value-stamp d meta t c type ∙ hm.stamped)
          (elim (typed_value-type d meta t c type hm.type_at) [
            | inl e ↦ inl (view content_type_timestamp ∙ e)
            | inr e ↦ inr (view content_type_timestamp ∙ e)
          ])

    -- What a PUT at `t` writes can be read, and reading gives back what it wrote. Of the POST before
    -- it exactly one that is newer than `t` is left.
    pub get-put :
        (prev : Entry) (meta d : Headers) (t u c k : ℕ)
        → prev.meta_section ≡ some meta
        → IsDict d
        → IsStamped s d t
        → TypeAt s d k
        → IsPosted s meta u c
        → (b : Blob) × (put s (some prev) d ≡ ok b) × Reads d (kept meta t u) t (get s b)
    get-put prev meta d t u c k hp h hd hk hm = elim (Bool-cases (ltb t u)) [
      | inl newer_post ↦ (
        Blob.sections (some d) (some meta),
        put-kept prev meta d t u hp hm.stamped hd ∙ rw newer_post,
        rw newer_post (get_posted d meta t u c h hd hm),
      )
      | inr older_post ↦ (
        Blob.sections (some d) none,
        put-kept prev meta d t u hp hm.stamped hd ∙ rw older_post,
        rw older_post (get_plain d t k hd hk),
      )
    ]

  -- The POST of a blob, if there is one.
  pub data PostAt (m : Option Headers) (u c : ℕ) : Type 0 where
    no_post : m ≡ none → PostAt m u c
    post_at : (meta : Headers) → m ≡ some meta → IsPosted s meta u c → PostAt m u c

  -- Whatever POST came before, a PUT writes its own section, and at most that POST.
  pub put-sections :
      (prev : Option Entry) (d : Headers) (t u c : ℕ)
      → PostAt (previous_post prev) u c
      → IsStamped s d t
      → (m : Option Headers) × (put s prev d ≡ ok (Blob.sections (some d) m)) × PostAt m u c
  unfolding put
  put-sections prev d t u c (no_post e) hd = (none, ground arith, no_post refl)
  put-sections none d t u c (post_at meta e hm) hd = absurd (ground arith)
  put-sections (some prev) d t u c (post_at meta e hm) hd =
      let eq = put-kept prev meta d t u e hm.stamped hd in
      elim (Bool-cases (ltb t u)) [
        | inl newer_post ↦ (some meta, eq ∙ rw newer_post, post_at meta refl hm)
        | inr older_post ↦ (none, eq ∙ rw older_post, no_post refl)
      ]

  pub get_sections :
      (d : Headers) (m : Option Headers) (t u c k : ℕ)
      → fixed s x_timestamp ≡ false
      → fixed s content_type_timestamp ≡ false
      → IsDict d
      → IsStamped s d t
      → TypeAt s d k
      → PostAt m u c
      → Reads d m t (get s (Blob.sections (some d) m))
  get_sections d m t u c k fs ft h hd hk (no_post e) = rw e (get_plain d t k hd hk)
  get_sections d m t u c k fs ft h hd hk (post_at meta e hm) =
      rw e (get_posted fs ft d meta t u c h hd hm)
